-- ===== src/AgentRuntime/Approval.antt =====
-- packages/agent-runtime/approval_manager.go: `RespondApproval`.
use dev_plane.Prelude.{
  ℕ, Bool, true, false, ◌||◌, ◌&&◌, not, Option, none, some, ◌∷◌, Result, ok, err, ◌then◌, pure,
  fail_if, if◌then◌else◌,
}
use dev_plane.Prelude.Int.{ℤ}
use dev_plane.Text.{Text, text_eq}
use dev_plane.AgentRuntime.Capabilities.{approval_requests}
use dev_plane.AgentRuntime.Protocol.{
  Thread, Turn, Item, ItemType, ItemStatus, TurnStatus, ApprovalResponse, ApprovalDecision, blank,
  can_transition_turn_status, approved,
}
use dev_plane.AgentRuntime.Registry.{Provider, get_provider}
use dev_plane.AgentRuntime.World.{
  Step, AgentError, read, write, now, tick, nil_manager, ids_required, invalid_decision,
  thread_unread, turn_unread, item_unread, ownership_mismatch, not_approval, indeterminate,
  not_paused, unsupported, item_unstored, turn_unstored, provider_failed, bad_transition,
}
use dev_plane.AgentRuntime.Manager.{Manager, registered}

abbrev pub known_decision : ApprovalDecision → Bool
known_decision (ApprovalDecision.other t) = false
known_decision _ = true

abbrev pub is_approval : ItemType → Bool
is_approval ItemType.approval = true
is_approval _ = false

abbrev pub is_paused : TurnStatus → Bool
is_paused TurnStatus.paused_approval = true
is_paused _ = false

-- the status of the item after the answer
abbrev pub answered_status : ApprovalDecision → ItemStatus
answered_status approved = ItemStatus.completed
answered_status _ = ItemStatus.cancelled

-- the tests of the response
unfoldable pub check_response : ApprovalResponse → Result AgentError (Unit {0})
check_response r =
    if blank r.thread_id || blank r.turn_id || blank r.item_id
    then err ids_required
    else fail_if (not (known_decision r.decision)) (invalid_decision r)

-- `turn.ThreadID == thread.ID && item.ThreadID == thread.ID && item.TurnID == turn.ID`
unfoldable pub owns : Thread → Turn → Item → Bool
owns thread turn item =
    text_eq turn.thread_id thread.id
    && text_eq item.thread_id thread.id
    && text_eq item.turn_id turn.id

module _ {S : Type 0} (m : Manager S) where
  -- a provider that answers approvals
  abbrev pub responder : Provider → Step S (ℕ → ApprovalResponse → Option Text)
  responder p = pure (elim p.respond_approval [
    | none ↦ err (unsupported p.name approval_requests)
    | some answer ↦ ok answer
  ])

  abbrev pub put_item_at : Item → ItemStatus → ℤ → Step S (Unit {0})
  put_item_at item status time =
      write item_unstored
        (λ s. m.store.put_item s (record item { status = status; updated_at = time }))

  -- The answer is sent. When the provider fails, the item is put back; an error of that is ignored.
  unfoldable pub send :
      (ℕ → ApprovalResponse → Option Text) → ApprovalResponse → Item → Step S (Unit {0})
  send answer r item w =
      let reply = answer w.ticks r in
      let sent = tick (record w { answered = r ∷ w.answered }) in
      let back = record item { updated_at = m.clock sent.ticks } in
      elim reply [
        | none ↦ (ok tt, sent)
        | some e ↦ (
          err (provider_failed e),
          record (tick sent) { held = (m.store.put_item sent.held back).1 },
        )
      ]

  -- `RespondApproval` once the item is found to be pending
  unfoldable pub dispatch : ApprovalResponse → Thread → Turn → Item → Step S (Unit {0})
  unfolding send can_transition_turn_status get_provider
  dispatch r thread turn item =
      pure (fail_if (not (is_paused turn.status)) (not_paused turn.id)) then λ a.
      registered m thread.provider then λ p. responder p then λ answer. now m.clock then λ t1.
      put_item_at item ItemStatus.running t1 then λ b. send answer r item then λ c.
      now m.clock then λ t2. put_item_at item (answered_status r.decision) t2 then λ d.
      pure (
        fail_if (not (can_transition_turn_status turn.status TurnStatus.running))
          (bad_transition turn.status TurnStatus.running))
      then λ e. now m.clock then λ t3.
          write turn_unstored
            (λ s. m.store.put_turn s (record turn { status = TurnStatus.running; updated_at = t3 }))

  -- the tests of the item's status: an item that was answered is left
  abbrev pub by_status : ItemStatus → Item → Step S (Unit {0}) → Step S (Unit {0})
  by_status ItemStatus.completed item next = pure (ok tt)
  by_status ItemStatus.cancelled item next = pure (ok tt)
  by_status ItemStatus.pending item next = next
  by_status status item next = pure (err (indeterminate item))

  -- `RespondApproval` once the records are loaded
  unfoldable pub answer_item : ApprovalResponse → Thread → Turn → Item → Step S (Unit {0})
  unfolding owns dispatch
  answer_item r thread turn item =
      pure (fail_if (not (owns thread turn item)) ownership_mismatch) then λ a.
      pure (fail_if (not (is_approval item.kind)) (not_approval item.id)) then λ b.
      by_status item.status item (dispatch r thread turn item)

-- `RespondApproval`, also on nil
unfoldable pub respond_approval :
    {S : Type 0} → Option (Manager S) → ApprovalResponse → Step S (Unit {0})
unfolding check_response answer_item
respond_approval none r = pure (err nil_manager)
respond_approval (some m) r = pure (check_response r) then λ a.
    read thread_unread (λ s. m.store.get_thread s r.thread_id) then λ thread.
    read turn_unread (λ s. m.store.get_turn s r.turn_id) then λ turn.
    read item_unread (λ s. m.store.get_item s r.item_id) then λ item.
    answer_item m r thread turn item
