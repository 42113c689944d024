-- ===== src/AgentRuntime/Once.antt =====
-- packages/agent-runtime/approval_manager.go: an approval that was answered is not answered again.
use dev_plane.Prelude.{
  true, ◌≡◌, refl, sym, ◌∙◌, ap, subst, ◌⊎◌, inl, inr, some, Result, ok, after-ok, pure, arith,
  Bool-cases, not-err-ok,
}
use dev_plane.Text.{Text}
use dev_plane.AgentRuntime.Protocol.{
  ApprovalDecision, Thread, Turn, Item, ItemStatus, ApprovalResponse,
}
use dev_plane.AgentRuntime.World.{
  StoreLaws, World, AgentError, read, thread_unread, turn_unread, item_unread,
}
use dev_plane.AgentRuntime.Manager.{Manager}
use dev_plane.AgentRuntime.Approval.{
  check_response, owns, dispatch, answer_item, respond_approval, answered_status, by_status,
  is_approval, known_decision,
}
use dev_plane.AgentRuntime.Dispatch.{read-ok}
use dev_plane.AgentRuntime.Answers.{pure-ok, dispatch-ok, Answered, Loaded, Answered-Loaded}

module _ {S : Type 0} (m : Manager S) where
  respond-loaded :
      (r : ApprovalResponse) (thread : Thread) (turn : Turn) (item : Item) (w : World S)
      → check_response r ≡ ok tt
      → Loaded m r w.held thread turn item
      → respond_approval (some m) r w ≡ answer_item m r thread turn item w
  unfolding respond_approval
  respond-loaded r thread turn item w fine l =
      rw (fine, l.thread_read, l.turn_read, l.item_read) refl

  -- an item that was answered, and is answered again
  answered_again :
      (r : ApprovalResponse) (thread : Thread) (turn : Turn) (item : Item) (w : World S)
      → owns thread turn item ≡ true
      → is_approval item.kind ≡ true
      → (item.status ≡ ItemStatus.completed) ⊎ (item.status ≡ ItemStatus.cancelled)
      → answer_item m r thread turn item w ≡ (ok tt, w)
  unfolding answer_item
  answered_again r thread turn item w mine asks (inl e) = rw (mine, asks, e) refl
  answered_again r thread turn item w mine asks (inr e) = rw (mine, asks, e) refl

  -- how `answer_item` succeeds
  record Accepted (r : ApprovalResponse) (thread : Thread) (turn : Turn) (item : Item)
      (w w' : World S) : Type 0 where
    mine : owns thread turn item ≡ true
    asks : is_approval item.kind ≡ true
    how :
        (((item.status ≡ ItemStatus.completed) ⊎ (item.status ≡ ItemStatus.cancelled)) × (w' ≡ w))
        ⊎ Answered m r turn item w.held w'.held

  by_status-ok :
      (r : ApprovalResponse) (thread : Thread) (turn : Turn) (item : Item) (status : ItemStatus)
      (w w' : World S) {u : Unit {0}}
      → by_status m status item (dispatch m r thread turn item) w ≡ (ok u, w')
      → (((status ≡ ItemStatus.completed) ⊎ (status ≡ ItemStatus.cancelled)) × (w' ≡ w))
        ⊎ Answered m r turn item w.held w'.held
  by_status-ok r thread turn item ItemStatus.pending w w' e =
      inr (dispatch-ok m r thread turn item w w' e)
  by_status-ok r thread turn item ItemStatus.running w w' e =
      absurd (not-err-ok (ap (λ (p : Result AgentError (Unit {0}) × World S). p.0) e))
  by_status-ok r thread turn item ItemStatus.completed w w' e =
      inl (inl refl, (pure-ok (Unit {0}) (ok tt) w w' e).1)
  by_status-ok r thread turn item ItemStatus.failed w w' e =
      absurd (not-err-ok (ap (λ (p : Result AgentError (Unit {0}) × World S). p.0) e))
  by_status-ok r thread turn item ItemStatus.cancelled w w' e =
      inl (inr refl, (pure-ok (Unit {0}) (ok tt) w w' e).1)
  by_status-ok r thread turn item (ItemStatus.other t) w w' e =
      absurd (not-err-ok (ap (λ (p : Result AgentError (Unit {0}) × World S). p.0) e))

  answer_item-ok :
      (r : ApprovalResponse) (thread : Thread) (turn : Turn) (item : Item) (w w' : World S)
      {u : Unit {0}}
      → answer_item m r thread turn item w ≡ (ok u, w')
      → Accepted r thread turn item w w'
  unfolding answer_item
  answer_item-ok r thread turn item w w' e = elim (Bool-cases (owns thread turn item)) [
    | inr apart ↦
        absurd
          (not-err-ok (ap (λ (p : Result AgentError (Unit {0}) × World S). p.0) (rw apart at e)))
    | inl mine ↦ elim (Bool-cases (is_approval item.kind)) [
      | inr other ↦ absurd (
          not-err-ok
            (ap (λ (p : Result AgentError (Unit {0}) × World S). p.0) (rw (mine, other) at e)))
      | inl asks ↦ record {
        mine = mine;
        asks = asks;
        how = by_status-ok r thread turn item item.status w w' (rw (mine, asks) at e);
      }
    ]
  ]

  -- how `RespondApproval` succeeds
  record Success (r : ApprovalResponse) (w w' : World S) : Type 0 where
    checked : check_response r ≡ ok tt
    thread : Thread
    turn : Turn
    item : Item
    loaded : Loaded m r w.held thread turn item
    accepted : Accepted r thread turn item w w'

  reads-Success :
      (r : ApprovalResponse) (w w0 w1 w2 w3 w' : World S) (thread : Thread) (turn : Turn)
      (item : Item)
      → check_response r ≡ ok tt
      → m.store.get_thread w0.held r.thread_id ≡ ok thread
      → m.store.get_turn w1.held r.turn_id ≡ ok turn
      → m.store.get_item w2.held r.item_id ≡ ok item
      → w0 ≡ w
      → w1 ≡ w0
      → w2 ≡ w1
      → w3 ≡ w2
      → Accepted r thread turn item w3 w'
      → Success r w w'
  reads-Success r w w0 w1 w2 w3 w' thread turn item checked t1 t2 t3 h0 h1 h2 h3 a = record {
    checked = checked;
    thread = thread;
    turn = turn;
    item = item;
    loaded = record {
      thread_read = ap (λ (x : World S). m.store.get_thread x.held r.thread_id) (sym h0) ∙ t1;
      turn_read = ap (λ (x : World S). m.store.get_turn x.held r.turn_id) (sym (h1 ∙ h0)) ∙ t2;
      item_read = ap (λ (x : World S). m.store.get_item x.held r.item_id) (sym (h2 ∙ h1 ∙ h0)) ∙ t3;
    };
    accepted = subst (λ x. Accepted r thread turn item x w') (h3 ∙ h2 ∙ h1 ∙ h0) a;
  }

  respond_approval-ok :
      (r : ApprovalResponse) (w w' : World S) {u : Unit {0}}
      → respond_approval (some m) r w ≡ (ok u, w')
      → Success r w w'
  unfolding respond_approval
  respond_approval-ok r w w' e =
      let (a, w0, e0, f0) = after-ok (pure (check_response r) w) _ e in
      let (thread, w1, e1, f1) =
        after-ok (read thread_unread (λ s. m.store.get_thread s r.thread_id) w0) _ f0 in
      let (turn, w2, e2, f2) =
        after-ok (read turn_unread (λ s. m.store.get_turn s r.turn_id) w1) _ f1 in
      let (item, w3, e3, f3) =
        after-ok (read item_unread (λ s. m.store.get_item s r.item_id) w2) _ f2 in
      let (checked, h0) = pure-ok (Unit {0}) _ w w0 e0 in
      let (t1, h1) =
        read-ok thread_unread (λ s. m.store.get_thread s r.thread_id) w0 w1 thread e1 in
      let (t2, h2) = read-ok turn_unread (λ s. m.store.get_turn s r.turn_id) w1 w2 turn e2 in
      let (t3, h3) = read-ok item_unread (λ s. m.store.get_item s r.item_id) w2 w3 item e3 in
      reads-Success r w w0 w1 w2 w3 w' thread turn item checked t1 t2 t3 h0 h1 h2 h3
        (answer_item-ok r thread turn item w3 w' f3)

check-known :
    (r : ApprovalResponse) (d : ApprovalDecision) (note : Text)
    → check_response r ≡ ok tt
    → known_decision d ≡ true
    → check_response (record r { decision = d; note = note }) ≡ ok tt
unfolding check_response
check-known r d note h k = ground arith

answered-final :
    (d : ApprovalDecision)
    → (answered_status d ≡ ItemStatus.completed) ⊎ (answered_status d ≡ ItemStatus.cancelled)
answered-final ApprovalDecision.approved = inl refl
answered-final ApprovalDecision.denied = inr refl
answered-final (ApprovalDecision.other t) = inr refl

-- `RespondApproval` is idempotent: after an answer that was accepted, another answer for the same
-- approval, whatever its decision, is accepted too, and neither the store nor the provider sees it.
pub respond_approval-once :
    (S : Type 0) (m : Manager S) (r : ApprovalResponse) (w w' : World S) (d : ApprovalDecision)
    (note : Text)
    → StoreLaws m.store
    → known_decision d ≡ true
    → respond_approval (some m) r w ≡ (ok tt, w')
    → respond_approval (some m) (record r { decision = d; note = note }) w' ≡ (ok tt, w')
unfolding owns
respond_approval-once S m r w w' d note laws known e =
    let s = respond_approval-ok m r w w' e in
    let again = record r { decision = d; note = note } in
    let checked = check-known r d note s.checked known in
    elim s.accepted.how [
      | inl (final, same) ↦
          subst (λ x. respond_approval (some m) again x ≡ (ok tt, x)) (sym same)
            (respond-loaded m again s.thread s.turn s.item w checked (record {
              thread_read = s.loaded.thread_read;
              turn_read = s.loaded.turn_read;
              item_read = s.loaded.item_read;
            })
              ∙ answered_again m again s.thread s.turn s.item w s.accepted.mine s.accepted.asks
                  final)
      | inr x ↦
          let l = Answered-Loaded m laws r s.thread s.turn s.item w.held w'.held s.loaded x in
          respond-loaded m again s.thread _ _ w' checked (record {
            thread_read = l.thread_read;
            turn_read = l.turn_read;
            item_read = l.item_read;
          })
          ∙ answered_again m again s.thread _ _ w' s.accepted.mine s.accepted.asks
              (answered-final r.decision)
    ]
