-- ===== src/AgentRuntime/Dispatch.antt =====
-- packages/agent-runtime/approval_manager.go: when an answer is sent to a provider.
use dev_plane.Prelude.{
  ok-injective, not-err-ok, ℕ, true, not, ◌≡◌, refl, sym, ◌∙◌, ap, subst, ◌⊎◌, inl, inr, Option,
  some, ◌∷◌, Result, ok, err, ◌then◌, after, pure, fail_if, arith, Bool-cases, Option-cases,
}
use dev_plane.Text.{Text}
use dev_plane.AgentRuntime.Protocol.{
  Thread, Turn, Item, ItemStatus, ItemType, TurnStatus, ApprovalResponse,
  can_transition_turn_status,
}
use dev_plane.AgentRuntime.World.{
  World, Step, AgentError, read, write, now, tick, thread_unread, turn_unread, item_unread,
  turn_unstored, bad_transition,
}
use dev_plane.AgentRuntime.Manager.{Manager, registered}
use dev_plane.AgentRuntime.Approval.{
  check_response, owns, responder, put_item_at, send, dispatch, answer_item, respond_approval,
  answered_status, by_status, is_approval, is_paused,
}

-- What was sent by a step: nothing, or the response, and then the condition held.
abbrev Sent :
    {A S : Type 0} → Type 0 → ApprovalResponse → World S → Result AgentError A × World S → Type 0
Sent P r w p = (p.1.answered ≡ w.answered) ⊎ (P × (p.1.answered ≡ r ∷ w.answered))

abbrev Silent : {A S : Type 0} → (World S → Result AgentError A × World S) → Type 0
Silent {S = S} step = (w : World S) → (step w).1.answered ≡ w.answered

after-Silent :
    {A B S : Type 0} (p : Result AgentError A × World S) (rest : A → Step S B)
    → ((a : A) → Silent (rest a))
    → (after p rest).1.answered ≡ p.1.answered
after-Silent (ok a, w) rest k = k a w
after-Silent (err e, w) rest k = refl

-- a step that sends nothing, in front of one that may
after-Sent :
    {A B S : Type 0} (P : Type 0) (r : ApprovalResponse) (w : World S)
    (p : Result AgentError A × World S) (rest : A → Step S B)
    → p.1.answered ≡ w.answered
    → ((a : A) (w' : World S) → p ≡ (ok a, w') → w'.answered ≡ w.answered → Sent P r w (rest a w'))
    → Sent P r w (after p rest)
after-Sent P r w (ok a, w') rest same k = k a w' refl same
after-Sent P r w (err e, w') rest same k = inl same

module _ {S : Type 0} (m : Manager S) where
  send-answered :
      (answer : ℕ → ApprovalResponse → Option Text) (r : ApprovalResponse) (item : Item)
      (w : World S)
      → (send m answer r item w).1.answered ≡ r ∷ w.answered
  unfolding send
  send-answered answer r item w = elim (Option-cases (answer w.ticks r)) [
    | inl e ↦ rw (send, e) refl
    | inr (x, e) ↦ rw (send, e) refl
  ]

  -- `dispatch` behind the answer
  abbrev pub resume : ApprovalResponse → Turn → Item → Step S (Unit {0})
  resume r turn item = now m.clock then λ t2.
      put_item_at m item (answered_status r.decision) t2 then λ d.
      pure (
        fail_if (not (can_transition_turn_status turn.status TurnStatus.running))
          (bad_transition turn.status TurnStatus.running))
      then λ e. now m.clock then λ t3.
          write turn_unstored
            (λ s. m.store.put_turn s (record turn { status = TurnStatus.running; updated_at = t3 }))

  resume-Silent : (r : ApprovalResponse) (turn : Turn) (item : Item) → Silent (resume r turn item)
  resume-Silent r turn item w =
      after-Silent (put_item_at m item (answered_status r.decision) (m.clock w.ticks) (tick w)) _
        (λ d w2.
          after-Silent
            (pure
              (fail_if (not (can_transition_turn_status turn.status TurnStatus.running))
                (bad_transition turn.status TurnStatus.running))
              w2)
            _ (λ e w3. refl))

  dispatch-Sent :
      (r : ApprovalResponse) (thread : Thread) (turn : Turn) (item : Item) (w : World S)
      → Sent (is_paused turn.status ≡ true) r w (dispatch m r thread turn item w)
  unfolding dispatch
  dispatch-Sent r thread turn item w = elim (Bool-cases (is_paused turn.status)) [
    | inr other ↦ rw other (inl refl)
    | inl paused ↦ rw paused (
        after-Sent (true ≡ true) r w (registered m thread.provider w) _ refl (λ p w1 e1 s1.
          after-Sent (true ≡ true) r w (responder m p w1) _ s1 (λ answer w2 e2 s2.
            after-Sent (true ≡ true) r w
              (put_item_at m item ItemStatus.running (m.clock w2.ticks) (tick w2)) _ s2
              (λ b w3 e3 s3. inr (
                refl,
                after-Silent (send m answer r item w3) _ (λ c. resume-Silent r turn item)
                    ∙ send-answered answer r item w3
                    ∙ ap (λ x. r ∷ x) s3,
              )))))
  ]

  -- the records that the response names are there, belong together, and wait for an answer
  pub record Waiting (r : ApprovalResponse) (w : World S) : Type 0 where
    pub thread : Thread
    pub turn : Turn
    pub item : Item
    pub thread_read : m.store.get_thread w.held r.thread_id ≡ ok thread
    pub turn_read : m.store.get_turn w.held r.turn_id ≡ ok turn
    pub item_read : m.store.get_item w.held r.item_id ≡ ok item
    pub together : owns thread turn item ≡ true
    pub asks : item.kind ≡ ItemType.approval
    pub waits : item.status ≡ ItemStatus.pending
    pub paused : turn.status ≡ TurnStatus.paused_approval

  Sent-map :
      {A P Q : Type 0} (r : ApprovalResponse) (w : World S) (p : Result AgentError A × World S)
      → (P → Q)
      → Sent P r w p
      → Sent Q r w p
  Sent-map r w p f (inl e) = inl e
  Sent-map r w p f (inr (x, e)) = inr (f x, e)

  approval-kind : (k : ItemType) → is_approval k ≡ true → k ≡ ItemType.approval
  approval-kind k h = ground arith

  paused-status : (s : TurnStatus) → is_paused s ≡ true → s ≡ TurnStatus.paused_approval
  paused-status s h = ground arith

  by_status-Sent :
      (P : Type 0) (r : ApprovalResponse) (w : World S) (item : Item) (status : ItemStatus)
      (d : Step S (Unit {0}))
      → (status ≡ ItemStatus.pending → Sent P r w (d w))
      → Sent P r w (by_status m status item d w)
  by_status-Sent P r w item ItemStatus.pending d k = k refl
  by_status-Sent P r w item ItemStatus.running d k = inl refl
  by_status-Sent P r w item ItemStatus.completed d k = inl refl
  by_status-Sent P r w item ItemStatus.failed d k = inl refl
  by_status-Sent P r w item ItemStatus.cancelled d k = inl refl
  by_status-Sent P r w item (ItemStatus.other t) d k = inl refl

  answer_item-Sent :
      (r : ApprovalResponse) (thread : Thread) (turn : Turn) (item : Item) (w : World S)
      → Sent
          ((owns thread turn item ≡ true)
            × (item.kind ≡ ItemType.approval)
            × (item.status ≡ ItemStatus.pending)
            × (turn.status ≡ TurnStatus.paused_approval))
          r
          w
          (answer_item m r thread turn item w)
  unfolding answer_item
  answer_item-Sent r thread turn item w = elim (Bool-cases (owns thread turn item)) [
    | inr apart ↦ rw apart (inl refl)
    | inl mine ↦ elim (Bool-cases (is_approval item.kind)) [
      | inr other ↦ rw (mine, other) (inl refl)
      | inl asks ↦
          rw (mine, asks)
            (by_status-Sent _ r w item item.status (dispatch m r thread turn item) (λ pending.
              Sent-map r w (dispatch m r thread turn item w)
                (λ paused.
                  (refl, approval-kind item.kind asks, pending, paused-status turn.status paused))
                (dispatch-Sent r thread turn item w)))
    ]
  ]

pub first_ok :
    {X Y : Type 0} (wrap : Text → AgentError) (g : Result Text X) (w w' : Y) (x : X)
    → ◌≡◌ {A = Result AgentError X × Y}
        ((elim g [ ok y ↦ ok y | err e ↦ err (wrap e) ]), w)
        (ok x, w')
    → (g ≡ ok x) × (w' ≡ w)
first_ok {X = X} {Y = Y} wrap (ok y) w w' x e = (
  ap ok (ok-injective (ap (λ (p : Result AgentError X × Y). p.0) e)),
  sym (ap (λ (p : Result AgentError X × Y). p.1) e),
)
first_ok {X = X} {Y = Y} wrap (err y) w w' x e =
    absurd (not-err-ok (ap (λ (p : Result AgentError X × Y). p.0) e))

pub read-ok :
    {S X : Type 0} (wrap : Text → AgentError) (get : S → Result Text X) (w w' : World S) (x : X)
    → read wrap get w ≡ (ok x, w')
    → (get w.held ≡ ok x) × (w' ≡ w)
read-ok wrap get w w' x e = first_ok wrap (get w.held) w w' x e

-- `RespondApproval` behind the tests of the response
abbrev loaded : {S : Type 0} → Manager S → ApprovalResponse → Step S (Unit {0})
loaded m r = read thread_unread (λ s. m.store.get_thread s r.thread_id) then λ thread.
    read turn_unread (λ s. m.store.get_turn s r.turn_id) then λ turn.
    read item_unread (λ s. m.store.get_item s r.item_id) then λ item.
    answer_item m r thread turn item

at_start :
    {S : Type 0} (m : Manager S) (r : ApprovalResponse) (w : World S) (thread : Thread)
    (turn : Turn) (item : Item)
    → m.store.get_thread w.held r.thread_id ≡ ok thread
    → m.store.get_turn w.held r.turn_id ≡ ok turn
    → m.store.get_item w.held r.item_id ≡ ok item
    → (w3 : World S) → w3 ≡ w
    → Sent (Waiting m r w) r w (answer_item m r thread turn item w3)
at_start m r w thread turn item th tu it w3 same =
    subst (λ x. Sent (Waiting m r w) r w (answer_item m r thread turn item x)) (sym same)
      (Sent-map m r w (answer_item m r thread turn item w)
        (λ f. record {
          thread = thread;
          turn = turn;
          item = item;
          thread_read = th;
          turn_read = tu;
          item_read = it;
          together = f.0;
          asks = f.1;
          waits = f.2;
          paused = f.3;
        })
        (answer_item-Sent m r thread turn item w))

loaded-Sent :
    {S : Type 0} (m : Manager S) (r : ApprovalResponse) (w w0 : World S)
    → w0 ≡ w
    → Sent (Waiting m r w) r w (loaded m r w0)
loaded-Sent {S = S} m r w w0 same =
    after-Sent (Waiting m r w) r w (read thread_unread (λ s. m.store.get_thread s r.thread_id) w0) _
      (ap (λ x. x.answered) same)
      (λ thread w1 e1 s1.
        let (thread_read, same1) =
          read-ok thread_unread (λ s. m.store.get_thread s r.thread_id) w0 w1 thread e1 in
        after-Sent (Waiting m r w) r w (read turn_unread (λ s. m.store.get_turn s r.turn_id) w1) _
          s1
          (λ turn w2 e2 s2.
            let (turn_read, same2) =
              read-ok turn_unread (λ s. m.store.get_turn s r.turn_id) w1 w2 turn e2 in
            after-Sent (Waiting m r w) r w (read item_unread (λ s. m.store.get_item s r.item_id) w2)
              _ s2
              (λ item w3 e3 s3.
                let (item_read, same3) =
                  read-ok item_unread (λ s. m.store.get_item s r.item_id) w2 w3 item e3 in
                at_start m r w thread turn item
                  (subst (λ (x : World S). m.store.get_thread x.held r.thread_id ≡ ok thread) same
                    thread_read)
                  (subst (λ (x : World S). m.store.get_turn x.held r.turn_id ≡ ok turn)
                    (same1 ∙ same) turn_read)
                  (subst (λ (x : World S). m.store.get_item x.held r.item_id ≡ ok item)
                    (same2 ∙ same1 ∙ same) item_read)
                  w3 (same3 ∙ same2 ∙ same1 ∙ same))))

-- `RespondApproval` sends at most one answer, and only if the thread, the turn and the item that the
-- response names were in the store, the turn and the item those of the thread and the turn, the item an
-- approval that was pending, and the turn paused for approval.
pub respond_approval-guards :
    (S : Type 0) (m : Manager S) (r : ApprovalResponse) (w : World S)
    → ((respond_approval (some m) r w).1.answered ≡ w.answered)
      ⊎ (Waiting m r w × ((respond_approval (some m) r w).1.answered ≡ r ∷ w.answered))
unfolding respond_approval
respond_approval-guards S m r w =
    after-Sent (Waiting m r w) r w (pure (check_response r) w) _ refl (λ a w0 e0 s0.
      loaded-Sent m r w w0 (sym (ap (λ (p : Result AgentError (Unit {0}) × World S). p.1) e0)))
