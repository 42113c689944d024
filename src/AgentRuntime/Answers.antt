-- ===== src/AgentRuntime/Answers.antt =====
-- packages/agent-runtime/approval_manager.go: what an accepted answer leaves in the store.
use dev_plane.Prelude.{
  ℕ, not, ◌≡◌, refl, sym, ◌∙◌, ap, subst, inl, inr, Option, none, Result, ok, ◌then◌, after-ok,
  pure, fail_if, Option-cases, not-err-ok,
}
use dev_plane.Prelude.Int.{ℤ}
use dev_plane.Text.{Text}
use dev_plane.AgentRuntime.Protocol.{
  Thread, Turn, Item, ItemStatus, TurnStatus, ApprovalResponse, can_transition_turn_status,
}
use dev_plane.AgentRuntime.Registry.{Provider}
use dev_plane.AgentRuntime.World.{
  StoreLaws, World, Step, AgentError, write, now, tick, not_paused, turn_unstored, item_unstored,
  bad_transition,
}
use dev_plane.AgentRuntime.Manager.{Manager, registered}
use dev_plane.AgentRuntime.Approval.{
  responder, put_item_at, send, dispatch, answered_status, is_paused,
}
use dev_plane.AgentRuntime.Dispatch.{resume}

write-ok :
    {S : Type 0} (wrap : Text → AgentError) (put : S → Option Text × S) (w w' : World S)
    {u : Unit {0}}
    → write wrap put w ≡ (ok u, w')
    → ((put w.held).0 ≡ none) × (w'.held ≡ (put w.held).1)
write-ok {S = S} wrap put w w' e = elim (Option-cases (put w.held).0) [
  | inl taken ↦ (taken, ap (λ (p : Result AgentError (Unit {0}) × World S). p.1.held) (sym e))
  | inr (x, refused) ↦
      absurd
        (not-err-ok (ap (λ (p : Result AgentError (Unit {0}) × World S). p.0) (rw refused at e)))
]

pub pure-ok :
    {S : Type 0} (A : Type 0) (r : Result AgentError A) (w w' : World S) {a : A}
    → pure r w ≡ (ok a, w')
    → (r ≡ ok a) × (w' ≡ w)
pure-ok {S = S} A r w w' e = (
  ap (λ (p : Result AgentError A × World S). p.0) e,
  sym (ap (λ (p : Result AgentError A × World S). p.1) e),
)

module _ {S : Type 0} (m : Manager S) where
  abbrev pub stamped : Item → ItemStatus → ℤ → Item
  stamped item status time = record item { status = status; updated_at = time }

  abbrev pub resumed_turn : Turn → ℤ → Turn
  resumed_turn turn time = record turn { status = TurnStatus.running; updated_at = time }

  -- what an answer that was taken has put into the store, from `s` to `s'`
  pub record Answered (r : ApprovalResponse) (turn : Turn) (item : Item) (s s' : S) : Type 0 where
    pub t1 : ℤ
    pub t2 : ℤ
    pub t3 : ℤ
    pub put1 : (m.store.put_item s (stamped item ItemStatus.running t1)).0 ≡ none
    pub s1 : S
    pub after1 : s1 ≡ (m.store.put_item s (stamped item ItemStatus.running t1)).1
    pub put2 : (m.store.put_item s1 (stamped item (answered_status r.decision) t2)).0 ≡ none
    pub s2 : S
    pub after2 : s2 ≡ (m.store.put_item s1 (stamped item (answered_status r.decision) t2)).1
    pub put3 : (m.store.put_turn s2 (resumed_turn turn t3)).0 ≡ none
    pub after3 : s' ≡ (m.store.put_turn s2 (resumed_turn turn t3)).1

  send-ok :
      (answer : ℕ → ApprovalResponse → Option Text) (r : ApprovalResponse) (item : Item)
      (w w' : World S) {u : Unit {0}}
      → send m answer r item w ≡ (ok u, w')
      → w'.held ≡ w.held
  unfolding send
  send-ok answer r item w w' e = elim (Option-cases (answer w.ticks r)) [
    | inl fine ↦
        ap (λ (p : Result AgentError (Unit {0}) × World S). p.1.held) (sym (rw (send, fine) at e))
    | inr (x, failed) ↦ absurd (
        not-err-ok
          (ap (λ (p : Result AgentError (Unit {0}) × World S). p.0) (rw (send, failed) at e)))
  ]

  puts-Answered :
      (r : ApprovalResponse) (turn : Turn) (item : Item) (s s3 s4 s5 s6 s7 s8 : S) (t1 t2 t3 : ℤ)
      → s3 ≡ s
      → ((m.store.put_item s3 (stamped item ItemStatus.running t1)).0 ≡ none)
        × (s4 ≡ (m.store.put_item s3 (stamped item ItemStatus.running t1)).1)
      → s5 ≡ s4
      → ((m.store.put_item s5 (stamped item (answered_status r.decision) t2)).0 ≡ none)
        × (s6 ≡ (m.store.put_item s5 (stamped item (answered_status r.decision) t2)).1)
      → s7 ≡ s6
      → ((m.store.put_turn s7 (resumed_turn turn t3)).0 ≡ none)
        × (s8 ≡ (m.store.put_turn s7 (resumed_turn turn t3)).1)
      → Answered r turn item s s8
  puts-Answered r turn item s s3 s4 s5 s6 s7 s8 t1 t2 t3 e3 p4 e5 p6 e7 p8 = record {
    t1 = t1;
    t2 = t2;
    t3 = t3;
    put1 = subst (λ x. (m.store.put_item x (stamped item ItemStatus.running t1)).0 ≡ none) e3 p4.0;
    s1 = s5;
    after1 = e5 ∙ p4.1 ∙ ap (λ x. (m.store.put_item x (stamped item ItemStatus.running t1)).1) e3;
    put2 = p6.0;
    s2 = s7;
    after2 = e7 ∙ p6.1;
    put3 = p8.0;
    after3 = p8.1;
  }

  put_item_at-ok :
      (item : Item) (status : ItemStatus) (time : ℤ) (w w' : World S) {u : Unit {0}}
      → put_item_at m item status time w ≡ (ok u, w')
      → ((m.store.put_item w.held (stamped item status time)).0 ≡ none)
        × (w'.held ≡ (m.store.put_item w.held (stamped item status time)).1)
  put_item_at-ok item status time w w' e =
      write-ok item_unstored (λ s. m.store.put_item s (stamped item status time)) w w' e

  put_turn-ok :
      (turn : Turn) (time : ℤ) (w w' : World S) {u : Unit {0}}
      → write turn_unstored (λ s. m.store.put_turn s (resumed_turn turn time)) w ≡ (ok u, w')
      → ((m.store.put_turn w.held (resumed_turn turn time)).0 ≡ none)
        × (w'.held ≡ (m.store.put_turn w.held (resumed_turn turn time)).1)
  put_turn-ok turn time w w' e =
      write-ok turn_unstored (λ s. m.store.put_turn s (resumed_turn turn time)) w w' e

  -- `dispatch` from the first put on
  abbrev sending :
      (ℕ → ApprovalResponse → Option Text) → ApprovalResponse → Turn → Item → Step S (Unit {0})
  sending answer r turn item = now m.clock then λ t1.
      put_item_at m item ItemStatus.running t1 then λ b.
      send m answer r item then λ c. resume m r turn item

  sending-ok :
      (answer : ℕ → ApprovalResponse → Option Text) (r : ApprovalResponse) (turn : Turn)
      (item : Item) (w w' : World S) {u : Unit {0}}
      → sending answer r turn item w ≡ (ok u, w')
      → Answered r turn item w.held w'.held
  sending-ok answer r turn item w w' e =
      let (b, w4, e4, f4) =
        after-ok (put_item_at m item ItemStatus.running (m.clock w.ticks) (tick w)) _ e in
      let (c, w5, e5, f5) = after-ok (send m answer r item w4) _ f4 in
      let (d, w6, e6, f6) =
        after-ok (put_item_at m item (answered_status r.decision) (m.clock w5.ticks) (tick w5)) _
          f5 in
      let (x, w7, e7, f7) =
        after-ok
          (pure
            (fail_if (not (can_transition_turn_status turn.status TurnStatus.running))
              (bad_transition turn.status TurnStatus.running))
            w6)
          _ f6 in
      puts-Answered r turn item w.held w.held w4.held w5.held w6.held w7.held w'.held
        (m.clock w.ticks) (m.clock w5.ticks) (m.clock w7.ticks) refl
        (put_item_at-ok item ItemStatus.running (m.clock w.ticks) (tick w) w4 e4)
        (send-ok answer r item w4 w5 e5)
        (put_item_at-ok item (answered_status r.decision) (m.clock w5.ticks) (tick w5) w6 e6)
        (ap (λ (x : World S). x.held) (pure-ok (Unit {0}) _ w6 w7 e7).1)
        (put_turn-ok turn (m.clock w7.ticks) (tick w7) w' f7)

  pub dispatch-ok :
      (r : ApprovalResponse) (thread : Thread) (turn : Turn) (item : Item) (w w' : World S)
      {u : Unit {0}}
      → dispatch m r thread turn item w ≡ (ok u, w')
      → Answered r turn item w.held w'.held
  unfolding dispatch
  dispatch-ok r thread turn item w w' e =
      let (a, w1, e1, f1) =
        after-ok (pure (fail_if (not (is_paused turn.status)) (not_paused turn.id)) w) _ e in
      let (p, w2, e2, f2) = after-ok (registered m thread.provider w1) _ f1 in
      let (answer, w3, e3, f3) = after-ok (responder m p w2) _ f2 in
      let (a1, h1) = pure-ok (Unit {0}) _ w w1 e1 in
      let (a2, h2) = pure-ok Provider _ w1 w2 e2 in
      let (a3, h3) = pure-ok (ℕ → ApprovalResponse → Option Text) _ w2 w3 e3 in
      subst (λ x. Answered r turn item x w'.held) (ap (λ (x : World S). x.held) (h3 ∙ h2 ∙ h1))
        (sending-ok answer r turn item w3 w' f3)

  -- The records that the ids of a response lead to.
  pub record Loaded (r : ApprovalResponse) (s : S) (thread : Thread) (turn : Turn) (item : Item)
      : Type 0 where
    pub thread_read : m.store.get_thread s r.thread_id ≡ ok thread
    pub turn_read : m.store.get_turn s r.turn_id ≡ ok turn
    pub item_read : m.store.get_item s r.item_id ≡ ok item

  module _ (laws : StoreLaws m.store) where
    pub Answered-Loaded :
        (r : ApprovalResponse) (thread : Thread) (turn : Turn) (item : Item) (s s' : S)
        → Loaded r s thread turn item
        → (x : Answered r turn item s s')
        → Loaded r s' thread
            (resumed_turn turn x.t3)
            (stamped item (answered_status r.decision) x.t2)
    Answered-Loaded r thread turn item s s' l x =
        let first = stamped item ItemStatus.running x.t1 in
        let last = stamped item (answered_status r.decision) x.t2 in
        let get = λ (z : S). m.store.get_item z r.item_id in
        let read1 =
          ap get x.after1 ∙ laws.item_kept s r.item_id item first l.item_read refl x.put1 in
        let read2 = ap get x.after2 ∙ laws.item_kept x.s1 r.item_id first last read1 refl x.put2 in
        let turn2 =
          ap (λ z. m.store.get_turn z r.turn_id) x.after2
          ∙ laws.item-turn x.s1 last r.turn_id
          ∙ ap (λ z. m.store.get_turn z r.turn_id) x.after1
          ∙ laws.item-turn s first r.turn_id
          ∙ l.turn_read in
        record {
          thread_read =
              ap (λ z. m.store.get_thread z r.thread_id) x.after3
              ∙ laws.turn-thread x.s2 (resumed_turn turn x.t3) r.thread_id
              ∙ ap (λ z. m.store.get_thread z r.thread_id) x.after2
              ∙ laws.item-thread x.s1 last r.thread_id
              ∙ ap (λ z. m.store.get_thread z r.thread_id) x.after1
              ∙ laws.item-thread s first r.thread_id
              ∙ l.thread_read;
          turn_read =
              ap (λ z. m.store.get_turn z r.turn_id) x.after3
              ∙ laws.turn_kept x.s2 r.turn_id turn (resumed_turn turn x.t3) turn2 refl x.put3;
          item_read =
              ap get x.after3 ∙ laws.turn-item x.s2 (resumed_turn turn x.t3) r.item_id ∙ read2;
        }
