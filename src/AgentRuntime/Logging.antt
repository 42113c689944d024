-- ===== src/AgentRuntime/Logging.antt =====
-- packages/agent-runtime/manager.go: an event that was recorded is in the store, and the sink took it.
use dev_plane.Prelude.{
  Bool, Result, true, false, not, ◌≡◌, refl, sym, ◌∙◌, ap, inl, inr, Option, none, some, ok,
  Bool-cases, Option-cases, after-ok, pure, ◌then◌, fail_if, not-err-ok, ok-injective, arith,
}
use dev_plane.Prelude.Int.{ℤ}
use dev_plane.Text.{Text}
use dev_plane.AgentRuntime.Protocol.{
  Thread, Turn, Event, EventType, blank, can_transition_turn_status, turn_started, turn_status,
  item_started, item_completed, item_failed, turn_completed, turn_failed, thread_created, other,
}
use dev_plane.AgentRuntime.World.{
  World, AgentError, tick, write, turn_unstored, item_unstored, turn_id_missing, bad_transition,
}
use dev_plane.AgentRuntime.Manager.{Manager, is_zero_time, is_unset, status_eq, time_or_now}
use dev_plane.AgentRuntime.Record.{
  started_turn, turn_of, with_status, owned_item, advance_turn, start_turn, record_item,
  record_status, persist_kind, persist_event, record_event, handled,
}
use dev_plane.AgentRuntime.Kept.{time_of, Handled, TurnPut, Moved, ItemPut, StatusPut, Kept, Logged}

module _ {S : Type 0} (m : Manager S) where
  write-ok :
      (wrap : Text → AgentError) (put : S → Option Text × S) (w w1 : World S) (u : Unit {0})
      → write wrap put w ≡ (ok u, w1)
      → put w.held ≡ (none, w1.held)
  write-ok wrap put w w1 u h = elim (Option-cases (put w.held).0) [
    | inl e ↦ cc (e, ap (λ (p : Result AgentError (Unit {0}) × World S). p.1.held) h)
    | inr (x, e) ↦ absurd (not-err-ok (ap (λ p. p.0) (rw e at h)))
  ]

  turn_put :
      (t : Turn) (w : World S) (later : Option Turn) (w2 : World S)
      → (write turn_unstored (λ s. m.store.put_turn s t) then λ v. pure (ok (some t))) w
        ≡ (ok later, w2)
      → (m.store.put_turn w.held t ≡ (none, w2.held)) × (later ≡ some t)
  turn_put t w later w2 h =
      let (u, w1, put, done) = after-ok (write turn_unstored (λ s. m.store.put_turn s t) w) _ h in
      (
        write-ok turn_unstored (λ s. m.store.put_turn s t) w w1 u put
            ∙ ap (λ (p : Result AgentError (Option Turn) × World S). (none, p.1.held)) done,
        sym (ok-injective (ap (λ p. p.0) done)),
      )

  checked_put :
      (test : Bool) (x : AgentError) (t : Turn) (w : World S) (later : Option Turn) (w2 : World S)
      → (pure (fail_if test x) then λ u.
            write turn_unstored (λ s. m.store.put_turn s t) then λ v. pure (ok (some t)))
          w
        ≡ (ok later, w2)
      → (test ≡ false) × ((m.store.put_turn w.held t ≡ (none, w2.held)) × (later ≡ some t))
  checked_put true x t w later w2 h = absurd (not-err-ok (ap (λ p. p.0) h))
  checked_put false x t w later w2 h = (refl, turn_put t w later w2 h)

  module _ (thread : Thread) (current : Option Turn) (e : Event) (time : ℤ)
      (later : Option Turn) where
    unmoved :
        (turn : Option Turn) (w w2 : World S)
        → ◌≡◌ {A = Result AgentError (Option Turn) × World S} (ok turn, w) (ok later, w2)
        → (later ≡ turn) × (w2.held ≡ w.held)
    unmoved turn w w2 h = (
      sym (ok-injective (ap (λ p. p.0) h)),
      sym (ap (λ (p : Result AgentError (Option Turn) × World S). p.1.held) h),
    )

    advance_turn-Moved :
        (turn : Option Turn) (w w2 : World S)
        → advance_turn m turn e time w ≡ (ok later, w2)
        → Moved m thread current e time later turn w.held w2.held
    unfolding advance_turn
    advance_turn-Moved none w w2 h = unmoved none w w2 h
    advance_turn-Moved (some t) w w2 h = elim (Bool-cases (is_unset e.status)) [
      | inl unset ↦
          let (l, s) = unmoved (some t) w w2 (rw (advance_turn, unset) at h) in
          inl (rw unset refl, l, s)
      | inr set ↦ elim (Bool-cases (status_eq e.status t.status)) [
        | inl same ↦
            let (l, s) = unmoved (some t) w w2 (rw (advance_turn, set, same) at h) in
            inl (rw (set, same) refl, l, s)
        | inr differs ↦
            let (allowed, put) =
              checked_put (not (can_transition_turn_status t.status e.status))
                (bad_transition t.status e.status)
                (record t { status = e.status; updated_at = time }) w later w2
                (rw (advance_turn, set, differs) at h) in
            inr (ground (arith, allowed), put)
      ]
    ]

    start_turn-put :
        (w w2 : World S)
        → start_turn m thread e time w ≡ (ok later, w2)
        → TurnPut m thread current e time later (started_turn thread e time) w.held w2.held
    unfolding start_turn
    start_turn-put w w2 h =
        let (named, put) =
          checked_put (blank e.turn_id) (turn_id_missing e) (started_turn thread e time) w later w2
            h in
        put

    record_item-put :
        (w w2 : World S)
        → record_item m thread current e time w ≡ (ok later, w2)
        → ItemPut m thread current e time later w.held w2.held
    unfolding record_item
    record_item-put w w2 h = elim (Option-cases e.item) [
      | inl missing ↦ absurd (not-err-ok (ap (λ p. p.0) (rw (record_item, missing) at h)))
      | inr (i, here) ↦
          let (u, w1, put, moved) =
            after-ok (write item_unstored (λ s. m.store.put_item s (owned_item thread e i time)) w)
              _ (rw (record_item, here) at h) in
          (
            i,
            here,
            (
              w1.held,
              write-ok item_unstored (λ s. m.store.put_item s (owned_item thread e i time)) w w1 u
                  put,
              advance_turn-Moved current w1 w2 moved,
            ),
          )
    ]

    record_status-put :
        (w w2 : World S)
        → record_status m thread current e time w ≡ (ok later, w2)
        → StatusPut m thread current e time later w.held w2.held
    unfolding record_status
    record_status-put w w2 h =
        let (named, put) =
          checked_put (blank e.turn_id) (turn_id_missing e)
            (with_status (turn_of thread current e time) e time) w later w2 h in
        put

  kind-Kept :
      (thread : Thread) (current : Option Turn) (e : Event) (time : ℤ) (later : Option Turn)
      (kind : EventType) (w w2 : World S)
      → persist_kind m kind thread current e time w ≡ (ok later, w2)
      → Kept m thread current e time later kind w.held w2.held
  unfolding persist_kind
  kind-Kept thread current e time later turn_started w w2 h =
      start_turn-put thread current e time later w w2 h
  kind-Kept thread current e time later item_started w w2 h =
      record_item-put thread current e time later w w2 h
  kind-Kept thread current e time later item_completed w w2 h =
      record_item-put thread current e time later w w2 h
  kind-Kept thread current e time later item_failed w w2 h =
      record_item-put thread current e time later w w2 h
  kind-Kept thread current e time later turn_status w w2 h =
      record_status-put thread current e time later w w2 h
  kind-Kept thread current e time later turn_completed w w2 h =
      record_status-put thread current e time later w w2 h
  kind-Kept thread current e time later turn_failed w w2 h =
      record_status-put thread current e time later w w2 h
  kind-Kept thread current e time later thread_created w w2 h =
      unmoved thread current e time later current w w2 h
  kind-Kept thread current e time later (other t) w w2 h =
      unmoved thread current e time later current w w2 h

  read-held :
      (a b : ℤ) (w w1 : World S)
      → ◌≡◌ {A = Result AgentError ℤ × World S} (ok a, w) (ok b, w1)
      → (a ≡ b) × (w1.held ≡ w.held)
  read-held a b w w1 h =
      (ok-injective (ap (λ p. p.0) h), sym (ap (λ (p : Result AgentError ℤ × World S). p.1.held) h))

  time_or_now-time :
      (e : Event) (w w1 : World S) (time : ℤ)
      → time_or_now m e.occurred_at w ≡ (ok time, w1)
      → (time_of m e w ≡ time) × (w1.held ≡ w.held)
  time_or_now-time e w w1 time h = elim (Bool-cases (is_zero_time e.occurred_at)) [
    | inl zero ↦ rw zero (read-held (m.clock w.ticks) time (tick w) w1 (rw zero at h))
    | inr set ↦ rw set (read-held e.occurred_at time w w1 (rw set at h))
  ]

  persist_event-Kept :
      (thread : Thread) (current : Option Turn) (e : Event) (later : Option Turn) (w w2 : World S)
      → persist_event m thread current e w ≡ (ok later, w2)
      → Kept m thread current e (time_of m e w) later e.kind w.held w2.held
  unfolding persist_event
  persist_event-Kept thread current e later w w2 h =
      let (time, w1, read, kept) = after-ok (time_or_now m e.occurred_at w) _ h in
      let (same, held) = time_or_now-time e w w1 time read in
      rw (same, ← held) (kind-Kept thread current e time later e.kind w1 w2 kept)

  -- the sink took the event, and the store is as before
  handled-Handled :
      (thread : Thread) (e : Event) (w w2 : World S) (u : Unit {0})
      → handled m thread e w ≡ (ok u, w2)
      → Handled m thread e w × (w2.held ≡ w.held)
  handled-Handled thread e w w2 u h = elim (Option-cases m.sink) [
    | inl no_sink ↦ (
      inl no_sink,
      sym (ap (λ (p : Result AgentError (Unit {0}) × World S). p.1.held) (rw no_sink at h)),
    )
    | inr (sink, there) ↦ elim (Option-cases (sink w.ticks thread e)) [
      | inr (x, refused) ↦ absurd (not-err-ok (ap (λ p. p.0) (rw (there, refused) at h)))
      | inl taken ↦ (
        inr (sink, there, taken),
        sym (
            ap (λ (p : Result AgentError (Unit {0}) × World S). p.1.held) (rw (there, taken) at h)),
      )
    ]
  ]

  pub record_event-Logged :
      (thread : Thread) (current : Option Turn) (e : Event) (later : Option Turn) (w w2 : World S)
      → record_event m thread current e w ≡ (ok later, w2)
      → Logged m thread current e w later w2
  unfolding record_event
  record_event-Logged thread current e later w w2 h =
      let (turn, w1, persisted, rest) = after-ok (persist_event m thread current e w) _ h in
      let (u, w3, sent, done) = after-ok (handled m thread e w1) _ rest in
      let (taken, held) = handled-Handled thread e w1 w3 u sent in
      let turn_is = ok-injective (ap (λ p. p.0) done) in
      let end_is = ap (λ (p : Result AgentError (Option Turn) × World S). p.1.held) done in
      (
        w1,
        rw (← turn_is) (persist_event-Kept thread current e turn w w1 persisted),
        taken,
        sym end_is ∙ held,
      )
