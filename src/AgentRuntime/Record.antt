-- ===== src/AgentRuntime/Record.antt =====
-- packages/agent-runtime/manager.go: what is recorded of a turn, and which events are passed on.
use dev_plane.Prelude.{
  Bool, ◌&&◌, not, Option, none, some, List, [], ◌∷◌, ok, err, ◌then◌, pure, fail_if, if◌then◌else◌,
}
use dev_plane.Prelude.Int.{ℤ, pos}
use dev_plane.Text.{text_eq}
use dev_plane.AgentRuntime.Protocol.{
  Thread, Turn, Item, TurnStatus, Event, EventType, blank, can_transition_turn_status,
  terminal_turn_status, turn_started, turn_status, item_started, item_completed, item_failed,
  turn_completed, turn_failed, thread_created, other,
}
use dev_plane.AgentRuntime.World.{
  World, Step, AgentError, write, tick, turn_unstored, item_unstored, turn_id_missing, item_missing,
  bad_transition, sink_failed,
}
use dev_plane.AgentRuntime.Manager.{
  Manager, is_zero_time, first_value, is_unset, status_eq, time_or_now,
}

-- the turn that an event starts
abbrev pub started_turn : Thread → Event → ℤ → Turn
started_turn thread e time = record {
  id = e.turn_id;
  thread_id = thread.id;
  provider_turn_id = first_value (e.provider_turn_id ∷ e.turn_id ∷ []);
  status = if is_unset e.status then TurnStatus.running else e.status;
  metadata = [];
  started_at = some time;
  completed_at = none;
  created_at = time;
  updated_at = time;
}

-- the turn of a status event: the current one where the ids agree
abbrev pub turn_of : Thread → Option Turn → Event → ℤ → Turn
turn_of thread current e time =
    let fresh = record (started_turn thread e time) {
      status = TurnStatus.other [];
      started_at = none;
      updated_at = pos 0;
    } in
    elim current [ none ↦ fresh | some t ↦ if text_eq t.id e.turn_id then t else fresh ]

abbrev pub with_status : Turn → Event → ℤ → Turn
with_status t e time =
    let status = if is_unset e.status then t.status else e.status in
    record t {
      status = status;
      updated_at = time;
      completed_at = if terminal_turn_status status then some time else t.completed_at;
    }

abbrev pub owned_item : Thread → Event → Item → ℤ → Item
owned_item thread e i time = record i {
  thread_id = thread.id;
  turn_id = e.turn_id;
  created_at = if is_zero_time i.created_at then time else i.created_at;
  updated_at = time;
}

module _ {S : Type 0} (m : Manager S) where
  -- the change of the current turn's status by the event of an item
  unfoldable pub advance_turn : Option Turn → Event → ℤ → Step S (Option Turn)
  unfolding status_eq can_transition_turn_status
  advance_turn none e time = pure (ok none)
  advance_turn (some t) e time =
      let moved = record t { status = e.status; updated_at = time } in
      if not (is_unset e.status) && not (status_eq e.status t.status)
      then (pure (
            fail_if (not (can_transition_turn_status t.status e.status))
              (bad_transition t.status e.status))
          then λ u.
              write turn_unstored (λ s. m.store.put_turn s moved) then λ v. pure (ok (some moved)))
      else pure (ok (some t))

  unfoldable pub start_turn : Thread → Event → ℤ → Step S (Option Turn)
  unfolding first_value
  start_turn thread e time = pure (fail_if (blank e.turn_id) (turn_id_missing e)) then λ u.
      write turn_unstored (λ s. m.store.put_turn s (started_turn thread e time)) then λ v.
      pure (ok (some (started_turn thread e time)))

  unfoldable pub record_item : Thread → Option Turn → Event → ℤ → Step S (Option Turn)
  unfolding advance_turn
  record_item thread current e time = elim e.item [
    | none ↦ pure (err (item_missing e))
    | some i ↦ write item_unstored (λ s. m.store.put_item s (owned_item thread e i time)) then λ u.
        advance_turn current e time
  ]

  unfoldable pub record_status : Thread → Option Turn → Event → ℤ → Step S (Option Turn)
  unfolding first_value text_eq
  record_status thread current e time =
      pure (fail_if (blank e.turn_id) (turn_id_missing e)) then λ u.
      write turn_unstored
        (λ s. m.store.put_turn s (with_status (turn_of thread current e time) e time))
      then λ v. pure (ok (some (with_status (turn_of thread current e time) e time)))

  -- the `switch` of `persistEvent` on the type of the event
  unfoldable pub persist_kind : EventType → Thread → Option Turn → Event → ℤ → Step S (Option Turn)
  unfolding start_turn record_item record_status
  persist_kind turn_started thread current e time = start_turn thread e time
  persist_kind item_started thread current e time = record_item thread current e time
  persist_kind item_completed thread current e time = record_item thread current e time
  persist_kind item_failed thread current e time = record_item thread current e time
  persist_kind turn_status thread current e time = record_status thread current e time
  persist_kind turn_completed thread current e time = record_status thread current e time
  persist_kind turn_failed thread current e time = record_status thread current e time
  persist_kind thread_created thread current e time = pure (ok current)
  persist_kind (other t) thread current e time = pure (ok current)

  -- `persistEvent`
  unfoldable pub persist_event : Thread → Option Turn → Event → Step S (Option Turn)
  unfolding persist_kind
  persist_event thread current e =
      time_or_now m e.occurred_at then λ time. persist_kind e.kind thread current e time

  -- `HandleEvent` of the sink, if there is one
  abbrev pub handled : Thread → Event → Step S (Unit {0})
  handled thread e w = elim m.sink [
    | none ↦ (ok tt, w)
    | some sink ↦
        (elim (sink w.ticks thread e) [ none ↦ ok tt | some x ↦ err (sink_failed x) ], tick w)
  ]

  unfoldable pub record_event : Thread → Option Turn → Event → Step S (Option Turn)
  unfolding persist_event
  record_event thread current e =
      persist_event thread current e then λ turn. handled thread e then λ u. pure (ok turn)

  -- The loop of `recordRun`: the events that are passed on, and the error. The events end where the
  -- provider closes its channel or the context is done in front of the next one; with each event
  -- comes whether the context is done when it is to be passed on.
  unfoldable pub record_run :
      Thread
      → List (Event × Bool)
      → Option Turn
      → World S
      → (List Event × Option AgentError) × World S
  unfolding record_event
  record_run thread [] current w = (([], none), w)
  record_run thread ((e, gone) ∷ rest) current w =
      let event = record e { thread_id = thread.id } in
      let (result, w') = record_event thread current event w in
      elim result [
        | err x ↦ (([], some x), w')
        | ok turn ↦
            let later = record_run thread rest turn w' in
            if gone then (([], none), w') else ((event ∷ later.0.0, later.0.1), later.1)
      ]
