-- ===== src/AgentRuntime/Kept.antt =====
-- packages/agent-runtime/manager.go: what the store and the sink have of an event that was recorded.
use dev_plane.Prelude.{ℕ, true, ◌||◌, ◌≡◌, ◌⊎◌, Option, none, some, ◌then◌, if◌then◌else◌}
use dev_plane.Prelude.Int.{ℤ}
use dev_plane.Text.{Text}
use dev_plane.AgentRuntime.Protocol.{
  Thread, Turn, Item, Event, EventType, can_transition_turn_status, turn_started, turn_status,
  item_started, item_completed, item_failed, turn_completed, turn_failed, thread_created, other,
}
use dev_plane.AgentRuntime.World.{World}
use dev_plane.AgentRuntime.Manager.{Manager, is_zero_time, is_unset, status_eq}
use dev_plane.AgentRuntime.Record.{started_turn, turn_of, with_status, owned_item}

module _ {S : Type 0} (m : Manager S) where
  -- the time of an event, or that of the clock
  abbrev pub time_of : Event → World S → ℤ
  time_of e w = if is_zero_time e.occurred_at then m.clock w.ticks else e.occurred_at

  -- the sink, if there is one, takes the event
  abbrev pub Handled : Thread → Event → World S → Type 0
  Handled thread e w =
      (m.sink ≡ none)
      ⊎ ((sink : ℕ → Thread → Event → Option Text) × (m.sink ≡ some sink)
          × (sink w.ticks thread e ≡ none))

  module _ (thread : Thread) (current : Option Turn) (e : Event) (time : ℤ)
      (later : Option Turn) where
    -- the turn was put without an error, and is the current one from now on
    abbrev pub TurnPut : Turn → S → S → Type 0
    TurnPut t s s' = (m.store.put_turn s t ≡ (none, s')) × (later ≡ some t)

    -- The current turn stays as it is, or gets the status of the event, to which it may change.
    abbrev pub Moved : Option Turn → S → S → Type 0
    Moved none s s' = (later ≡ none) × (s' ≡ s)
    Moved (some t) s s' =
        (((is_unset e.status || status_eq e.status t.status) ≡ true) × (later ≡ some t) × (s' ≡ s))
        ⊎ ((can_transition_turn_status t.status e.status ≡ true)
            × TurnPut (record t { status = e.status; updated_at = time }) s s')

    -- the item was put without an error, and then the turn is moved
    abbrev pub ItemPut : S → S → Type 0
    ItemPut s s' =
        (i : Item) × (e.item ≡ some i)
        × ((between : S) × (m.store.put_item s (owned_item thread e i time) ≡ (none, between))
            × Moved current between s')

    -- the status was put without an error
    abbrev pub StatusPut : S → S → Type 0
    StatusPut s s' = TurnPut (with_status (turn_of thread current e time) e time) s s'

    -- what the store has of an event, by its type
    abbrev pub Kept : EventType → S → S → Type 0
    Kept turn_started s s' = TurnPut (started_turn thread e time) s s'
    Kept item_started s s' = ItemPut s s'
    Kept item_completed s s' = ItemPut s s'
    Kept item_failed s s' = ItemPut s s'
    Kept turn_status s s' = StatusPut s s'
    Kept turn_completed s s' = StatusPut s s'
    Kept turn_failed s s' = StatusPut s s'
    Kept thread_created s s' = (later ≡ current) × (s' ≡ s)
    Kept (other t) s s' = (later ≡ current) × (s' ≡ s)

  -- What is left of an event that was recorded: the store has it, and after that the sink took it, and
  -- the store is still the same.
  abbrev pub Logged : Thread → Option Turn → Event → World S → Option Turn → World S → Type 0
  Logged thread current e w later w2 =
      (mid : World S) × Kept thread current e (time_of e w) later e.kind w.held mid.held
      × Handled thread e mid
      × (w2.held ≡ mid.held)
