-- ===== src/AgentRuntime/Manager.antt =====
-- packages/agent-runtime/manager.go: `CreateThread`, `ResumeThread` and `RunTurn`.
use dev_plane.Prelude.{
  ◌==◌, ℕ, Bool, false, ◌&&◌, Option, none, some, List, [], ◌∷◌, Result, ok, err, ◌then◌, pure,
  is_empty, if◌then◌else◌,
}
use dev_plane.Prelude.Int.{ℤ, pos, leb_ℤ}
use dev_plane.Text.{Text, text_eq}
use dev_plane.AgentRuntime.Capabilities.{resume_thread}
use dev_plane.AgentRuntime.Protocol.{
  Thread, TurnStatus, Event, CreateThreadRequest, ResumeThreadRequest, RunTurnRequest, blank,
  validate_thread,
}
use dev_plane.AgentRuntime.Registry.{Registry, Provider, get_provider}
use dev_plane.AgentRuntime.World.{
  Store, Step, AgentError, read, write, now, calling, unregistered, nil_thread, invalid,
  thread_unstored, thread_unread, unsupported,
}

-- `sink` is the event sink, which may be missing; `clock` gives the time at each reading.
pub record Manager (S : Type 0) : Type 0 where
  pub registry : Registry
  pub store : Store S
  pub sink : Option (ℕ → Thread → Event → Option Text)
  pub clock : ℕ → ℤ
  pub to_lower : Text → Text

unfoldable pub new_manager :
    {S : Type 0}
    → Option Registry
    → Option (Store S)
    → (ℕ → ℤ)
    → (Text → Text)
    → Result AgentError (Manager S)
new_manager none store clock to_lower = err AgentError.nil_registry
new_manager (some r) none clock to_lower = err AgentError.nil_store
new_manager (some r) (some st) clock to_lower =
    ok (record { registry = r; store = st; sink = none; clock = clock; to_lower = to_lower })

unfoldable pub with_event_sink :
    {S : Type 0} → Manager S → Option (ℕ → Thread → Event → Option Text) → Manager S
with_event_sink m sink = record m { sink = sink }

-- `IsZero` of a time
abbrev pub is_zero_time : ℤ → Bool
is_zero_time t = leb_ℤ t (pos 0) && leb_ℤ (pos 0) t

-- `firstValue`: the first value that is not blank
unfoldable pub first_value : List Text → Text
first_value [] = []
first_value (v ∷ vs) = if blank v then first_value vs else v

abbrev pub is_unset : TurnStatus → Bool
is_unset (TurnStatus.other t) = is_empty t
is_unset _ = false

abbrev pub status_code : TurnStatus → ℕ
status_code TurnStatus.queued = 0
status_code TurnStatus.running = 1
status_code TurnStatus.paused_approval = 2
status_code TurnStatus.paused_input = 3
status_code TurnStatus.interrupted = 4
status_code TurnStatus.recovering = 5
status_code TurnStatus.completed = 6
status_code TurnStatus.failed = 7
status_code (TurnStatus.other t) = 8

unfoldable pub status_eq : TurnStatus → TurnStatus → Bool
status_eq (TurnStatus.other s) (TurnStatus.other t) = text_eq s t
status_eq a b = status_code a == status_code b

-- the defaults of a new thread
abbrev pub with_defaults : Thread → Text → ℤ → Thread
with_defaults t name time =
    let provider = if blank t.provider then name else t.provider in
    let created = if is_zero_time t.created_at then time else t.created_at in
    let updated = if is_zero_time t.updated_at then created else t.updated_at in
    record t { provider = provider; created_at = created; updated_at = updated }

-- the thread that was stored, where the resumed one says nothing
abbrev pub with_stored : Thread → Thread → Thread
with_stored t stored = record t {
  id = stored.id;
  workspace_id = first_value (t.workspace_id ∷ stored.workspace_id ∷ []);
  provider = first_value (t.provider ∷ stored.provider ∷ []);
  provider_thread_id = first_value (t.provider_thread_id ∷ stored.provider_thread_id ∷ []);
  model = first_value (t.model ∷ stored.model ∷ []);
  created_at = if is_zero_time t.created_at then stored.created_at else t.created_at;
}

abbrev pub resume_request : Thread → ResumeThreadRequest
resume_request t = record {
  thread_id = t.id;
  provider_thread_id = t.provider_thread_id;
  workspace_id = t.workspace_id;
  model = t.model;
}

module _ {S : Type 0} where
  abbrev pub registered : Manager S → Text → Step S Provider
  registered m name = pure (elim (get_provider m.to_lower (some m.registry) name) [
    | ok p ↦ ok p
    | err e ↦ err (unregistered e)
  ])

  abbrev pub validated : Thread → Step S (Unit {0})
  validated t = pure (elim (validate_thread t) [ ok u ↦ ok tt | err e ↦ err (invalid e) ])

  abbrev pub not_nil : Option Thread → Step S Thread
  not_nil t = pure (elim t [ some x ↦ ok x | none ↦ err nil_thread ])

  unfoldable pub create_thread : Manager S → Text → CreateThreadRequest → Step S Thread
  unfolding get_provider validate_thread
  create_thread m name req = registered m name then λ p.
      calling (λ n. p.create_thread n req) then λ made. not_nil made then λ raw.
      now m.clock then λ time. validated (with_defaults raw p.name time) then λ u.
      write thread_unstored (λ s. m.store.put_thread s (with_defaults raw p.name time)) then λ v.
      pure (ok (with_defaults raw p.name time))

  -- a time, or the clock where it is zero
  abbrev pub time_or_now : Manager S → ℤ → Step S ℤ
  time_or_now m t = if is_zero_time t then now m.clock else pure (ok t)

  abbrev pub resumed_by : Provider → ResumeThreadRequest → Step S (Option Thread)
  resumed_by p req = elim p.resume [
    | none ↦ pure (err (unsupported p.name resume_thread))
    | some resume ↦ calling (λ n. resume n req)
  ]

  unfoldable pub resume_stored : Manager S → Text → Step S Thread
  unfolding get_provider validate_thread first_value
  resume_stored m id = read thread_unread (λ s. m.store.get_thread s id) then λ stored.
      registered m stored.provider then λ p. resumed_by p (resume_request stored) then λ found.
      not_nil found then λ raw. time_or_now m (with_stored raw stored).created_at then λ created.
      time_or_now m raw.updated_at then λ updated.
      validated (record (with_stored raw stored) { created_at = created; updated_at = updated })
      then λ u.
          write thread_unstored (λ s.
            m.store.put_thread s
              (record (with_stored raw stored) { created_at = created; updated_at = updated }))
          then λ v.
              pure (
                ok (record (with_stored raw stored) { created_at = created; updated_at = updated }))

  -- `RunTurn` up to the start of the recording: the thread, and the events of the provider
  unfoldable pub run_turn : Manager S → RunTurnRequest → Step S (Thread × List Event)
  unfolding get_provider
  run_turn m req = read thread_unread (λ s. m.store.get_thread s req.thread_id) then λ thread.
      registered m thread.provider then λ p.
      calling (λ n. p.run_turn n (
        if blank req.provider_thread_id
        then record req { provider_thread_id = thread.provider_thread_id }
        else req))
      then λ events. pure (ok (thread, events))
