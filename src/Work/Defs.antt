-- ===== src/Work/Defs.antt =====
-- packages/scheduler/work_adapter.go: `NextWork`.
use dev_plane.Prelude.{
  Bool, true, false, none, List, [], ◌∷◌, ◌++◌, length, Result, ok, err, ◌>>=◌, ◌>>◌, fail_if,
  is_empty, if◌then◌else◌,
}
use dev_plane.Prelude.Int.{ℤ, pos, leb_ℤ}
use dev_plane.Prelude.Float.{Float, of_int}
use dev_plane.Text.{Text}
use dev_plane.Protocol.{WorkItem, WorkState, validate_item, has_active_lease}
use dev_plane.Protocol
use dev_plane.Scheduler
use dev_plane.Scheduler.{
  next, Task, Manifest, State, Status, Decision, pending, running, success, failed, skipped,
  set_status,
}

pub record WorkScheduleOptions : Type 0 where
  pub max_parallel_cost : ℤ
  pub now : ℤ

pub data WorkError : Type 0 where
  no_items cost_not_positive no_time : WorkError
  invalid_item : Text → Protocol.Error → WorkError
  draft_item : Text → WorkError
  unsupported_state : WorkItem → WorkError
  not_scheduled : Scheduler.Error → WorkError

-- `IsZero` of a time: the time 0
abbrev pub is_zero_time : ℤ → Bool
is_zero_time t = if leb_ℤ t (pos 0) then leb_ℤ (pos 0) t else false

abbrev pub is_draft : WorkState → Bool
is_draft WorkState.draft = true
is_draft _ = false

-- the status that an item has for the scheduler
unfoldable pub item_status : WorkItem → ℤ → Result WorkError Status
item_status w now = elim w.state [
  | WorkState.ready ↦ ok pending
  | WorkState.claimed ↦ ok (if has_active_lease w now then running else pending)
  | WorkState.implementing ↦ ok running
  | WorkState.verifying ↦ ok running
  | WorkState.reviewing ↦ ok running
  | WorkState.ready_to_land ↦ ok running
  | WorkState.landed ↦ ok success
  | WorkState.failed ↦ ok failed
  | WorkState.cancelled ↦ ok skipped
  | _ ↦ err (unsupported_state w)
]

-- `fmt.Errorf("work item %s: %w", item.ID, err)`
abbrev pub checked_item : WorkItem → Result WorkError (Unit {0})
checked_item w = elim (validate_item w) [ ok u ↦ ok tt | err e ↦ err (invalid_item w.id e) ]

-- an error of `Next`, which `NextWork` returns as it is
abbrev pub scheduled : Result Scheduler.Error Decision → Result WorkError Decision
scheduled (ok d) = ok d
scheduled (err e) = err (not_scheduled e)

module _ {F : Type 0} ⦃fl : Float F⦄ where
  unfoldable pub work_task : WorkItem → Task F
  work_task w = record {
    id = w.id;
    owns = w.ownership_paths;
    depends_on = w.depends_on;
    resources = record { cpu = of_int w.cost; memory_mb = pos 1 };
  }

  -- the loop over the items, with the tasks and the states so far
  unfoldable pub collect :
      ℤ → List WorkItem → List (Task F) → State → Result WorkError (List (Task F) × State)
  unfolding work_task
  collect now [] tasks state = ok (tasks, state)
  collect now (w ∷ ws) tasks state =
      checked_item w
      >> (fail_if (is_draft w.state) (draft_item w.id)
          >> (item_status w now >>= λ s.
              collect now ws (tasks ++ work_task w ∷ []) (set_status state w.id s)))

  unfoldable pub work_manifest : List WorkItem → ℤ → List (Task F) → Manifest F
  work_manifest items cost tasks = record {
    max_parallel = pos (length items);
    capacity = record { cpu = of_int cost; memory_mb = pos (length items) };
    tasks = tasks;
  }

-- The numbers of the manifest are made and compared inside: their type is an argument.
unfoldable pub next_work :
    (F : Type 0) ⦃fl : Float F⦄ → List WorkItem → WorkScheduleOptions → Result WorkError Decision
unfolding work_manifest
next_work F items o =
    fail_if (is_empty items) no_items
    >> (fail_if (leb_ℤ o.max_parallel_cost (pos 0)) cost_not_positive
        >> (fail_if (is_zero_time o.now) no_time
            >> (collect {F = F} o.now items [] (λ k. none) >>= λ c.
                scheduled (next (work_manifest items o.max_parallel_cost c.0) c.1))))
