-- ===== src/Scheduler/Select.antt =====
-- packages/scheduler/scheduler.go: `Next` and `PlanWaves`.
use dev_plane.Prelude.{
  ℕ, zero, suc, ◌+◌, ◌-◌, Bool, ◌||◌, ◌&&◌, not, none, List, [], ◌∷◌, ◌++◌, Result, ok, err, ◌>>=◌,
  ◌>>◌, if◌then◌else◌, is_empty, length, ◌==◌,
}
use dev_plane.Prelude.Int.{pos, leb_ℤ, ltb_ℤ, add64}
use dev_plane.Prelude.Float.{Float, fzero, fadd, flt}
use dev_plane.Text.{Text, mem_text}
use dev_plane.Scheduler.Defs.{
  Resources, Task, Manifest, Status, State, Decision, is_running, is_pending, status_of, set_status,
  dependency_failed, dependencies_succeeded, conflicts_any, pending, success, skipped,
}
use dev_plane.Scheduler.Graph.{Error, deadlocked, out_of_fuel, validate}

-- What the second loop of `Next` does with a task: `continue`, `break`, or select it.
pub data Verdict : Type 0 where
  pass stop take : Verdict

-- the variables of `Next`
pub record Selection (F : Type 0) : Type 0 where
  pub ready : List Text
  pub selected : List (Task F)
  pub used : Resources F

unfoldable pub mark : State → Status → List Text → State
mark state status [] = state
mark state status (id ∷ ids) = mark (set_status state id status) status ids

module _ {F : Type 0} where
  -- the tasks whose raw status is "running", in the order of the manifest
  unfoldable pub running_tasks : State → List (Task F) → List (Task F)
  running_tasks state [] = []
  running_tasks state (t ∷ ts) =
      let rest = running_tasks state ts in if is_running state t.id then t ∷ rest else rest

  -- The keys of `Skipped`: pending tasks with a failed or skipped dependency. A key that is there
  -- already is written again.
  unfoldable pub skip_tasks : State → List (Task F) → List Text → List Text
  skip_tasks state [] skips = skips
  skip_tasks state (t ∷ ts) skips = skip_tasks state ts (
      if is_pending (status_of state t.id) && dependency_failed t state && not (mem_text t.id skips)
      then t.id ∷ skips
      else skips)

  unfoldable pub all_pending : List (Task F) → State → State
  all_pending [] state = state
  all_pending (t ∷ ts) state = all_pending ts (set_status state t.id pending)

module _ {F : Type 0} ⦃fl : Float F⦄ where
  unfoldable pub add_resources : Resources F → Resources F → Resources F
  add_resources a b = record { cpu = fadd a.cpu b.cpu; memory_mb = add64 a.memory_mb b.memory_mb }

  unfoldable pub total_resources : Resources F → List (Task F) → Resources F
  unfolding add_resources
  total_resources used [] = used
  total_resources used (t ∷ ts) = total_resources (add_resources used t.resources) ts

  unfoldable pub no_resources : Resources F
  no_resources = record { cpu = fzero; memory_mb = pos 0 }

  abbrev pub exceeds : Resources F → Resources F → Bool
  exceeds used capacity = flt capacity.cpu used.cpu || ltb_ℤ capacity.memory_mb used.memory_mb

  -- The tests of the second loop, in their order.
  unfoldable pub consider : Manifest F → State → List Text → ℕ → Selection F → Task F → Verdict
  unfolding add_resources
  consider m state skips running_count s t =
      if not (is_pending (status_of state t.id))
      then pass
      else if mem_text t.id skips
      then pass
      else if not (dependencies_succeeded t state)
      then pass
      else if leb_ℤ m.max_parallel (pos (running_count + length s.ready))
      then stop
      else if exceeds (add_resources s.used t.resources) m.capacity
      then pass
      else if conflicts_any t s.selected
      then pass
      else take

  unfoldable pub take_task : Selection F → Task F → Selection F
  unfolding add_resources
  take_task s t = record {
    ready = s.ready ++ t.id ∷ [];
    selected = s.selected ++ t ∷ [];
    used = add_resources s.used t.resources;
  }

  unfoldable pub select :
      Manifest F → State → List Text → ℕ → List (Task F) → Selection F → Selection F
  unfolding consider take_task
  select m state skips running_count [] s = s
  select m state skips running_count (t ∷ ts) s = elim (consider m state skips running_count s t) [
    | pass ↦ select m state skips running_count ts s
    | stop ↦ s
    | take ↦ select m state skips running_count ts (take_task s t)
  ]

  -- the selection before the second loop: the running tasks
  unfoldable pub start_selection : Manifest F → State → Selection F
  unfolding running_tasks total_resources no_resources
  start_selection m state =
      let running = running_tasks state m.tasks in
      record { ready = []; selected = running; used = total_resources no_resources running }

  -- `Next` after validation, with its local variables
  unfoldable pub selection : Manifest F → State → Selection F
  unfolding select skip_tasks start_selection
  selection m state =
      select m state (skip_tasks state m.tasks []) (length (running_tasks state m.tasks)) m.tasks
        (start_selection m state)

  unfoldable pub decide_next : Manifest F → State → Decision
  unfolding selection skip_tasks
  decide_next m state = record {
    ready = (selection m state).ready;
    skipped = skip_tasks state m.tasks [];
  }

  unfoldable pub next : Manifest F → State → Result Error Decision
  next m state = validate m >> ok (decide_next m state)

  -- The loop of `PlanWaves`, on fuel. Each id in `Skipped` and in `Ready` takes one off `remaining`;
  -- the ids are distinct pending tasks, so `remaining` does not fall below 0.
  unfoldable pub plan_loop : Manifest F → ℕ → State → ℕ → Result Error (List (List Text))
  unfolding mark
  plan_loop m zero state remaining = err out_of_fuel
  plan_loop m (suc fuel) state remaining =
      let round = next m state >>= λ d.
      let state' = mark state skipped d.skipped in
      let left = remaining - length d.skipped in
      let more = plan_loop m fuel (mark state' success d.ready) (left - length d.ready) >>= λ waves.
      ok (d.ready ∷ waves) in
      if is_empty d.ready then (if left == 0 then ok [] else err deadlocked) else more in
      if remaining == 0 then ok [] else round

  unfoldable pub plan_waves : Manifest F → Result Error (List (List Text))
  unfolding plan_loop all_pending
  plan_waves m =
      validate m
      >> plan_loop m (length m.tasks + 1) (all_pending m.tasks (λ k. none)) (length m.tasks)
