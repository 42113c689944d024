-- ===== src/Work/Examples.antt =====
-- packages/scheduler/work_adapter.go: tests, and the theorem at concrete inputs.
use mathlib.Core.List.{Memᴰ}
use dev_plane.Prelude.{ℕ, ◌≡◌, refl, none, some, List, [], ◌∷◌, ok, err, All, any, all}
use dev_plane.Prelude.Int.{pos, add64}
use dev_plane.Prelude.Float.{ℕ_float}
use dev_plane.Text.{
  Text, codes, text_eq, mem_text, trim_space, has_prefix, has_suffix, trim_prefix, trim_suffix,
  to_slashes, clean, remove_text,
}
use dev_plane.Protocol.{
  WorkItem, WorkState, RiskLevel, claim, validate_item, has_active_lease, each, check_path,
  normalize_pattern, normalize_repository_path, check_claimed,
}
use dev_plane.Protocol.Leases.{leased}
use dev_plane.Scheduler.{
  Decision, next, decide_next, validate, normalize_ownership, overlaps, set_status, status_of,
  is_running, dependency_failed, dependencies_succeeded, conflicts_any, ownership_conflict,
  depends_of,
}
use dev_plane.Work.Defs.{
  WorkScheduleOptions, draft_item, item_status, work_task, collect, work_manifest, next_work,
}
use dev_plane.Work.Handoff.{Landed, next_work-claims}

abbrev item : Text → Text → List Text → WorkState → WorkItem
item id path deps state = record {
  id = id;
  repository = codes "r";
  objective = codes "o";
  acceptance_criteria = [];
  parent_id = [];
  discovered_from_id = [];
  depends_on = deps;
  ownership_paths = path ∷ [];
  risk = RiskLevel.low;
  cost = pos 1;
  required_gates = [];
  base_sha = codes "b";
  claimed_by = [];
  lease_until = none;
  state = state;
}

abbrev items : List WorkItem
items =
    item (codes "db") (codes "db") [] WorkState.landed
    ∷ item (codes "api") (codes "api/**") (codes "db" ∷ []) WorkState.ready
    ∷ item (codes "web") (codes "web") (codes "api" ∷ []) WorkState.ready
    ∷ []

abbrev options : WorkScheduleOptions
options = record { max_parallel_cost = pos 2; now = pos 100 }

program : Unit {0}
unfolding next decide_next validate text_eq mem_text trim_space normalize_ownership overlaps
    has_prefix has_suffix trim_prefix trim_suffix to_slashes clean set_status status_of is_running
    dependency_failed dependencies_succeeded conflicts_any any all ownership_conflict depends_of
    remove_text add64 next_work collect work_task work_manifest item_status has_active_lease
    validate_item each check_path normalize_pattern normalize_repository_path check_claimed
program = tt

abbrev first : Decision
first = record { ready = codes "api" ∷ []; skipped = [] }

selects : next_work ℕ items options ≡ ok first
unfolding program
selects = refl

draft_refused :
    next_work ℕ (item (codes "a") (codes "a") [] WorkState.draft ∷ []) options
    ≡ err (draft_item (codes "a"))
unfolding program
draft_refused = refl

next_work-claims_example :
    (w : WorkItem) × Memᴰ w items
    × (w.id ≡ codes "api")
    × All (Landed items) w.depends_on
    × (claim (some w) (codes "ann") (pos 100) (pos 5)
        ≡ ok (leased w (codes "ann") (pos 100) (pos 5)))
unfolding program
next_work-claims_example =
    next_work-claims ℕ items options first (codes "api") (codes "ann") (pos 5) selects refl refl
      refl
