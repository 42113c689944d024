-- ===== src/Scheduler/Examples.antt =====
-- Small manifests, what the scheduler does on them, and the theorems at these inputs.
use dev_plane.Prelude.{
  ℕ, ◌≢◌, none, Result, arith, if◌then◌else◌, ◌≡◌, refl, List, [], ◌∷◌, ok, err, any, all,
}
use dev_plane.Prelude.Int.{pos, add64}
use dev_plane.Prelude.Float.{ℕ_float}
use dev_plane.Text.{
  Text, codes, text_eq, mem_text, trim_space, has_prefix, trim_prefix, trim_suffix, to_slashes,
  clean, remove_text,
}
use dev_plane.Scheduler.Defs.{
  Task, Manifest, Decision, ownership_conflict, normalize_ownership, overlaps, set_status,
  status_of, is_running, dependency_failed, dependencies_succeeded, conflicts_any,
}
use dev_plane.Scheduler.Graph.{
  Error, Known, Marks, no_marks, out_of_fuel, deadlocked, cycle, validate, depends_of,
}
use dev_plane.Scheduler.Select.{all_pending, next, decide_next, plan_waves}
use dev_plane.Scheduler.Admission.{IsAdmissible, next-IsAdmissible}
use dev_plane.Scheduler.Validation.{
  IsValidated, validate-IsValidated, validate-ne-cycle, validate-ne-out_of_fuel,
}
use dev_plane.Scheduler.Waves.{IsPlan}
use dev_plane.Scheduler.Plan.{plan_waves-IsPlan}

abbrev task : Text → List Text → List Text → Task ℕ
task id owns deps = record {
  id = id;
  owns = owns;
  depends_on = deps;
  resources = record { cpu = 1; memory_mb = pos 10 };
}

abbrev manifest : List (Task ℕ) → Manifest ℕ
manifest tasks = record {
  max_parallel = pos 2;
  capacity = record { cpu = 4; memory_mb = pos 100 };
  tasks = tasks;
}

abbrev api : Task ℕ
api = task (codes "api") (codes "apps/api/**" ∷ []) []

abbrev web : Task ℕ
web = task (codes "web") (codes "./apps/web" ∷ []) (codes "api" ∷ [])

abbrev docs : Task ℕ
docs = task (codes "docs") (codes "docs" ∷ []) []

abbrev handlers : Task ℕ
handlers = task (codes "handlers") (codes "apps/api/internal" ∷ []) []

program : Unit {0}
unfolding plan_waves next decide_next validate text_eq mem_text trim_space normalize_ownership
    overlaps has_prefix trim_prefix trim_suffix to_slashes clean set_status status_of is_running
    dependency_failed dependencies_succeeded conflicts_any any all ownership_conflict depends_of
    remove_text add64
program = tt

plan_builds :
    plan_waves (manifest (web ∷ api ∷ handlers ∷ docs ∷ []))
    ≡ ok ((codes "api" ∷ codes "docs" ∷ []) ∷ (codes "web" ∷ codes "handlers" ∷ []) ∷ [])
unfolding program
plan_builds = refl

plan_cycle :
    plan_waves (
      manifest (
        task (codes "a") (codes "x" ∷ []) (codes "b" ∷ [])
        ∷ task (codes "b") (codes "y" ∷ []) (codes "a" ∷ [])
        ∷ []))
    ≡ err (cycle (codes "a"))
unfolding program
plan_cycle = refl

plan_deadlocks :
    plan_waves (
      manifest (
        task (codes " a") (codes "x" ∷ []) []
        ∷ task (codes "b") (codes "y" ∷ []) (codes "a" ∷ [])
        ∷ []))
    ≡ err deadlocked
unfolding program
plan_deadlocks = refl

abbrev sample : Manifest ℕ
sample = manifest (web ∷ api ∷ handlers ∷ docs ∷ [])

abbrev or_none : Result Error (Known ℕ × Marks) → Known ℕ × Marks
or_none (ok r) = r
or_none (err e) = ([], no_marks)

unfoldable checked : Known ℕ × Marks
unfolding program
checked = or_none (validate sample)

plan_waves-IsPlan_example :
    (waves : List (List Text)) × (plan_waves sample ≡ ok waves) × IsPlan sample [] waves
unfolding program checked
plan_waves-IsPlan_example =
    plan_waves-IsPlan sample checked.0 checked.1 refl (refl, (refl, (refl, (refl, tt))))
      (λ x. omega arith) (omega arith)

abbrev first_round : Decision
first_round = record { ready = codes "api" ∷ codes "docs" ∷ []; skipped = [] }

next-IsAdmissible_example : IsAdmissible sample (all_pending sample.tasks (λ k. none)) first_round
unfolding program
next-IsAdmissible_example =
    next-IsAdmissible sample (all_pending sample.tasks (λ k. none)) first_round refl

abbrev level : Text → ℕ
level id = if text_eq id (codes "web") then 1 else 0

validate-ne-cycle_example : validate sample ≢ err (cycle (codes "web"))
unfolding program
validate-ne-cycle_example =
    validate-ne-cycle sample level (refl, (refl, (refl, (refl, tt))))
      ((omega arith, tt), (tt, (tt, (tt, tt)))) (codes "web")

validate-ne-out_of_fuel_example : validate sample ≢ err out_of_fuel
validate-ne-out_of_fuel_example = validate-ne-out_of_fuel sample

validate-IsValidated_example : IsValidated sample checked.0 checked.1
unfolding program checked
validate-IsValidated_example = validate-IsValidated sample checked.0 checked.1 refl
