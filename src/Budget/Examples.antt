-- ===== src/Budget/Examples.antt =====
-- A budget of a project, a run, and the theorems at these inputs.
use dev_plane.Prelude.{ℕ, ◌≡◌, ◌↔◌, ◌⊎◌, true, false, refl, none, some, ok, []}
use dev_plane.Prelude.Int.{ℤ, pos, ltb_ℤ}
use dev_plane.Prelude.Float.{ℕ_float}
use dev_plane.Text.{codes}
use dev_plane.Budget.Defs.{
  Budget, RunState, Store, CheckResult, is_unlimited, check_run, check_run_start, check_limit,
  check_counters, check_concurrent, give_reason, check_cost, check_daily, check_admitted,
}
use dev_plane.Budget.Limits.{within, affordable, check_run-allows, check_run_start-counted}

abbrev budget : Budget ℕ
budget = record {
  organization_id = codes "o";
  project_id = some (codes "p");
  type = codes "project";
  period = codes "daily";
  max_cost = some 10;
  max_runtime_minutes = pos 30;
  max_model_calls = pos 0;
  max_tool_calls = pos 5;
  max_shell_commands = pos 0;
  max_concurrent_agents = pos 2;
  max_daily_spend = none;
}

abbrev run : RunState ℕ
run = record {
  cost_so_far = 4;
  duration_minutes = pos 12;
  model_calls = pos 3;
  tool_calls = pos 5;
  shell_commands = pos 1;
  files_changed = pos 0;
  diff_size_kb = pos 0;
}

abbrev store : Store ℕ
store = record {
  get_daily_spend = λ org. ok 0;
  get_concurrent_runs = λ project. ok (pos 1);
  get_concurrent_admission_runs = λ project. ok (pos 2);
}

check_run-allows_example : ((check_run none (some budget) (some run)).allowed ≡ true) ↔ (
    (is_unlimited budget ≡ true)
    ⊎ ((affordable budget.max_cost run.cost_so_far ≡ true)
        × (within budget.max_runtime_minutes run.duration_minutes ≡ true)
        × (within budget.max_model_calls run.model_calls ≡ true)
        × (within budget.max_tool_calls run.tool_calls ≡ true)
        × (within budget.max_shell_commands run.shell_commands ≡ true)))
check_run-allows_example = check_run-allows budget run

abbrev passed : CheckResult ℕ
passed = record { allowed = true; reason = []; remaining = 6; violations = [] }

check_run_start-counted_example :
    (n : ℤ) × (store.get_concurrent_admission_runs (codes "p") ≡ ok n)
    × (ltb_ℤ budget.max_concurrent_agents n ≡ false)
unfolding check_run_start check_run is_unlimited check_limit check_counters check_concurrent
    give_reason check_cost check_daily check_admitted
check_run_start-counted_example =
    check_run_start-counted store budget (some run) passed (codes "p") refl refl refl refl refl
