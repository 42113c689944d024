-- ===== src/Readiness/Examples.antt =====
-- A task with a critical risk, and the theorems at this input.
use mathlib.Core.List.{Memᴰ}
use dev_plane.Prelude.{
  none, some, ok, err, if◌then◌else◌, any, false, ◌||◌, ◌&&◌, true, not, ◌≡◌, ◌↔◌, refl, List, [],
  ◌∷◌, ◌++◌, is_empty,
}
use dev_plane.Text.{
  Text, codes, text_eq, trim_space, mem_text, clean, has_prefix, has_suffix, elements,
}
use dev_plane.Readiness.Defs.{
  Report, ready, TaskAssessmentInput, attention, is_blocked, non_empty, unique_sorted,
  task_spec_check, task_plan_check, task_scope_check, task_acceptance_check,
  task_verification_check, task_risk_check, summarize, assess_task,
}
use dev_plane.Readiness.Admission.{assess_task-blocked}
use dev_plane.Readiness.Files.{
  Entries, file, entry, no_entries, Repository, Inventory, walk_entries, path_base, has_file,
  contains_text, make_targets, targets_of, line_targets, contains_command, path_dir,
}
use dev_plane.Readiness.Inspect.{
  inspect, match_base, dependency_check, verification_check, verification_commands,
  all_make_commands, all_script_commands, make_commands, script_commands, script_prefix,
  environment_check, workspace_toolchain, ci_check, ci_files, is_ci_file, ownership_check,
  documentation_check, agent_guidance_check,
}
use dev_plane.Readiness.Report.{inspect-blocked, lacks_node_lock}
use dev_plane.Readiness.Mention.{Mentions}

abbrev same : List Text → List Text
same vs = vs

abbrev lower : Text → Text
lower t = t

abbrev input : TaskAssessmentInput
input = record {
  has_spec = true;
  implementation_plan = codes " step " ∷ [];
  files_to_change = codes "a.go" ∷ codes "a.go" ∷ [];
  files_to_create = [];
  acceptance_criteria = codes "builds" ∷ [];
  test_plan = [];
  risk_level = codes "critical";
  rollback_plan = [];
  required_approvals = codes "owner" ∷ [];
  test_command = codes "go test";
  lint_command = [];
  typecheck_command = [];
  build_command = [];
}

input_attention : (assess_task lower same input).status ≡ attention
unfolding assess_task summarize task_spec_check task_plan_check task_scope_check
    task_acceptance_check task_verification_check task_risk_check non_empty unique_sorted text_eq
    mem_text trim_space
input_attention = refl

assess_task-blocked_example : is_blocked (assess_task lower same input).status ≡ (
    not true
    || is_empty (non_empty (codes "builds" ∷ []))
    || (is_empty (trim_space []) && is_empty (trim_space (codes "go test")))
    || (text_eq (trim_space (codes "critical")) (codes "critical")
        && is_empty (non_empty (codes "owner" ∷ []))))
assess_task-blocked_example = assess_task-blocked lower same input

abbrev two : Entries
two = entry (file (codes "Makefile")) (entry (file (codes "go.mod")) no_entries)

abbrev makefile : Text
makefile = codes "test: build" ++ (b'\n' ∷ 9 ∷ codes "go: test")

abbrev repository : Repository
repository = record {
  entries = two;
  read_file = λ name. if text_eq name (codes "Makefile") then some makefile else none;
  scripts = λ content. none;
}

program : Unit {0}
unfolding inspect walk_entries path_base match_base unique_sorted dependency_check
    verification_check verification_commands all_make_commands all_script_commands make_commands
    script_commands script_prefix path_dir make_targets targets_of line_targets contains_command
    contains_text any environment_check workspace_toolchain has_file ci_check ci_files is_ci_file
    ownership_check documentation_check agent_guidance_check summarize text_eq mem_text trim_space
    clean has_prefix has_suffix elements
program = tt

abbrev report : Report
report = elim (inspect same repository) [
  | ok r ↦ r
  | err e ↦ record { status = ready; checks = [] }
]

inspected : inspect same repository ≡ ok report
unfolding program
inspected = refl

not_blocked : is_blocked report.status ≡ false
unfolding program
not_blocked = refl

inspect-blocked_example :
    (inv : Inventory) × (walk_entries [] repository.entries ≡ ok inv)
    × ((is_blocked report.status ≡ false) ↔ (
        (lacks_node_lock inv ≡ false)
        × ((c : Text) × Memᴰ c (verification_commands same repository inv)
            × Mentions (codes "test") c)))
inspect-blocked_example = inspect-blocked same (λ xs. refl) repository report inspected

-- A folder named "my tests" makes up for a missing test command.
abbrev misleading : Repository
misleading = record {
  entries =
      entry (file (codes "my tests/package.json")) (entry (file (codes "yarn.lock")) no_entries);
  read_file = λ name. some (codes "{}");
  scripts = λ content. some (λ s. if text_eq s (codes "lint") then codes "eslint" else []);
}

misled : (elim (inspect same misleading) [ ok r ↦ is_blocked r.status | err e ↦ true ]) ≡ false
unfolding program
misled = refl
