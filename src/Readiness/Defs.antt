-- ===== src/Readiness/Defs.antt =====
-- packages/readiness/task.go: `AssessTask` with its checks; packages/readiness/readiness.go: statuses,
-- checks, reports and `uniqueSorted`. A recommendation is the name of its text.
use dev_plane.Prelude.{
  Bool, true, false, ◌||◌, ◌&&◌, not, List, [], ◌∷◌, ◌++◌, if◌then◌else◌, is_empty,
}
use dev_plane.Text.{Text, codes, text_eq, mem_text, trim_space}

pub data Status : Type 0 where
  ready attention blocked : Status

pub data Advice : Type 0 where
  no_advice write_spec add_plan bound_files define_acceptance define_tests : Advice
  require_approval define_controls : Advice
  declare_dependencies commit_node_lock commit_locks expose_test add_checks : Advice
  pin_environment add_ci add_owners document_setup add_instructions : Advice

pub record Check : Type 0 where
  pub id : Text
  pub title : Text
  pub status : Status
  pub critical : Bool
  pub evidence : List Text
  pub recommendation : Advice

pub record Report : Type 0 where
  pub status : Status
  pub checks : List Check

pub record TaskAssessmentInput : Type 0 where
  pub has_spec : Bool
  pub implementation_plan : List Text
  pub files_to_change : List Text
  pub files_to_create : List Text
  pub acceptance_criteria : List Text
  pub test_plan : Text
  pub risk_level : Text
  pub rollback_plan : Text
  pub required_approvals : List Text
  pub test_command : Text
  pub lint_command : Text
  pub typecheck_command : Text
  pub build_command : Text

abbrev pub is_ready : Status → Bool
is_ready ready = true
is_ready _ = false

abbrev pub is_blocked : Status → Bool
is_blocked blocked = true
is_blocked _ = false

unfoldable pub non_empty : List Text → List Text
non_empty [] = []
non_empty (v ∷ vs) =
    let rest = non_empty vs in if is_empty (trim_space v) then rest else trim_space v ∷ rest

-- the loop of `uniqueSorted`, with the keys of `seen`
unfoldable pub unique_from : List Text → List Text → List Text
unique_from seen [] = []
unique_from seen (v ∷ vs) =
    let skip = unique_from seen vs in
    let keep = unique_from (v ∷ seen) vs in
    if is_empty v then skip else if mem_text v seen then skip else v ∷ keep

-- a check under construction, and what each branch makes of it
abbrev pub verdict : Text → Text → Bool → Status → List Text → Advice → Check
verdict id title critical status evidence recommendation = record {
  id = id;
  title = title;
  status = status;
  critical = critical;
  evidence = evidence;
  recommendation = recommendation;
}

unfoldable pub task_spec_check : TaskAssessmentInput → Check
task_spec_check input =
    let check = verdict (codes "spec") (codes "Task specification") true in
    if not input.has_spec then check blocked [] write_spec else check ready [] no_advice

unfoldable pub task_plan_check : TaskAssessmentInput → Check
task_plan_check input =
    let check = verdict (codes "plan") (codes "Implementation plan") false in
    if is_empty (non_empty input.implementation_plan)
    then check attention [] add_plan
    else check ready (non_empty input.implementation_plan) no_advice

unfoldable pub task_acceptance_check : TaskAssessmentInput → Check
task_acceptance_check input =
    let check = verdict (codes "acceptance") (codes "Acceptance criteria") true in
    let criteria = non_empty input.acceptance_criteria in
    if is_empty criteria then check blocked [] define_acceptance else check ready criteria no_advice

unfoldable pub task_verification_check : TaskAssessmentInput → Check
task_verification_check input =
    let check = verdict (codes "verification") (codes "Task verification") true in
    let plan = trim_space input.test_plan in
    let command = trim_space input.test_command in
    if not (is_empty plan)
    then check ready ((codes "task test plan: " ++ plan) ∷ []) no_advice
    else if not (is_empty command)
    then check ready ((codes "repository test command: " ++ command) ∷ []) no_advice
    else check blocked [] define_tests

-- the loop of `summarize`, with the status so far
unfoldable pub summarize_from : Status → List Check → Status
summarize_from status [] = status
summarize_from status (c ∷ cs) =
    let rest = summarize_from (if is_ready c.status then status else attention) cs in
    if c.critical && is_blocked c.status then blocked else rest

unfoldable pub summarize : List Check → Report
unfolding summarize_from
summarize checks = record { status = summarize_from ready checks; checks = checks }

module _ (sort : List Text → List Text) where
  unfoldable pub unique_sorted : List Text → List Text
  unfolding unique_from
  unique_sorted vs = sort (unique_from [] vs)

  unfoldable pub task_scope_check : TaskAssessmentInput → Check
  task_scope_check input =
      let check = verdict (codes "scope") (codes "Bounded file scope") false in
      let files =
        unique_sorted (non_empty input.files_to_change ++ non_empty input.files_to_create) in
      if is_empty files then check attention [] bound_files else check ready files no_advice

module _ (lower : Text → Text) where
  unfoldable pub task_risk_check : TaskAssessmentInput → Check
  task_risk_check input =
      let check = verdict (codes "risk_controls") (codes "Risk controls") true in
      let risk = lower (trim_space input.risk_level) in
      let approvals = non_empty input.required_approvals in
      let rollback = trim_space input.rollback_plan in
      let evidence =
        if is_empty rollback then approvals else approvals ++ codes "rollback plan defined" ∷ [] in
      if text_eq risk (codes "critical") && is_empty approvals
      then check blocked [] require_approval
      else if (text_eq risk (codes "high") || text_eq risk (codes "critical"))
          && (is_empty approvals || is_empty rollback)
      then check attention evidence define_controls
      else check ready evidence no_advice

  unfoldable pub assess_task : (List Text → List Text) → TaskAssessmentInput → Report
  assess_task sort input = summarize (
      task_spec_check input
      ∷ task_plan_check input
      ∷ task_scope_check sort input
      ∷ task_acceptance_check input
      ∷ task_verification_check input
      ∷ task_risk_check input
      ∷ [])
