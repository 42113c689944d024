-- ===== src/Readiness/Admission.antt =====
-- packages/readiness/task.go: which tasks `AssessTask` blocks, and which it calls ready.
use dev_plane.Prelude.{
  Bool, false, ◌||◌, ◌&&◌, not, ◌≡◌, refl, ◌∙◌, List, [], ◌∷◌, ◌++◌, arith, any, all, is_empty,
}
use dev_plane.Text.{Text, codes, text_eq, trim_space}
use dev_plane.Readiness.Defs.{
  Status, ready, attention, Check, TaskAssessmentInput, is_ready, is_blocked, non_empty,
  unique_sorted, task_spec_check, task_plan_check, task_scope_check, task_acceptance_check,
  task_verification_check, task_risk_check, summarize_from, summarize, assess_task,
}

-- a critical check is blocked
abbrev pub stops : Check → Bool
stops c = c.critical && is_blocked c.status

pub summarize_from-blocked :
    (s : Status) (cs : List Check)
    → is_blocked s ≡ false
    → is_blocked (summarize_from s cs) ≡ any stops cs
unfolding summarize_from any
summarize_from-blocked s [] h = h
summarize_from-blocked s (c ∷ cs) h =
    ground (arith, summarize_from-blocked s cs h, summarize_from-blocked attention cs refl)

summarize_from-ready :
    (s : Status) (cs : List Check)
    → is_ready (summarize_from s cs) ≡ (is_ready s && all (λ c. is_ready c.status) cs)
unfolding summarize_from all
summarize_from-ready s [] = ground arith
summarize_from-ready s (c ∷ cs) =
    ground (arith, summarize_from-ready s cs, summarize_from-ready attention cs)

module _ (lower : Text → Text) (sort : List Text → List Text) (input : TaskAssessmentInput) where
  abbrev checks : List Check
  checks =
      task_spec_check input
      ∷ task_plan_check input
      ∷ task_scope_check sort input
      ∷ task_acceptance_check input
      ∷ task_verification_check input
      ∷ task_risk_check lower input
      ∷ []

  -- `AssessTask` blocks a task exactly if it has no specification, no acceptance criteria, neither a
  -- test plan nor a test command, or a critical risk without approvals.
  pub assess_task-blocked : is_blocked (assess_task lower sort input).status ≡ (
      not input.has_spec
      || is_empty (non_empty input.acceptance_criteria)
      || (is_empty (trim_space input.test_plan) && is_empty (trim_space input.test_command))
      || (text_eq (lower (trim_space input.risk_level)) (codes "critical")
          && is_empty (non_empty input.required_approvals)))
  unfolding assess_task summarize any task_spec_check task_plan_check task_scope_check
      task_acceptance_check task_verification_check task_risk_check
  assess_task-blocked = summarize_from-blocked ready checks refl ∙ ground arith

  -- `AssessTask` calls a task ready exactly if it has a specification, a plan, files, acceptance
  -- criteria and a test plan or command, and approvals and a rollback plan where its risk is high or
  -- critical.
  assess_task-ready : is_ready (assess_task lower sort input).status ≡ (
      input.has_spec
      && not (is_empty (non_empty input.implementation_plan))
      && not (
          is_empty (
            unique_sorted sort
              (non_empty input.files_to_change ++ non_empty input.files_to_create)))
      && not (is_empty (non_empty input.acceptance_criteria))
      && not (is_empty (trim_space input.test_plan) && is_empty (trim_space input.test_command))
      && not (
          (text_eq (lower (trim_space input.risk_level)) (codes "high")
            || text_eq (lower (trim_space input.risk_level)) (codes "critical"))
          && (is_empty (non_empty input.required_approvals)
              || is_empty (trim_space input.rollback_plan))))
  unfolding assess_task summarize all task_spec_check task_plan_check task_scope_check
      task_acceptance_check task_verification_check task_risk_check
  assess_task-ready = summarize_from-ready ready checks ∙ ground arith
