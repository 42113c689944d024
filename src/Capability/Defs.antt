-- ===== src/Capability/Defs.antt =====
-- apps/api/internal/capability/kernel.go: requests and results, and the classes of operations.
use dev_plane.Prelude.{
  zero, suc, ℕ, ◌+◌, ◌/◌, Bool, true, false, not, Option, none, some, List, [], ◌∷◌, if◌then◌else◌,
  is_empty,
}
use dev_plane.Prelude.Int.{ℤ, pos, negsuc, add64, ◌+ℤ◌}
use dev_plane.Prelude.Float.{Float, fzero}
use dev_plane.Text.{Text, codes, text_eq, mem_text}
use dev_plane.Execution.{Grant}
use dev_plane.Policies.{Effect, Value, int, User, TaskFields, Workspace, lookup_value}
use dev_plane.Budget.{Budget, RunState, Violation}
use dev_plane.Capability.Operations.{
  op_access_secret, op_delete_workspace, op_deploy, op_destructive_db, op_merge_pr,
  op_modify_budget, op_modify_policy, op_push_branch, op_rotate_secret, op_write_secret,
}

-- of models.AgentRun; times are in nanoseconds
pub record AgentRun (F : Type 0) : Type 0 where
  pub id : Text
  pub total_cost : F
  pub prompt_tokens : ℤ
  pub completion_tokens : ℤ
  pub started_at : Option ℤ
  pub completed_at : Option ℤ

-- `Project` and `Repository` are not read. A nil map has no entries.
pub record Request (F : Type 0) : Type 0 where
  pub actor_type : Text
  pub user : Option User
  pub organization : Option Text
  pub workspace : Option Workspace
  pub task : Option TaskFields
  pub agent_run : Option (AgentRun F)
  pub operation : Text
  pub resource_type : Text
  pub resource : Text
  pub revision : Text
  pub budget : Option (Budget F)
  pub sandbox_state : Text
  pub details : List (Text × Value F)

pub data RiskLevel : Type 0 where
  low medium high critical : RiskLevel

-- A reason is what its text is made of; the texts that name the operation and the resource of the
-- request do not repeat them here.
pub data Reason (F : Type 0) : Type 0 where
  no_reason allowed_reason denied_reason admin_reason unknown_reason : Reason F
  approval_reason : RiskLevel → Reason F
  rbac_reason : User → Text → Text → Reason F
  budget_reason : List (Violation F) → Reason F
  authority_reason : Reason F

pub record Decision (F : Type 0) : Type 0 where
  pub effect : Effect
  pub required_approval : Bool
  pub audit_required : Bool
  pub reason : Reason F
  pub risk_level : RiskLevel
  pub requested_grant : Option Grant

unfoldable pub is_admin_only : Text → Bool
is_admin_only op = mem_text op (
    op_deploy ∷ op_merge_pr ∷ op_write_secret ∷ op_rotate_secret ∷ op_modify_policy
    ∷ op_modify_budget ∷ op_destructive_db ∷ op_delete_workspace ∷ [])

unfoldable pub is_high_risk_operation : Text → Bool
is_high_risk_operation op = mem_text op (
    op_deploy ∷ op_destructive_db ∷ op_merge_pr ∷ op_delete_workspace ∷ op_modify_policy
    ∷ op_modify_budget ∷ op_push_branch ∷ op_write_secret ∷ op_rotate_secret ∷ [])

unfoldable pub is_audited_operation : Text → Bool
is_audited_operation op = mem_text op (
    op_deploy ∷ op_merge_pr ∷ op_access_secret ∷ op_write_secret ∷ op_modify_policy
    ∷ op_modify_budget ∷ op_rotate_secret ∷ op_destructive_db ∷ op_delete_workspace ∷ [])

-- `a / n` on int: towards zero
abbrev pub div_int : ℤ → ℕ → ℤ
div_int (pos a) n = pos (a / n)
div_int (negsuc a) n = elim ((a + 1) / n) [ zero ↦ pos 0 | suc q ↦ negsuc q ]

abbrev pub negate : ℤ → ℤ
negate (pos n) = elim n [ zero ↦ pos 0 | suc m ↦ negsuc m ]
negate (negsuc n) = pos (n + 1)

-- the whole minutes between two times
unfoldable pub minutes_between : Option ℤ → Option ℤ → ℤ
unfolding ◌+ℤ◌
minutes_between none completed = pos 0
minutes_between (some started) none = pos 0
minutes_between (some started) (some completed) =
    div_int (completed +ℤ negate started) 60_000_000_000

module _ {F : Type 0} ⦃fl : Float F⦄ where
  -- `v.(int)` of a detail, 0 if it is missing or no int
  unfoldable pub int_detail : List (Text × Value F) → Text → ℤ
  unfolding lookup_value
  int_detail details key = elim (lookup_value key details) [
    | none ↦ pos 0
    | some v ↦ elim v [ int n ↦ n | _ ↦ pos 0 ]
  ]

  abbrev pub run_cost : Option (AgentRun F) → F
  run_cost none = fzero
  run_cost (some run) = run.total_cost

  abbrev pub run_calls : Option (AgentRun F) → ℤ
  run_calls none = pos 0
  run_calls (some run) = add64 (div_int run.prompt_tokens 1000) (div_int run.completion_tokens 1000)

  abbrev pub run_minutes : Option (AgentRun F) → ℤ
  run_minutes none = pos 0
  run_minutes (some run) = minutes_between run.started_at run.completed_at

  unfoldable pub build_run_state : Request F → RunState F
  unfolding int_detail minutes_between add64
  build_run_state req = record {
    cost_so_far = run_cost req.agent_run;
    duration_minutes = run_minutes req.agent_run;
    model_calls = run_calls req.agent_run;
    tool_calls = int_detail req.details (codes "tool_calls");
    shell_commands = int_detail req.details (codes "shell_commands");
    files_changed = int_detail req.details (codes "files_changed");
    diff_size_kb = int_detail req.details (codes "diff_size_kb");
  }

-- what `logAudit` writes
pub record AuditEntry (F : Type 0) : Type 0 where
  pub organization_id : Text
  pub actor_type : Text
  pub actor_id : Text
  pub operation : Text
  pub resource : Text
  pub effect : Effect
  pub allowed : Bool
  pub reason : Reason F

abbrev pub or_else : Text → Text → Text
or_else [] t = t
or_else (c ∷ s) t = c ∷ s

abbrev pub is_deny : Effect → Bool
is_deny Effect.deny = true
is_deny _ = false

module _ {F : Type 0} where
  unfoldable pub audit_organization : Request F → Text
  unfolding lookup_value
  audit_organization req =
      or_else (elim req.organization [ none ↦ [] | some id ↦ id ])
        (or_else (elim req.user [ none ↦ [] | some u ↦ u.organization_id ])
          (elim (lookup_value (codes "organization_id") req.details) [
            | none ↦ []
            | some v ↦ elim v [ Value.str t ↦ t | _ ↦ [] ]
          ]))

  -- The type and the id of the actor: the user's, else the agent run's.
  unfoldable pub audit_actor : Request F → Text × Text
  audit_actor req =
      let declared = or_else req.actor_type (codes "system") in
      let named = λ (t : Text). if text_eq declared (codes "system") then t else declared in
      let user_id : Text = elim req.user [ none ↦ [] | some u ↦ u.id ] in
      let user_type : Text = elim req.user [ none ↦ declared | some u ↦ named (codes "human") ] in
      elim req.agent_run [
        | none ↦ (user_type, user_id)
        | some run ↦
            if is_empty user_id
            then (if text_eq user_type (codes "system") then codes "agent" else user_type, run.id)
            else (user_type, user_id)
      ]

  unfoldable pub audit_entry : Request F → Decision F → AuditEntry F
  unfolding audit_organization audit_actor
  audit_entry req d = record {
    organization_id = audit_organization req;
    actor_type = (audit_actor req).0;
    actor_id = (audit_actor req).1;
    operation = req.operation;
    resource = req.resource;
    effect = d.effect;
    allowed = not (is_deny d.effect);
    reason = d.reason;
  }
