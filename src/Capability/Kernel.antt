-- ===== src/Capability/Kernel.antt =====
-- apps/api/internal/capability/kernel.go: `Evaluate` and `EvaluateBatch`.
use dev_plane.Prelude.{
  Bool, true, false, ◌||◌, ◌&&◌, not, Option, none, some, List, [], ◌∷◌, Result, ok, err,
  if◌then◌else◌, is_empty,
}
use dev_plane.Prelude.Float.{Float}
use dev_plane.Text.{Text, codes, text_eq}
use dev_plane.Execution.{Grant, validate_grant}
use dev_plane.Policies.{
  new_engine, default_policies, Effect, allow, ask, deny, admin_only, other, Value, Policy,
  EvaluationRequest, evaluate, can, more_restrictive_than,
}
use dev_plane.Budget.{Store, CheckResult, is_unlimited, check_run}
use dev_plane.Capability.Operations.{
  get_resource_and_action, op_access_secret, op_write_secret, op_network_request,
}
use dev_plane.Capability.Defs.{
  Request, RiskLevel, low, medium, high, critical, Reason, no_reason, allowed_reason, denied_reason,
  admin_reason, unknown_reason, approval_reason, rbac_reason, budget_reason, authority_reason,
  Decision, AuditEntry, is_deny, is_high_risk_operation, is_audited_operation, build_run_state,
  audit_entry,
}

-- The kernel: the policies of its engine, the database of its budget engine, and whether it has an
-- audit logger. `NewKernel` always sets the two engines.
pub record Kernel (F : Type 0) : Type 0 where
  pub policies : List (Policy F)
  pub store : Option (Store F)
  pub has_audit_logger : Bool

-- `NewKernel`: without a policy engine it takes the default one, sorted by `sort`, and without a
-- budget engine one that has no database.
unfoldable pub new_kernel :
    {F : Type 0}
    → (List (Policy F) → List (Policy F))
    → Option (List (Policy F))
    → Option (Option (Store F))
    → Bool
    → Kernel F
unfolding new_engine default_policies
new_kernel sort policies budget has_audit_logger = record {
  policies = elim policies [ none ↦ new_engine sort default_policies | some ps ↦ ps ];
  store = elim budget [ none ↦ none | some store ↦ store ];
  has_audit_logger = has_audit_logger;
}

unfoldable pub with_policy_engine : {F : Type 0} → Kernel F → Option (List (Policy F)) → Kernel F
with_policy_engine k none = k
with_policy_engine k (some policies) = record k { policies = policies }

-- The one error that `Evaluate` returns; the policies and the budget report none.
pub data KernelError : Type 0 where
  capability_unknown : KernelError

-- What `Evaluate` returns, and the audit records that it writes.
pub record Outcome (F : Type 0) : Type 0 where
  pub decision : Decision F
  pub error : Option KernelError
  pub audit : List (AuditEntry F)

-- A grant is minted for a decision that is no denial and a request with operation and resource.
pub data Minted : Type 0 where
  no_grant invalid_grant : Minted
  minted : Grant → Minted

abbrev pub is_ask : Effect → Bool
is_ask ask = true
is_ask _ = false

abbrev pub is_admin_effect : Effect → Bool
is_admin_effect admin_only = true
is_admin_effect _ = false

abbrev pub is_allow : Effect → Bool
is_allow allow = true
is_allow _ = false

module _ {F : Type 0} where
  -- The resource type and the action that the policies are asked for. A request that names its
  -- resource type has the empty action.
  unfoldable pub scope_of : Request F → Text × Text
  unfolding get_resource_and_action
  scope_of req =
      let derived =
        if is_empty req.resource_type && not (is_empty req.operation)
        then get_resource_and_action req.operation
        else (req.resource_type, []) in
      if is_empty derived.0 then (codes "unknown", derived.1) else derived

  unfoldable pub policy_request : Request F → EvaluationRequest F
  unfolding scope_of
  policy_request req = record {
    user = req.user;
    task = req.task;
    workspace = req.workspace;
    action = (scope_of req).1;
    resource_type = (scope_of req).0;
    resource = req.resource;
    details = req.details;
  }

  unfoldable pub lacks_rbac : Request F → Bool
  unfolding can scope_of
  lacks_rbac req = elim req.user [
    | none ↦ false
    | some u ↦ not (can (some u) (scope_of req).0 (scope_of req).1)
  ]

  unfoldable pub sandboxed : Request F → Effect → Effect
  unfolding is_high_risk_operation
  sandboxed req effect =
      if text_eq req.sandbox_state (codes "isolated")
        && is_high_risk_operation req.operation
        && is_allow effect
      then ask
      else effect

  unfoldable pub mint : Request F → Effect → Minted
  mint req effect =
      let grant : Grant = record {
        operation = req.operation;
        resource = req.resource;
        revision = req.revision;
      } in
      if is_deny effect || is_empty req.operation || is_empty req.resource
      then no_grant
      else (elim (validate_grant grant) [ ok u ↦ minted grant | err e ↦ invalid_grant ])

  unfoldable pub calculate_risk_level : Request F → Effect → RiskLevel
  unfolding is_high_risk_operation
  calculate_risk_level req effect =
      if is_admin_effect effect
      then critical
      else if is_deny effect
      then high
      else if is_high_risk_operation req.operation
      then high
      else if is_ask effect
      then medium
      else if text_eq req.operation op_access_secret
          || text_eq req.operation op_write_secret
          || text_eq req.operation op_network_request
      then medium
      else low

  abbrev pub build_reason : Effect → Reason F → RiskLevel → Reason F
  build_reason allow r risk = allowed_reason
  build_reason ask r risk = approval_reason risk
  build_reason deny no_reason risk = denied_reason
  build_reason deny r risk = r
  build_reason admin_only r risk = admin_reason
  build_reason (other t) r risk = unknown_reason

  -- the decision of the last steps, and of the three denials
  unfoldable pub final_decision : Request F → Effect → Option Grant → Decision F
  unfolding calculate_risk_level is_audited_operation
  final_decision req effect grant = record {
    effect = effect;
    required_approval = is_ask effect || is_admin_effect effect;
    audit_required = is_audited_operation req.operation || is_deny effect || is_admin_effect effect;
    reason = build_reason effect no_reason (calculate_risk_level req effect);
    risk_level = calculate_risk_level req effect;
    requested_grant = grant;
  }

  unfoldable pub denial : Reason F → Decision F
  denial reason = record {
    effect = deny;
    required_approval = false;
    audit_required = false;
    reason = reason;
    risk_level = high;
    requested_grant = none;
  }

  unfoldable pub rbac_denial : Request F → Decision F
  unfolding denial scope_of
  rbac_denial req = elim req.user [
    | none ↦ denial no_reason
    | some u ↦ denial (rbac_reason u (scope_of req).0 (scope_of req).1)
  ]

  abbrev pub logged : Kernel F → Request F → Decision F → Option KernelError → Outcome F
  logged k req d e = record {
    decision = d;
    error = e;
    audit = if k.has_audit_logger then audit_entry req d ∷ [] else [];
  }

  -- the steps behind the budget, from the effect of the policies
  unfoldable pub conclude : Kernel F → Request F → Effect → Outcome F
  conclude k req policy_effect =
      let effect = sandboxed req policy_effect in
      elim (mint req effect) [
        | invalid_grant ↦ logged k req (denial authority_reason) (some capability_unknown)
        | no_grant ↦ logged k req (final_decision req effect none) none
        | minted g ↦ logged k req (final_decision req effect (some g)) none
      ]

module _ {F : Type 0} ⦃fl : Float F⦄ where
  -- The violations of the budget, if there is one that does not let the run go on.
  unfoldable pub over_budget : Kernel F → Request F → Option (CheckResult F)
  over_budget k req = elim req.budget [
    | none ↦ none
    | some b ↦
        let r = check_run k.store (some b) (some (build_run_state req)) in
        if is_unlimited b || r.allowed then none else some r
  ]

  module _ (sprint : Value F → Text) where
    unfoldable pub evaluate_request : Kernel F → Request F → Outcome F
    evaluate_request k req =
        if lacks_rbac req then logged k req (rbac_denial req) none else (elim (over_budget k req) [
          | some r ↦ logged k req (denial (budget_reason r.reason)) none
          | none ↦ conclude k req (evaluate sprint k.policies (policy_request req) ask)
        ])

    -- the overall result of a batch: the four fields that it copies
    unfoldable pub absorb : Decision F → Decision F → Decision F
    absorb overall d =
        if more_restrictive_than d.effect overall.effect
        then record overall {
          effect = d.effect;
          required_approval = d.required_approval;
          reason = d.reason;
          risk_level = d.risk_level;
        }
        else overall

    -- the loop of `EvaluateBatch`, which ends at an error and behind a denial
    unfoldable pub batch_from :
        Kernel F → Request F → List Text → Decision F → Result KernelError (Decision F)
    unfolding absorb
    batch_from k req [] overall = ok overall
    batch_from k req (op ∷ ops) overall =
        let o = evaluate_request k (record req { operation = op }) in
        let overall' = absorb overall o.decision in
        let more = batch_from k req ops overall' in
        elim o.error [
          | some e ↦ err e
          | none ↦ if is_deny o.decision.effect then ok overall' else more
        ]

    unfoldable pub evaluate_batch :
        Kernel F → Request F → List Text → Result KernelError (Decision F)
    unfolding batch_from
    evaluate_batch k req ops = batch_from k req ops (record {
      effect = allow;
      required_approval = false;
      audit_required = false;
      reason = no_reason;
      risk_level = low;
      requested_grant = none;
    })
