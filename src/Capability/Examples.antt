-- ===== src/Capability/Examples.antt =====
-- A kernel with the default policies, requests to it, and the theorems at these inputs.
use mathlib.Core.List.{Memᴰ}
use dev_plane.Prelude.{
  ℕ, ◌≤◌, ◌≡◌, ◌≢◌, ◌↔◌, ◌||◌, ◌&&◌, true, false, refl, [], ◌∷◌, all, none, some, ok, arith,
}
use dev_plane.Prelude.Float.{ℕ_float}
use dev_plane.Text.{Text, codes, text_eq, mem_text, trim_space, contains_rune}
use dev_plane.Execution.{validate_grant, invalid_token}
use dev_plane.Policies.{
  allow, ask, deny, admin_only, order, Value, applies, matches, check_conditions, evaluate,
  default_policies, can,
}
use dev_plane.Capability.Operations.{
  op_merge_pr, op_destructive_db, op_read_file, get_resource_and_action, lookup_operation,
  operation_resource_map,
}
use dev_plane.Capability.Defs.{Request, Decision, no_reason, low, is_high_risk_operation}
use dev_plane.Capability.Kernel.{
  Kernel, new_kernel, with_policy_engine, is_ask, is_admin_effect, invalid_grant, scope_of,
  policy_request, lacks_rbac, sandboxed, mint, final_decision, denial, conclude, over_budget,
  evaluate_request, evaluate_batch, absorb, batch_from,
}
use dev_plane.Capability.Decisions.{IsSound, evaluate_request-IsSound, evaluate_request-allows}
use dev_plane.Capability.Batch.{outcome, evaluate_batch-covers, evaluate_batch-order_matters}

abbrev sprint : Value ℕ → Text
sprint v = []

abbrev kernel : Kernel ℕ
kernel = record { policies = default_policies; store = none; has_audit_logger = true }

abbrev request : Text → Request ℕ
request op = record {
  actor_type = codes "agent";
  user = none;
  organization = some (codes "o");
  workspace = none;
  task = none;
  agent_run = none;
  operation = op;
  resource_type = [];
  resource = codes "main";
  revision = [];
  budget = none;
  sandbox_state = [];
  details = [];
}

program : Unit {0}
unfolding evaluate_request lacks_rbac can scope_of get_resource_and_action lookup_operation
    operation_resource_map policy_request over_budget conclude sandboxed is_high_risk_operation mint
    validate_grant invalid_token trim_space contains_rune evaluate applies matches check_conditions
    default_policies all text_eq mem_text final_decision denial evaluate_batch batch_from absorb
program = tt

evaluate_request-IsSound_example :
    IsSound kernel (request op_read_file) (evaluate_request sprint kernel (request op_read_file))
evaluate_request-IsSound_example = evaluate_request-IsSound sprint kernel (request op_read_file)

evaluate_request-allows_example :
    ((evaluate_request sprint kernel (request op_read_file)).decision.effect ≡ allow) ↔ (
      (lacks_rbac (request op_read_file) ≡ false)
      × (over_budget kernel (request op_read_file) ≡ none)
      × (evaluate sprint default_policies (policy_request (request op_read_file)) ask ≡ allow)
      × ((text_eq [] (codes "isolated") && is_high_risk_operation op_read_file) ≡ false)
      × (mint (request op_read_file) allow ≢ invalid_grant))
evaluate_request-allows_example = evaluate_request-allows sprint kernel (request op_read_file)

abbrev passed : Decision ℕ
passed = record {
  effect = allow;
  required_approval = false;
  audit_required = false;
  reason = no_reason;
  risk_level = low;
  requested_grant = none;
}

evaluate_batch-covers_example :
    (false ≡ (is_ask allow || is_admin_effect allow))
    × ((outcome sprint kernel (request []) op_read_file).error ≡ none)
    × (order (outcome sprint kernel (request []) op_read_file).decision.effect ≤ order allow)
unfolding program
evaluate_batch-covers_example =
    evaluate_batch-covers sprint kernel (request []) (op_read_file ∷ []) passed op_read_file refl
      (Memᴰ.head refl) (omega arith)

evaluate_batch-order_matters_example :
    ((d : Decision ℕ) × (evaluate_batch sprint kernel
          (request [])
          (op_merge_pr ∷ op_destructive_db ∷ [])
        ≡ ok d)
      × (d.effect ≡ admin_only)
      × (d.required_approval ≡ true))
    × ((d : Decision ℕ) × (evaluate_batch sprint kernel
            (request [])
            (op_destructive_db ∷ op_merge_pr ∷ [])
          ≡ ok d)
        × (d.effect ≡ deny)
        × (d.required_approval ≡ false))
unfolding program
evaluate_batch-order_matters_example =
    evaluate_batch-order_matters sprint kernel (request []) op_merge_pr op_destructive_db refl refl
      refl refl

kernel_default : new_kernel (λ ps. ps) none none true ≡ kernel
unfolding new_kernel default_policies
kernel_default = refl

kernel_replaced : with_policy_engine kernel (some []) ≡ record kernel { policies = [] }
unfolding with_policy_engine
kernel_replaced = refl
