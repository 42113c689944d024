-- ===== src/Policies/Examples.antt =====
-- A request of a member, two policies, and the theorems at these inputs.
use dev_plane.Prelude.{ℕ, ◌≤◌, ◌≡◌, ◌⊎◌, false, refl, List, [], ◌∷◌, All, all, none, some}
use dev_plane.Prelude.Int.{pos}
use dev_plane.Prelude.Float.{ℕ_float}
use dev_plane.Text.{Text, codes, text_eq}
use dev_plane.Policies.Defs.{
  Effect, allow, ask, deny, order, Value, Policy, User, EvaluationRequest, applies, matches,
  check_conditions, evaluate, evaluate_with_details, new_engine,
}
use dev_plane.Policies.Default.{default_policies}
use dev_plane.Policies.Restrictive.{Comes, Bounds, evaluate-most_restrictive}
use dev_plane.Policies.Guarded.{least, guarded}
use dev_plane.Policies.Guarantees.{default_engine-guards}
use dev_plane.Policies.Details.{applicable, evaluate_with_details-agrees}

abbrev sprint : Value ℕ → Text
sprint v = []

abbrev user : Text → User
user role = record { id = codes "u"; organization_id = codes "o"; role = role }

abbrev request : EvaluationRequest ℕ
request = record {
  user = some (user (codes "member"));
  task = none;
  workspace = none;
  action = codes "merge";
  resource_type = codes "git";
  resource = codes "main";
  details = [];
}

abbrev policy : Text → Effect → Policy ℕ
policy type effect = record {
  name = type;
  resource_type = type;
  action = codes "*";
  effect = effect;
  conditions = [];
  priority = pos 1;
}

abbrev policies : List (Policy ℕ)
policies = policy (codes "git") ask ∷ policy (codes "file") deny ∷ policy (codes "*") allow ∷ []

abbrev backwards : List (Policy ℕ)
backwards = policy (codes "*") allow ∷ policy (codes "file") deny ∷ policy (codes "git") ask ∷ []

program : Unit {0}
unfolding evaluate applies matches check_conditions all text_eq
program = tt

evaluate-most_restrictive_example :
    ((evaluate sprint policies request allow ≡ allow)
      × All (λ p. applies sprint request p ≡ false) policies)
    ⊎ (Comes sprint request (evaluate sprint policies request allow) policies
        × Bounds sprint request (evaluate sprint policies request allow) policies)
evaluate-most_restrictive_example = evaluate-most_restrictive sprint request policies allow

default_engine-guards_example :
    least (guarded sprint request)
    ≤ order (evaluate sprint (new_engine (λ ps. ps) default_policies) request ask)
default_engine-guards_example = default_engine-guards sprint request (λ ps. ps) (λ p ps i. i) ask

evaluate_with_details-agrees_example :
    evaluate_with_details sprint policies request allow
    ≡ (evaluate sprint policies request allow, applicable sprint request policies)
evaluate_with_details-agrees_example = evaluate_with_details-agrees sprint request policies allow

details_names :
    (evaluate_with_details sprint policies request allow).1 ≡ codes "git" ∷ codes "*" ∷ []
unfolding program evaluate_with_details
details_names = refl
