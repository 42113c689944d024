-- ===== src/Policies/Guarantees.antt =====
-- packages/policies/policy.go: what the default engine never lets pass.
use mathlib.Core.List.{Memᴰ}
use Prim.Native.String.{String}
use dev_plane.Prelude.{
  ℕ, ◌≤◌, Bool, true, false, ◌≡◌, ◌≢◌, refl, sym, ◌∙◌, ap, inl, inr, List, [], ◌∷◌, arith, All, all,
  ◌&&◌,
}
use dev_plane.Prelude.Int.{pos}
use dev_plane.Prelude.Float.{Float}
use dev_plane.Text.{Text, codes, text_eq}
use dev_plane.Policies.Defs.{
  Effect, ask, deny, admin_only, order, Value, int, str, Policy, EvaluationRequest, applies,
  matches, check_condition, check_conditions, evaluate, new_engine,
}
use dev_plane.Policies.Default.{rule, default_policies}
use dev_plane.Policies.Restrictive.{Bounds, evaluate-most_restrictive}
use dev_plane.Policies.Guarded.{
  least, Within, least-bound, says-scope, says-branch, says-environment, condition-is_large,
  matches-exact, matches-any_action, asks_for, is_on, guarded,
}

infixr 4 ◌⊗◌
-- a pair, for long tuples
abbrev ◌⊗◌ : {A B : Type 0} → A → B → A × B
a ⊗ b = (a, b)

ruleset in_policies = (Memᴰ.head, Memᴰ.tail)

module _ {F : Type 0} ⦃fl : Float F⦄ (sprint : Value F → Text) (req : EvaluationRequest F) where
  Bounds-mem :
      (e : Effect) (p : Policy F) (ps : List (Policy F))
      → Memᴰ p ps
      → Bounds sprint req e ps
      → applies sprint req p ≡ true
      → order p.effect ≤ order e
  Bounds-mem e p [] i b a = elim i [ ]
  Bounds-mem e p (q ∷ ps) (Memᴰ.head h) b a =
      omega
        (arith, ap (λ (x : Policy F). order x.effect) h, b.0 (ap (applies sprint req) (sym h) ∙ a))
  Bounds-mem e p (q ∷ ps) (Memᴰ.tail i) b a = Bounds-mem e p ps i b.1 a

  All-false_mem :
      (p : Policy F) (ps : List (Policy F))
      → Memᴰ p ps
      → All (λ q. applies sprint req q ≡ false) ps
      → applies sprint req p ≢ true
  All-false_mem p [] i n a = elim i [ ]
  All-false_mem p (q ∷ ps) (Memᴰ.head h) n a = cc (ap (applies sprint req) h, n.0)
  All-false_mem p (q ∷ ps) (Memᴰ.tail i) n a = All-false_mem p ps i n.1 a

  -- The engine is at least as restrictive as each of its policies that applies.
  evaluate-at_least :
      (ps : List (Policy F)) (default : Effect) (p : Policy F)
      → Memᴰ p ps
      → applies sprint req p ≡ true
      → order p.effect ≤ order (evaluate sprint ps req default)
  evaluate-at_least ps default p i a = elim (evaluate-most_restrictive sprint req ps default) [
    | inl (d, n) ↦ absurd (All-false_mem p ps i n a)
    | inr (c, b) ↦ Bounds-mem (evaluate sprint ps req default) p ps i b a
  ]

  module _ (sort : List (Policy F) → List (Policy F))
      (keeps : (p : Policy F) (ps : List (Policy F)) → Memᴰ p ps → Memᴰ p (sort ps))
      (default : Effect) where
    abbrev answer : Effect
    answer = evaluate sprint (new_engine sort default_policies) req default

    guards :
        (p : Policy F)
        → Memᴰ p default_policies
        → matches p req.resource_type req.action ≡ true
        → check_conditions sprint p req ≡ true
        → order p.effect ≤ order answer
    unfolding new_engine applies
    guards p i m c =
        evaluate-at_least (sort default_policies) default p (keeps p default_policies i)
          (rw (m, c) refl)

    -- a rule without conditions, for one action
    exact :
        (name type action : String) (effect : Effect) (priority : ℕ)
        → Memᴰ (rule {F = F} name type action effect priority []) default_policies
        → Within (order answer) (asks_for sprint req type action, effect)
    exact name type action effect priority i h =
        let p = rule {F = F} name type action effect priority [] in
        guards p i (matches-exact sprint req p h) (unfold check_conditions all in refl)

    -- a rule with a condition, for one action
    exact_if :
        (name type action : String) (effect : Effect) (priority : ℕ) (c : Text × Value F)
        (test : Bool)
        → check_condition sprint req c ≡ test
        → Memᴰ (rule {F = F} name type action effect priority (c ∷ [])) default_policies
        → Within (order answer) (asks_for sprint req type action && test, effect)
    unfolding check_conditions all
    exact_if name type action effect priority c test same i h =
        let p = rule {F = F} name type action effect priority (c ∷ []) in
        guards p i (matches-exact sprint req p (ground arith)) (ground arith)

    whole_type :
        (name type : String) (effect : Effect) (priority : ℕ)
        → Memᴰ (rule {F = F} name type "*" effect priority []) default_policies
        → Within (order answer) (is_on sprint req type, effect)
    whole_type name type effect priority i h =
        let p = rule {F = F} name type "*" effect priority [] in
        guards p i (matches-any_action sprint req p h (unfold text_eq in refl))
          (unfold check_conditions all in refl)

    whole_type_if :
        (name type : String) (effect : Effect) (priority : ℕ) (c : Text × Value F) (test : Bool)
        → check_condition sprint req c ≡ test
        → Memᴰ (rule {F = F} name type "*" effect priority (c ∷ [])) default_policies
        → Within (order answer) (is_on sprint req type && test, effect)
    unfolding check_conditions all
    whole_type_if name type effect priority c test same i h =
        let p = rule {F = F} name type "*" effect priority (c ∷ []) in
        guards p i (matches-any_action sprint req p (ground arith) (unfold text_eq in refl))
          (ground arith)

    rows-Within : All (Within (order answer)) (guarded sprint req)
    unfolding guarded default_policies
    rows-Within =
        exact "ask_file_writes" "file" "write" ask 200 (search in_policies depth 30)
        ⊗ exact "ask_command_execute" "command" "execute" ask 200 (search in_policies depth 30)
        ⊗ exact "ask_dependency_install" "command" "install" ask 200 (search in_policies depth 30)
        ⊗ exact "ask_db_migrate" "command" "migrate" ask 200 (search in_policies depth 30)
        ⊗ exact "ask_git_commit" "git" "commit" ask 200 (search in_policies depth 30)
        ⊗ exact "ask_git_push" "git" "push" ask 200 (search in_policies depth 30)
        ⊗ whole_type "ask_network" "network" ask 200 (search in_policies depth 30)
        ⊗ exact "ask_pr_create" "git" "create_pr" ask 200 (search in_policies depth 30)
        ⊗ exact_if "deny_production_secrets" "secret" "read" deny 300
            (codes "scope", str (codes "production")) _ (says-scope sprint req _)
            (search in_policies depth 30)
        ⊗ exact "deny_destructive_db" "command" "destructive_db" deny 300
            (search in_policies depth 30)
        ⊗ exact_if "deny_large_delete" "file" "delete" deny 300 (codes "min_size_mb", int (pos 10))
            _ (condition-is_large sprint req) (search in_policies depth 30)
        ⊗ exact_if "deny_push_main" "git" "push" deny 300 (codes "branch", str (codes "main")) _
            (says-branch sprint req _) (search in_policies depth 30)
        ⊗ whole_type_if "admin_deploy_prod" "deploy" admin_only 400
            (codes "environment", str (codes "production")) _ (says-environment sprint req _)
            (search in_policies depth 30)
        ⊗ exact "admin_merge_pr" "git" "merge" admin_only 400 (search in_policies depth 30)
        ⊗ exact "admin_write_secrets" "secret" "write" admin_only 400 (search in_policies depth 30)
        ⊗ exact "admin_rotate_secrets" "secret" "rotate" admin_only 400
            (search in_policies depth 30)
        ⊗ whole_type "admin_modify_policies" "policy" admin_only 400 (search in_policies depth 30)
        ⊗ tt

  -- Whatever the sort makes of the order of the policies, as far as it keeps them: the default engine
  -- is at least as restrictive as every row of `guarded` that fits the request. That is `admin_only`
  -- for requests on policies, for writing and rotating secrets, for merging and for a deployment to
  -- production; `deny` for reading a production secret, a destructive operation on a database, a large
  -- deletion and a push to main; and `ask` for other writes, pushes and commits, for the network, for
  -- a pull request, and for executing, installing and migrating.
  pub default_engine-guards :
      (sort : List (Policy F) → List (Policy F))
      → ((p : Policy F) (ps : List (Policy F)) → Memᴰ p ps → Memᴰ p (sort ps))
      → (default : Effect)
      → least (guarded sprint req)
        ≤ order (evaluate sprint (new_engine sort default_policies) req default)
  default_engine-guards sort keeps default =
      least-bound _ (guarded sprint req) (rows-Within sort keeps default)
