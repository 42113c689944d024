-- ===== src/Policies/Guarded.antt =====
-- packages/policies/policy.go: what the default policies guard.
use Prim.Native.String.{String}
use dev_plane.Prelude.{
  ℕ, ◌≤◌, Bool, true, false, not, ◌≡◌, refl, inl, inr, none, some, List, [], ◌∷◌, arith, All, ltb,
  if◌then◌else◌, ◌&&◌, Option-cases,
}
use dev_plane.Prelude.Int.{pos, ltb_ℤ}
use dev_plane.Prelude.Float.{Float}
use dev_plane.Text.{Text, codes, text_eq}
use dev_plane.Policies.Defs.{
  Effect, ask, deny, admin_only, order, Value, int, str, Policy, EvaluationRequest, matches,
  check_condition, lookup_value, get_scope, get_branch, get_environment, actual_value, meets,
  as_int,
}

-- the greatest order of the effects whose test holds
unfoldable pub least : List (Bool × Effect) → ℕ
least [] = 0
least ((test, e) ∷ rows) =
    let rest = least rows in if test && ltb rest (order e) then order e else rest

-- the rows whose test holds are within a bound
abbrev pub Within : ℕ → Bool × Effect → Type 0
Within k row = row.0 ≡ true → order row.1 ≤ k

pub least-bound : (k : ℕ) (rows : List (Bool × Effect)) → All (Within k) rows → least rows ≤ k
unfolding least
least-bound k [] h = omega arith
least-bound k ((test, e) ∷ rows) h = ground (arith, least-bound k rows h.1, h.0)

module _ {F : Type 0} ⦃fl : Float F⦄ (sprint : Value F → Text) (req : EvaluationRequest F) where
  -- The value of a detail, or else of a field of the request, prints like the text.
  unfoldable pub says : Text → Text → Text → Bool
  unfolding lookup_value
  says key field text =
      text_eq (sprint (elim (lookup_value key req.details) [ some v ↦ v | none ↦ str field ]))
        (sprint (str text))

  -- the detail `min_size_mb` is a number from 10 on
  unfoldable pub is_large : Bool
  unfolding lookup_value
  is_large = elim (lookup_value (codes "min_size_mb") req.details) [
    | none ↦ false
    | some v ↦ elim (as_int v) [ none ↦ false | some n ↦ not (ltb_ℤ n (pos 10)) ]
  ]

  abbrev pub is_on : String → Bool
  is_on type = text_eq (codes type) req.resource_type

  abbrev pub asks_for : String → String → Bool
  asks_for type action = is_on type && text_eq (codes action) req.action

  -- The requests that are not simply allowed, each with what guards it. A deployment to production has
  -- one row: `deny_production_deploy` has the condition of `admin_deploy_prod`, which is stricter.
  unfoldable pub guarded : List (Bool × Effect)
  unfolding says is_large get_scope get_branch get_environment
  guarded =
      (asks_for "file" "write", ask)
      ∷ (asks_for "command" "execute", ask)
      ∷ (asks_for "command" "install", ask)
      ∷ (asks_for "command" "migrate", ask)
      ∷ (asks_for "git" "commit", ask)
      ∷ (asks_for "git" "push", ask)
      ∷ (is_on "network", ask)
      ∷ (asks_for "git" "create_pr", ask)
      ∷ (
        asks_for "secret" "read" && says (codes "scope") (get_scope req) (codes "production"),
        deny,
      )
      ∷ (asks_for "command" "destructive_db", deny)
      ∷ (asks_for "file" "delete" && is_large, deny)
      ∷ (asks_for "git" "push" && says (codes "branch") (get_branch req) (codes "main"), deny)
      ∷ (
        is_on "deploy" && says (codes "environment") (get_environment req) (codes "production"),
        admin_only,
      )
      ∷ (asks_for "git" "merge", admin_only)
      ∷ (asks_for "secret" "write", admin_only)
      ∷ (asks_for "secret" "rotate", admin_only)
      ∷ (is_on "policy", admin_only)
      ∷ []

  pub matches-exact :
      (p : Policy F)
      → (text_eq p.resource_type req.resource_type && text_eq p.action req.action) ≡ true
      → matches p req.resource_type req.action ≡ true
  unfolding matches
  matches-exact p h = ground arith

  pub matches-any_action :
      (p : Policy F)
      → text_eq p.resource_type req.resource_type ≡ true
      → text_eq p.action (codes "*") ≡ true
      → matches p req.resource_type req.action ≡ true
  unfolding matches
  matches-any_action p h a = ground arith

  pub says-scope :
      (t : Text)
      → check_condition sprint req (codes "scope", str t) ≡ says (codes "scope") (get_scope req) t
  unfolding check_condition actual_value meets says text_eq
  says-scope t = elim (Option-cases (lookup_value (codes "scope") req.details)) [
    | inl e ↦ rw (check_condition, e) refl
    | inr (v, e) ↦ rw (check_condition, e) refl
  ]

  pub says-branch :
      (t : Text)
      → check_condition sprint req (codes "branch", str t)
        ≡ says (codes "branch") (get_branch req) t
  unfolding check_condition actual_value meets says text_eq
  says-branch t = elim (Option-cases (lookup_value (codes "branch") req.details)) [
    | inl e ↦ rw (check_condition, e) refl
    | inr (v, e) ↦ rw (check_condition, e) refl
  ]

  pub says-environment :
      (t : Text)
      → check_condition sprint req (codes "environment", str t)
        ≡ says (codes "environment") (get_environment req) t
  unfolding check_condition actual_value meets says text_eq
  says-environment t = elim (Option-cases (lookup_value (codes "environment") req.details)) [
    | inl e ↦ rw (check_condition, e) refl
    | inr (v, e) ↦ rw (check_condition, e) refl
  ]

  pub condition-is_large : check_condition sprint req (codes "min_size_mb", int (pos 10)) ≡ is_large
  unfolding check_condition actual_value meets is_large text_eq
  condition-is_large = elim (Option-cases (lookup_value (codes "min_size_mb") req.details)) [
    | inl e ↦ rw (check_condition, is_large, e) refl
    | inr (v, e) ↦ rw (check_condition, is_large, e) refl
  ]
