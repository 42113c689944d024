-- ===== src/Budget/Limits.antt =====
-- apps/api/internal/budget/engine.go: what a run that `CheckRun` and `CheckRunStart` let pass keeps
-- to.
use dev_plane.Prelude.{
  Bool, true, false, ◌||◌, ◌&&◌, not, ◌≡◌, refl, ◌⊎◌, inl, inr, ◌↔◌, Option, none, some, Result, ok,
  err, ok-injective, arith, Bool-cases, if◌then◌else◌,
}
use dev_plane.Prelude.Int.{ℤ, pos, ltb_ℤ, leb_ℤ}
use dev_plane.Prelude.Float.{Float, flt}
use dev_plane.Text.{Text}
use dev_plane.Budget.Defs.{
  Budget, RunState, Violation, CheckResult, Store, is_unlimited, check_limit, check_counters,
  give_reason, check_cost, check_run, check_admitted, check_run_start,
}

-- a counter keeps to its limit: none is set, or it is not exceeded
abbrev pub within : ℤ → ℤ → Bool
within limit used = not (ltb_ℤ (pos 0) limit && ltb_ℤ limit used)

Result-cases {ℓ} :
    {E A : Type ℓ} (r : Result E A) → ((a : A) × (r ≡ ok a)) ⊎ ((e : E) × (r ≡ err e))
Result-cases (ok a) = inl (a, refl)
Result-cases (err e) = inr (e, refl)

and_true4 :
    (a b c d e : Bool)
    → ((a && b && c && d && e) ≡ true)
      ↔ ((a ≡ true) × (b ≡ true) × (c ≡ true) × (d ≡ true) × (e ≡ true))
and_true4 a b c d e = (λ h. ground arith, λ h. ground arith)

module _ {F : Type 0} where
  check_limit-allowed :
      (limit used : ℤ) (v : Violation F) (r : CheckResult F)
      → (check_limit limit used v r).allowed ≡ (r.allowed && within limit used)
  unfolding check_limit
  check_limit-allowed limit used v r = ground arith

  give_reason-allowed : (r : CheckResult F) → (give_reason r).allowed ≡ r.allowed
  unfolding give_reason
  give_reason-allowed r = ground arith

  check_counters-allowed :
      (b : Budget F) (s : RunState F) (r : CheckResult F)
      → (check_counters b s r).allowed ≡ (
          r.allowed
          && within b.max_runtime_minutes s.duration_minutes
          && within b.max_model_calls s.model_calls
          && within b.max_tool_calls s.tool_calls
          && within b.max_shell_commands s.shell_commands)
  unfolding check_counters
  check_counters-allowed b s r =
      rw (check_limit-allowed, check_limit-allowed, check_limit-allowed, check_limit-allowed) refl

module _ {F : Type 0} ⦃fl : Float F⦄ where
  -- the cost keeps to its limit
  abbrev pub affordable : Option F → F → Bool
  affordable none used = true
  affordable (some max) used = not (flt max used)

  check_cost-allowed :
      (b : Budget F) (s : RunState F) (r : CheckResult F)
      → (check_cost b s r).allowed ≡ (r.allowed && affordable b.max_cost s.cost_so_far)
  unfolding check_cost
  check_cost-allowed b s r = ground arith

  gate :
      (r₀ r : CheckResult F) (u : Bool) (x : Result Text (CheckResult F))
      → (if not r₀.allowed || u then ok r₀ else x) ≡ ok r
      → r.allowed ≡ true
      → u ≡ false
      → x ≡ ok r
  gate r₀ r u x h a n = ground arith

  check_admitted-counts :
      (db : Store F) (b : Budget F) (r₀ r : CheckResult F) (project : Text)
      → check_admitted db b r₀ ≡ ok r
      → r.allowed ≡ true
      → b.project_id ≡ some project
      → leb_ℤ b.max_concurrent_agents (pos 0) ≡ false
      → (n : ℤ) × (db.get_concurrent_admission_runs project ≡ ok n)
        × (ltb_ℤ b.max_concurrent_agents n ≡ false)
  unfolding check_admitted
  check_admitted-counts db b r₀ r project h a p m =
      let h' = rw (p, m, check_admitted) at h in
      elim (Result-cases (db.get_concurrent_admission_runs project)) [
        | inl (n, q) ↦ elim (Bool-cases (ltb_ℤ b.max_concurrent_agents n)) [
          | inl l ↦ let g = rw (q, l) at h' in absurd (ground (arith, ok-injective g, a))
          | inr l ↦ (n, q, l)
        ]
        | inr (e, q) ↦ let g = rw q at h' in cc
      ]

  -- With no database, a run that is under way passes exactly if the budget is unlimited or the cost
  -- and each of the four counters keep to their limits, and a limit of zero or less is none.
  pub check_run-allows :
      (b : Budget F) (s : RunState F)
      → ((check_run none (some b) (some s)).allowed ≡ true) ↔ (
          (is_unlimited b ≡ true)
          ⊎ ((affordable b.max_cost s.cost_so_far ≡ true)
              × (within b.max_runtime_minutes s.duration_minutes ≡ true)
              × (within b.max_model_calls s.model_calls ≡ true)
              × (within b.max_tool_calls s.tool_calls ≡ true)
              × (within b.max_shell_commands s.shell_commands ≡ true)))
  unfolding check_run
  check_run-allows b s = elim (Bool-cases (is_unlimited b)) [
    | inl p ↦ rw p (λ h. inl refl, λ h. refl)
    | inr p ↦
        let t =
          and_true4 (affordable b.max_cost s.cost_so_far)
            (within b.max_runtime_minutes s.duration_minutes)
            (within b.max_model_calls s.model_calls) (within b.max_tool_calls s.tool_calls)
            (within b.max_shell_commands s.shell_commands) in
        rw (p, give_reason-allowed, check_counters-allowed, check_cost-allowed)
          (λ h. inr (t.0 h), λ h. elim h [ inl c ↦ cc | inr g ↦ t.1 g ])
  ]

  -- With a database, a run of a project that `CheckRunStart` lets start, under a budget that is not
  -- unlimited and limits the concurrent runs, was counted: the query gave a number that is not above
  -- the limit.
  pub check_run_start-counted :
      (db : Store F) (b : Budget F) (s : Option (RunState F)) (r : CheckResult F) (project : Text)
      → check_run_start (some db) (some b) s ≡ ok r
      → r.allowed ≡ true
      → is_unlimited b ≡ false
      → b.project_id ≡ some project
      → leb_ℤ b.max_concurrent_agents (pos 0) ≡ false
      → (n : ℤ) × (db.get_concurrent_admission_runs project ≡ ok n)
        × (ltb_ℤ b.max_concurrent_agents n ≡ false)
  unfolding check_run_start
  check_run_start-counted db b s r project h a u p m =
      let c = check_run (some db) (some b) s in
      check_admitted-counts db b c r project
        (gate c r (is_unlimited b) (check_admitted db b c) h a u) a p m
