-- ===== src/Policies/Restrictive.antt =====
-- packages/policies/policy.go: `Evaluate` returns the most restrictive effect that applies.
use dev_plane.Prelude.{
  ◌≤◌, Bool, true, false, ◌≡◌, ◌⊎◌, refl, sym, ◌∙◌, ap, inl, inr, List, [], ◌∷◌, arith, Bool-cases,
  All,
}
use dev_plane.Prelude.Float.{Float}
use dev_plane.Text.{Text}
use dev_plane.Policies.Defs.{
  Effect, order, more_restrictive_than, Value, Policy, EvaluationRequest, applies, evaluate_from,
  evaluate,
}

module _ {F : Type 0} ⦃fl : Float F⦄ (sprint : Value F → Text) (req : EvaluationRequest F) where
  -- The effect `e` is that of a policy of the list that applies.
  abbrev pub Comes : Effect → List (Policy F) → Type 0
  Comes e [] = ⊥
  Comes e (p ∷ ps) = ((applies sprint req p ≡ true) × (e ≡ p.effect)) ⊎ Comes e ps

  -- No policy of the list that applies is more restrictive than `e`.
  abbrev pub Bounds : Effect → List (Policy F) → Type 0
  Bounds e ps = All (λ p. applies sprint req p ≡ true → order p.effect ≤ order e) ps

  -- What the loop makes of a result that it starts from.
  record Result (ps : List (Policy F)) (start e : Effect) (matched matched' : Bool) : Type 0 where
    origin : ((e ≡ start) × (matched' ≡ matched)) ⊎ (Comes e ps × (matched' ≡ true))
    bounds : Bounds e ps
    at_least : matched ≡ true → order start ≤ order e
    quiet : matched' ≡ false → All (λ p. applies sprint req p ≡ false) ps

  skip_Result :
      (p : Policy F) (ps : List (Policy F)) (start e : Effect) (matched matched' : Bool)
      → (applies sprint req p ≡ false) ⊎ ((matched ≡ true) × (order p.effect ≤ order start))
      → Result ps start e matched matched'
      → Result (p ∷ ps) start e matched matched'
  skip_Result p ps start e matched matched' why r = record {
    origin = elim r.origin [ inl o ↦ inl o | inr (c, m) ↦ inr (inr c, m) ];
    bounds =
        (λ a. elim why [ inl no_match ↦ cc | inr (m, le) ↦ omega (arith, r.at_least m) ], r.bounds);
    at_least = r.at_least;
    quiet = λ h. elim why [
      | inl no_match ↦ (no_match, r.quiet h)
      | inr (m, le) ↦ elim r.origin [ inl (q, same) ↦ cc | inr (c, t) ↦ cc ]
    ];
  }

  use_Result :
      (p : Policy F) (ps : List (Policy F)) (start e : Effect) (matched matched' : Bool)
      → applies sprint req p ≡ true
      → (matched ≡ true → order start ≤ order p.effect)
      → Result ps p.effect e true matched'
      → Result (p ∷ ps) start e matched matched'
  use_Result p ps start e matched matched' a le r = record {
    origin = elim r.origin [ inl (q, m) ↦ inr (inl (a, q), m) | inr (c, m) ↦ inr (inr c, m) ];
    bounds = (λ _. r.at_least refl, r.bounds);
    at_least = λ m. omega (arith, r.at_least refl, le m);
    quiet = λ h. elim r.origin [ inl (q, same) ↦ cc | inr (c, t) ↦ cc ];
  }

  evaluate_from-Result :
      (ps : List (Policy F)) (start : Effect) (matched : Bool)
      → Result ps start
          (evaluate_from sprint req ps start matched).0
          matched
          (evaluate_from sprint req ps start matched).1
  unfolding evaluate_from
  evaluate_from-Result [] start matched = record {
    origin = inl (refl, refl);
    bounds = tt;
    at_least = λ h. omega arith;
    quiet = λ h. tt;
  }
  evaluate_from-Result (p ∷ ps) start matched = elim (Bool-cases (applies sprint req p)) [
    | inr a ↦
        rw (evaluate_from, a)
          (skip_Result p ps start _ matched _ (inl a) (evaluate_from-Result ps start matched))
    | inl a ↦ elim (Bool-cases matched) [
      | inr m ↦
          rw (evaluate_from, a, m)
            (use_Result p ps start _ false _ a (λ h. cc) (evaluate_from-Result ps p.effect true))
      | inl m ↦ elim (Bool-cases (more_restrictive_than p.effect start)) [
        | inl g ↦
            rw (evaluate_from, a, m, g)
              (use_Result p ps start _ true _ a (λ h. ground arith)
                (evaluate_from-Result ps p.effect true))
        | inr g ↦
            rw (evaluate_from, a, m, g)
              (skip_Result p ps start _ true _ (inr (refl, ground arith))
                (evaluate_from-Result ps start true))
      ]
    ]
  ]

  none_Comes :
      (e : Effect) (ps : List (Policy F))
      → All (λ p. applies sprint req p ≡ false) ps
      → Comes e ps
      → ⊥
  none_Comes e [] n c = c
  none_Comes e (p ∷ ps) n (inl (a, q)) = cc
  none_Comes e (p ∷ ps) n (inr c) = none_Comes e ps n.1 c

  -- If no policy applies, the engine returns the default effect. Otherwise it returns the effect of a
  -- policy that applies, and no policy that applies is more restrictive.
  pub evaluate-most_restrictive :
      (ps : List (Policy F)) (default : Effect)
      → ((evaluate sprint ps req default ≡ default) × All (λ p. applies sprint req p ≡ false) ps)
        ⊎ (Comes (evaluate sprint ps req default) ps × Bounds (evaluate sprint ps req default) ps)
  unfolding evaluate
  evaluate-most_restrictive ps default =
      let r = evaluate_from-Result ps default false in
      elim (Bool-cases (evaluate_from sprint req ps default false).1) [
        | inr m ↦ elim r.origin [ inl (q, same) ↦ inl (q, r.quiet m) | inr (c, t) ↦ cc ]
        | inl m ↦ elim r.origin [ inl (q, same) ↦ cc | inr (c, t) ↦ inr (c, r.bounds) ]
      ]

  Comes-order :
      (e : Effect) (f : Effect) (ps : List (Policy F))
      → Comes e ps
      → Bounds f ps
      → order e ≤ order f
  Comes-order e f [] c b = absurd c
  Comes-order e f (p ∷ ps) (inl (a, q)) b = omega (arith, ap order q, b.0 a)
  Comes-order e f (p ∷ ps) (inr c) b = Comes-order e f ps c b.1

  -- The same policies in any other order, or with repetitions: as far as both lists hold the same
  -- applicable effects, the results are equally restrictive.
  pub evaluate-order :
      (ps qs : List (Policy F)) (default : Effect)
      → ((e : Effect) → Comes e ps → Comes e qs)
      → ((e : Effect) → Comes e qs → Comes e ps)
      → order (evaluate sprint ps req default) ≡ order (evaluate sprint qs req default)
  evaluate-order ps qs default f g = elim (evaluate-most_restrictive ps default) [
    | inl (d, n) ↦ elim (evaluate-most_restrictive qs default) [
      | inl (d', n') ↦ ap order (d ∙ sym d')
      | inr (c', b') ↦ absurd (none_Comes _ ps n (g _ c'))
    ]
    | inr (c, b) ↦ elim (evaluate-most_restrictive qs default) [
      | inl (d', n') ↦ absurd (none_Comes _ qs n' (f _ c))
      | inr (c', b') ↦ omega (arith, Comes-order _ _ qs (f _ c) b', Comes-order _ _ ps (g _ c') b)
    ]
  ]
