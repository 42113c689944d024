-- ===== src/Policies/Details.antt =====
-- packages/policies/policy.go: `EvaluateWithDetails` beside `Evaluate`.
use mathlib.Core.List.{append-nil, append_assoc}
use dev_plane.Prelude.{
  true, false, not, ◌≡◌, refl, sym, ◌∙◌, inl, inr, List, [], ◌∷◌, ◌++◌, is_empty, if◌then◌else◌,
  Bool-cases,
}
use dev_plane.Prelude.Float.{Float}
use dev_plane.Text.{Text}
use dev_plane.Policies.Defs.{
  Effect, Value, Policy, EvaluationRequest, more_restrictive_than, applies, evaluate_from, evaluate,
  evaluate_details_from, evaluate_with_details,
}

appended : (ts : List Text) (t : Text) → is_empty (ts ++ t ∷ []) ≡ false
appended [] t = refl
appended (x ∷ ts) t = refl

pair_eq :
    {e f : Effect} {ts us : List Text}
    → e ≡ f
    → ts ≡ us
    → ◌≡◌ {A = Effect × List Text} (e, ts) (f, us)
pair_eq p q = λ i. (p i, q i)

module _ {F : Type 0} ⦃fl : Float F⦄ (sprint : Value F → Text) (req : EvaluationRequest F) where
  -- the names of the policies that apply, in their order
  abbrev pub applicable : List (Policy F) → List Text
  applicable [] = []
  applicable (p ∷ ps) =
      let rest = applicable ps in if applies sprint req p then p.name ∷ rest else rest

  abbrev Agree : List (Policy F) → Effect → List Text → Type 0
  Agree ps result matched =
      ((evaluate_details_from sprint req ps result matched).0
        ≡ (evaluate_from sprint req ps result (not (is_empty matched))).0)
      × ((evaluate_details_from sprint req ps result matched).1 ≡ matched ++ applicable ps)

  later_agrees :
      (p : Policy F) (ps : List (Policy F)) (r : Effect) (matched : List Text)
      → Agree ps r (matched ++ p.name ∷ [])
      → ((evaluate_details_from sprint req ps r (matched ++ p.name ∷ [])).0
          ≡ (evaluate_from sprint req ps r true).0)
        × ((evaluate_details_from sprint req ps r (matched ++ p.name ∷ [])).1
            ≡ matched ++ p.name ∷ applicable ps)
  later_agrees p ps r matched h = (
    rw (appended matched p.name) at h.0,
    h.1 ∙ append_assoc matched (p.name ∷ []) (applicable ps),
  )

  details_from-agrees :
      (ps : List (Policy F)) (result : Effect) (matched : List Text) → Agree ps result matched
  unfolding evaluate_details_from evaluate_from
  details_from-agrees [] result matched = (refl, sym (append-nil matched))
  details_from-agrees (p ∷ ps) result matched = elim (Bool-cases (applies sprint req p)) [
    | inr a ↦ rw a (details_from-agrees ps result matched)
    | inl a ↦
        let later = λ (r : Effect).
          later_agrees p ps r matched (details_from-agrees ps r (matched ++ p.name ∷ [])) in
        elim (Bool-cases (is_empty matched)) [
          | inl e ↦ rw (a, e) (later p.effect)
          | inr e ↦ elim (Bool-cases (more_restrictive_than p.effect result)) [
            | inl m ↦ rw (a, e, m) (later p.effect)
            | inr m ↦ rw (a, e, m) (later result)
          ]
        ]
  ]

  -- `EvaluateWithDetails` returns the effect of `Evaluate` with the names of the policies that apply,
  -- in the order of the engine.
  pub evaluate_with_details-agrees :
      (ps : List (Policy F)) (default : Effect)
      → evaluate_with_details sprint ps req default
        ≡ (evaluate sprint ps req default, applicable ps)
  unfolding evaluate_with_details evaluate
  evaluate_with_details-agrees ps default =
      let a = details_from-agrees ps default [] in pair_eq a.0 a.1
