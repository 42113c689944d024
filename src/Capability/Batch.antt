-- ===== src/Capability/Batch.antt =====
-- apps/api/internal/capability/kernel.go: what `EvaluateBatch` makes of its operations.
use mathlib.Core.List.{Memᴰ}
use dev_plane.Prelude.{
  ◌≤◌, ◌<◌, true, false, ◌||◌, ◌≡◌, refl, subst, ◌∙◌, ap, inl, inr, none, List, [], ◌∷◌, ok,
  ok-injective, arith, Bool-cases, Option-cases,
}
use dev_plane.Prelude.Float.{Float}
use dev_plane.Text.{Text}
use dev_plane.Policies.{
  Effect, allow, ask, deny, admin_only, other, Value, order, more_restrictive_than,
}
use dev_plane.Capability.Defs.{Request, Decision, is_deny, no_reason, low}
use dev_plane.Capability.Kernel.{
  Kernel, Outcome, is_ask, is_admin_effect, evaluate_request, absorb, batch_from, evaluate_batch,
}
use dev_plane.Capability.Decisions.{evaluate_request-IsSound}

is_deny-order : (e : Effect) → is_deny e ≡ true → order e ≡ 2
is_deny-order deny h = refl
is_deny-order allow h = cc
is_deny-order ask h = cc
is_deny-order admin_only h = cc
is_deny-order (other t) h = cc

module _ {F : Type 0} ⦃fl : Float F⦄ (sprint : Value F → Text) (k : Kernel F)
    (req : Request F) where
  -- the outcome of one operation of the batch
  abbrev pub outcome : Text → Outcome F
  outcome op = evaluate_request sprint k (record req { operation = op })

  abbrev start : Decision F
  start = record {
    effect = allow;
    required_approval = false;
    audit_required = false;
    reason = no_reason;
    risk_level = low;
    requested_grant = none;
  }

  absorb-order :
      (overall d : Decision F)
      → (order overall.effect ≤ order (absorb sprint overall d).effect)
        × (order d.effect ≤ order (absorb sprint overall d).effect)
  unfolding absorb
  absorb-order overall d = ground arith

  batch_from-covers :
      (ops : List Text) (overall d : Decision F)
      → batch_from sprint k req ops overall ≡ ok d
      → (order overall.effect ≤ order d.effect)
        × ((op : Text)
            → Memᴰ op ops
            → order d.effect < 2
            → ((outcome op).error ≡ none) × (order (outcome op).decision.effect ≤ order d.effect))
  unfolding batch_from
  batch_from-covers [] overall d h = (ground (arith, h), λ op i. elim i [ ])
  batch_from-covers (op ∷ ops) overall d h =
      let o = outcome op in
      let overall' = absorb sprint overall o.decision in
      let mono = absorb-order overall o.decision in
      elim (Option-cases o.error) [
        | inr (e, p) ↦ let r = rw (p, batch_from) at h in cc
        | inl p ↦ elim (Bool-cases (is_deny o.decision.effect)) [
          | inl q ↦
              let same : overall' ≡ d = ok-injective (rw (p, q, batch_from) at h) in
              (
                rw (← same) mono.0,
                λ op' i small. absurd (
                    ground (
                      arith,
                      is_deny-order o.decision.effect q,
                      mono.1,
                      ap (λ (x : Decision F). order x.effect) same,
                    )),
              )
          | inr q ↦
              let rest = batch_from-covers ops overall' d (rw (p, q, batch_from) at h) in
              (
                ground (arith, rest.0, mono.0),
                λ op' i small. elim i [
                  | Memᴰ.head e ↦ rw e (p, ground (arith, rest.0, mono.1))
                  | Memᴰ.tail j ↦ rest.1 op' j small
                ],
              )
        ]
      ]

  -- approval is required exactly for `ask` and `admin_only`
  abbrev IsMarked : Decision F → Type 0
  IsMarked d = d.required_approval ≡ (is_ask d.effect || is_admin_effect d.effect)

  absorb-approval :
      (overall d : Decision F)
      → IsMarked overall
      → IsMarked d
      → let r = absorb sprint overall d in IsMarked r
  unfolding absorb
  absorb-approval overall d a b = ground arith

  batch_from-approval :
      (ops : List Text) (overall d : Decision F)
      → IsMarked overall
      → batch_from sprint k req ops overall ≡ ok d
      → IsMarked d
  unfolding batch_from
  batch_from-approval [] overall d a h = subst IsMarked (ok-injective h) a
  batch_from-approval (op ∷ ops) overall d a h =
      let o = outcome op in
      let overall' = absorb sprint overall o.decision in
      let a' =
        absorb-approval overall o.decision a
          (evaluate_request-IsSound sprint k (record req { operation = op })).approval in
      elim (Option-cases o.error) [
        | inr (e, p) ↦ let r = rw (p, batch_from) at h in cc
        | inl p ↦ elim (Bool-cases (is_deny o.decision.effect)) [
          | inl q ↦ subst IsMarked (ok-injective (rw (p, q, batch_from) at h)) a'
          | inr q ↦ batch_from-approval ops overall' d a' (rw (p, q, batch_from) at h)
        ]
      ]

  -- A batch whose result is neither a denial nor `admin_only` has evaluated each of its operations,
  -- without an error, and its effect is at least as restrictive as each of theirs; it requires approval
  -- exactly if its effect is `ask` or `admin_only`.
  pub evaluate_batch-covers :
      (ops : List Text) (d : Decision F) (op : Text)
      → evaluate_batch sprint k req ops ≡ ok d
      → Memᴰ op ops
      → order d.effect < 2
      → (d.required_approval ≡ (is_ask d.effect || is_admin_effect d.effect))
        × ((outcome op).error ≡ none)
        × (order (outcome op).decision.effect ≤ order d.effect)
  unfolding evaluate_batch
  evaluate_batch-covers ops d op h i small =
      let c = (batch_from-covers ops _ d h).1 op i small in
      (batch_from-approval ops _ d refl h, c.0, c.1)

  batch_from-passes :
      (op : Text) (ops : List Text) (overall : Decision F)
      → (outcome op).error ≡ none
      → is_deny (outcome op).decision.effect ≡ false
      → batch_from sprint k req (op ∷ ops) overall
        ≡ batch_from sprint k req ops (absorb sprint overall (outcome op).decision)
  unfolding batch_from
  batch_from-passes op ops overall p q = rw (batch_from, p, q) refl

  batch_from-stops :
      (op : Text) (ops : List Text) (overall : Decision F)
      → (outcome op).error ≡ none
      → is_deny (outcome op).decision.effect ≡ true
      → batch_from sprint k req (op ∷ ops) overall
        ≡ ok (absorb sprint overall (outcome op).decision)
  unfolding batch_from
  batch_from-stops op ops overall p q = rw (batch_from, p, q) refl

  absorb-keeps :
      (overall d : Decision F)
      → more_restrictive_than d.effect overall.effect ≡ false
      → absorb sprint overall d ≡ overall
  unfolding absorb
  absorb-keeps overall d h = rw h refl

  -- A denial behind an `admin_only` operation is dropped: the batch of the two asks for approval,
  -- while the batch in the other order is denied. Both need that neither evaluation fails.
  pub evaluate_batch-order_matters :
      (a b : Text)
      → (outcome a).error ≡ none
      → (outcome b).error ≡ none
      → (outcome a).decision.effect ≡ admin_only
      → (outcome b).decision.effect ≡ deny
      → ((d : Decision F) × (evaluate_batch sprint k req (a ∷ b ∷ []) ≡ ok d)
          × (d.effect ≡ admin_only)
          × (d.required_approval ≡ true))
        × ((d : Decision F) × (evaluate_batch sprint k req (b ∷ a ∷ []) ≡ ok d)
            × (d.effect ≡ deny)
            × (d.required_approval ≡ false))
  unfolding evaluate_batch absorb
  evaluate_batch-order_matters a b ea eb p q =
      let da = absorb sprint start (outcome a).decision in
      let db = absorb sprint start (outcome b).decision in
      let sound = λ (op : Text).
        (evaluate_request-IsSound sprint k (record req { operation = op })).approval in
      (
        (
          da,
          batch_from-passes a (b ∷ []) start ea (ap is_deny p)
              ∙ batch_from-stops b [] da eb (ap is_deny q)
              ∙ ap ok (absorb-keeps da (outcome b).decision (rw (p, q) refl)),
          rw p refl,
          rw p (rw p at (sound a)),
        ),
        (
          db,
          batch_from-stops b (a ∷ []) start eb (ap is_deny q),
          rw q refl,
          rw q (rw q at (sound b)),
        ),
      )
