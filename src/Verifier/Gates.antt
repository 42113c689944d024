-- ===== src/Verifier/Gates.antt =====
-- packages/verifier/verifier.go: the gates that `resolveGates` finds.
use dev_plane.Prelude.{
  Bool, true, false, ◌||◌, ◌&&◌, not, ◌≡◌, refl, sym, ◌∙◌, ap, inl, inr, none, List, [], ◌∷◌, ◌++◌,
  ok, ok-injective, arith, Bool-cases, not-err-ok, ◌≢◌, Option-cases, is_empty,
}
use dev_plane.Text.{
  Text, text_eq, mem_text, mem_text-append, text_eq_iff, Distinct, Distinct-append, trim_space,
}
use dev_plane.Protocol.{Config, required_gates_for_paths}
use dev_plane.Verifier.Defs.{
  append_unique, append_all, find_profile, is_review, split_gates, resolve_gates,
}

-- some of the gates is the given one when trimmed
abbrev pub names : Text → List Text → Bool
names g [] = false
names g (raw ∷ gates) = text_eq g (trim_space raw) || names g gates

append_unique-mem :
    (g : Text) (required : List Text) (raw : Text)
    → mem_text g (append_unique required raw)
      ≡ (mem_text g required || not (is_empty g) && text_eq g (trim_space raw))
unfolding append_unique mem_text
append_unique-mem g required raw = elim (Bool-cases (is_empty (trim_space raw))) [
  | inl blank ↦ rw blank (ground (arith, text_eq_iff g (trim_space raw)))
  | inr named ↦ elim (Bool-cases (mem_text (trim_space raw) required)) [
    | inl old ↦ rw (named, old) (ground (arith, text_eq_iff g (trim_space raw)))
    | inr new ↦
        rw (named, new)
          (ground (
            arith,
            mem_text-append g required (trim_space raw ∷ []),
            text_eq_iff g (trim_space raw),
          ))
  ]
]

append_unique-Distinct :
    (required : List Text) (raw : Text) → Distinct required → Distinct (append_unique required raw)
unfolding append_unique mem_text
append_unique-Distinct required raw d = elim (Bool-cases (is_empty (trim_space raw))) [
  | inl blank ↦ rw blank d
  | inr named ↦ elim (Bool-cases (mem_text (trim_space raw) required)) [
    | inl old ↦ rw (named, old) d
    | inr new ↦
        rw (named, new) (Distinct-append required (trim_space raw ∷ []) d (refl, tt) (new, tt))
  ]
]

append_all-mem :
    (g : Text) (required gates : List Text)
    → mem_text g (append_all required gates)
      ≡ (mem_text g required || not (is_empty g) && names g gates)
unfolding append_all
append_all-mem g required [] = ground arith
append_all-mem g required (raw ∷ gates) =
    append_all-mem g (append_unique required raw) gates
    ∙ ground (arith, append_unique-mem g required raw)

append_all-Distinct :
    (required gates : List Text) → Distinct required → Distinct (append_all required gates)
unfolding append_all
append_all-Distinct required [] d = d
append_all-Distinct required (raw ∷ gates) d =
    append_all-Distinct (append_unique required raw) gates (append_unique-Distinct required raw d)

abbrev SameReview : (g gate : Text) → Type 0
SameReview g gate = text_eq g gate ≡ true → is_review g ≡ is_review gate

review_eq : (g gate : Text) → SameReview g gate
review_eq g gate e = ap is_review ((text_eq_iff g gate).0 e)

-- What the split of gates leaves, behind what it had.
record Split (c : Config) (old_e old_p gates executable pending : List Text) : Type 0 where
  runs :
      (g : Text)
      → mem_text g executable ≡ (mem_text g old_e || mem_text g gates && not (is_review g))
  waits : (g : Text) → mem_text g pending ≡ (mem_text g old_p || mem_text g gates && is_review g)
  known :
      (g : Text)
      → mem_text g gates ≡ true
      → is_review g ≡ false
      → find_profile c.verification g ≢ none

split_gates-Split :
    (c : Config) (old_e old_p gates executable pending : List Text)
    → split_gates c old_e old_p gates ≡ ok (executable, pending)
    → Split c old_e old_p gates executable pending
unfolding split_gates mem_text
split_gates-Split c old_e old_p [] executable pending h =
    let e = ok-injective h in
    record {
      runs = λ g. sym (ap (λ (p : List Text × List Text). mem_text g p.0) e) ∙ ground arith;
      waits = λ g. sym (ap (λ (p : List Text × List Text). mem_text g p.1) e) ∙ ground arith;
      known = λ g m. cc;
    }
split_gates-Split c old_e old_p (gate ∷ gates) executable pending h =
    elim (Bool-cases (is_review gate)) [
      | inl review ↦
          let s =
            split_gates-Split c old_e (old_p ++ gate ∷ []) gates executable pending
              (rw review at h) in
          record {
            runs = λ g. s.runs g ∙ ground (arith, review_eq g gate, review);
            waits = λ g.
                s.waits g
                ∙ ground (arith, mem_text-append g old_p (gate ∷ []), review_eq g gate, review);
            known = λ g m r. s.known g (ground (arith, review_eq g gate, review, m, r)) r;
          }
      | inr other ↦ elim (Option-cases (find_profile c.verification gate)) [
        | inl none_ ↦ absurd (not-err-ok (rw (other, none_) at h))
        | inr (p, found) ↦
            let s =
              split_gates-Split c (old_e ++ gate ∷ []) old_p gates executable pending
                (rw (other, found) at h) in
            record {
              runs = λ g.
                  s.runs g
                  ∙ ground (arith, mem_text-append g old_e (gate ∷ []), review_eq g gate, other);
              waits = λ g. s.waits g ∙ ground (arith, review_eq g gate, other);
              known = λ g m r. elim (Bool-cases (text_eq g gate)) [
                | inl e ↦ rw ((text_eq_iff g gate).0 e, found) (λ z. cc)
                | inr e ↦ s.known g (ground arith) r
              ];
            }
      ]
    ]

-- the work item or a rule that the changed paths match requires the gate
abbrev pub wanted : Config → List Text → List Text → Text → Bool
wanted c work changed g =
    not (is_empty g) && (names g work || names g (required_gates_for_paths c changed))

-- The required gates, those of the work item and those of the changed paths, are shared out: reviews
-- and approvals are pending, and every other gate is executable and has a profile.
pub resolve_gates_lem :
    (c : Config) (work changed executable pending : List Text) (g : Text)
    → resolve_gates c work changed ≡ ok (executable, pending)
    → (mem_text g executable ≡ (wanted c work changed g && not (is_review g)))
      × (mem_text g pending ≡ (wanted c work changed g && is_review g))
      × (mem_text g executable ≡ true → find_profile c.verification g ≢ none)
unfolding resolve_gates mem_text
resolve_gates_lem c work changed executable pending g h =
    let front = append_all [] work in
    let more = required_gates_for_paths c changed in
    let s = split_gates-Split c [] [] (append_all front more) executable pending h in
    let m : mem_text g (append_all front more) ≡ wanted c work changed g =
      append_all-mem g front more ∙ ground (arith, append_all-mem g [] work) in
    (
      s.runs g ∙ ground (arith, m),
      s.waits g ∙ ground (arith, m),
      λ i. s.known g (ground (arith, s.runs g, i)) (ground (arith, s.runs g, i)),
    )
