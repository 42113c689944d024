-- ===== src/Execution/Identity.antt =====
-- packages/execution/execution.go: `NewOperationID` gives different operations different identities.
use dev_plane.Prelude.{
  ℕ, zero, suc, ◌+◌, ◌*◌, ◌-◌, ◌/◌, ◌%◌, ◌≤◌, true, false, ◌≡◌, ◌↔◌, refl, sym, ◌∙◌, ap, [], ◌∷◌,
  ◌++◌, ok, arith, Bool-cases, inl, inr, ltb,
}
use dev_plane.Text.{Text, codes, text_eq, text_eq_iff, contains_rune}
use dev_plane.Execution.Defs.{
  Activation, OperationKind, kind_text, known_kind, validate_activation, invalid_token,
  operation_payload, digits_from, format_uint, join_nul,
}
use dev_plane.Execution.Effects.{new_operation_id}

value_from : ℕ → Text → ℕ
value_from n [] = n
value_from n (c ∷ s) = value_from (n * 10 + (c - 48)) s

value-digits :
    (fuel n : ℕ) (rest : Text)
    → n ≤ fuel
    → value_from 0 (digits_from fuel n rest) ≡ value_from n rest
unfolding digits_from value_from
value-digits zero n rest h = ap (λ k. value_from k rest) (omega arith)
value-digits (suc fuel) n rest h = elim (Bool-cases (ltb n 10)) [
  | inl e ↦ rw e (ap (λ k. value_from k rest) (omega arith))
  | inr e ↦ rw e (
      value-digits fuel (n / 10) ((48 + n % 10) ∷ rest) (ground arith)
      ∙ ap (λ k. value_from k rest) (ground arith))
]

-- strconv.FormatUint is injective: the number can be read back.
pub format_uint-injective : (n m : ℕ) → format_uint n ≡ format_uint m → n ≡ m
unfolding format_uint value_from
format_uint-injective n m h =
    sym (value-digits n n [] (omega arith))
    ∙ ap (value_from 0) h
    ∙ value-digits m m [] (omega arith)

-- A text without NUL can be told apart from what is joined behind it.
pub split_nul :
    (a b s t : Text)
    → contains_rune a 0 ≡ false
    → contains_rune b 0 ≡ false
    → a ++ 0 ∷ s ≡ b ++ 0 ∷ t
    → (a ≡ b) × (s ≡ t)
unfolding contains_rune
split_nul [] [] s t p q h = ground arith
split_nul [] (d ∷ b) s t p q h = ground arith
split_nul (c ∷ a) [] s t p q h = ground arith
split_nul (c ∷ a) (d ∷ b) s t p q h = ground (arith, split_nul a b s t)

known_no_nul : (k : OperationKind) → known_kind k ≡ true → contains_rune (kind_text k) 0 ≡ false
unfolding known_kind
known_no_nul k h = elim (Bool-cases (text_eq (kind_text k) (codes "event"))) [
  | inl e ↦ rw ((text_eq_iff (kind_text k) (codes "event")).0 e) (unfold contains_rune in refl)
  | inr e ↦
      rw ((text_eq_iff (kind_text k) (codes "effect")).0 (ground arith))
        (unfold contains_rune in refl)
]

-- What an id that was made tells of its parts.
record Named (hash : Text → Text) (a : Activation) (k : OperationKind) (n : ℕ) (id : Text)
    : Type 0 where
  run_clean : contains_rune a.run_id 0 ≡ false
  id_clean : contains_rune a.id 0 ≡ false
  known : known_kind k ≡ true
  made : id ≡ codes "dp1_" ++ hash (operation_payload a k n)

new_operation_id-Named :
    (hash : Text → Text) (a : Activation) (k : OperationKind) (n : ℕ) (id : Text)
    → new_operation_id hash a k n ≡ ok id
    → Named hash a k n id
unfolding new_operation_id validate_activation invalid_token
new_operation_id-Named hash a k n id h = ground arith

prefix-injective : (s t : Text) → codes "dp1_" ++ s ≡ codes "dp1_" ++ t → s ≡ t
prefix-injective s t h = cc

payload-injective :
    (a b : Activation) (k l : OperationKind) (n m : ℕ)
    → contains_rune a.run_id 0 ≡ false
    → contains_rune b.run_id 0 ≡ false
    → contains_rune a.id 0 ≡ false
    → contains_rune b.id 0 ≡ false
    → known_kind k ≡ true
    → known_kind l ≡ true
    → operation_payload a k n ≡ operation_payload b l m
    → (a.run_id ≡ b.run_id) × (a.id ≡ b.id) × (kind_text k ≡ kind_text l) × (n ≡ m)
unfolding operation_payload join_nul
payload-injective a b k l n m ra rb ia ib ka kb h =
    let domain = codes "dev-plane/execution/v1" in
    let (_, h1) =
      split_nul domain domain _ _ (unfold contains_rune in refl) (unfold contains_rune in refl) h in
    let (r, h2) = split_nul a.run_id b.run_id _ _ ra rb h1 in
    let (i, h3) = split_nul a.id b.id _ _ ia ib h2 in
    let (k', h4) =
      split_nul (kind_text k) (kind_text l) _ _ (known_no_nul k ka) (known_no_nul l kb) h3 in
    (r, i, k', format_uint-injective n m h4)

same_payload :
    (a b : Activation) (k l : OperationKind) (n m : ℕ)
    → (a.run_id ≡ b.run_id) × (a.id ≡ b.id) × (kind_text k ≡ kind_text l) × (n ≡ m)
    → operation_payload a k n ≡ operation_payload b l m
unfolding operation_payload
same_payload a b k l n m (r, i, t, o) = rw (r, i, t, o) refl

-- Where the hash has no collisions, two operations that get an identity have the same one exactly
-- if they are of one run, of one activation, of one kind and at one ordinal, whatever the epochs
-- are.
pub new_operation_id-injective :
    (hash : Text → Text)
    → ((s t : Text) → hash s ≡ hash t → s ≡ t)
    → (a b : Activation) (k l : OperationKind) (n m : ℕ) (id other_id : Text)
    → new_operation_id hash a k n ≡ ok id
    → new_operation_id hash b l m ≡ ok other_id
    → (id ≡ other_id)
      ↔ ((a.run_id ≡ b.run_id) × (a.id ≡ b.id) × (kind_text k ≡ kind_text l) × (n ≡ m))
new_operation_id-injective hash inj a b k l n m id other_id h g =
    let p = new_operation_id-Named hash a k n id h in
    let q = new_operation_id-Named hash b l m other_id g in
    (
      λ same.
          payload-injective a b k l n m p.run_clean q.run_clean p.id_clean q.id_clean p.known
            q.known (inj _ _ (prefix-injective _ _ (sym p.made ∙ same ∙ q.made))),
      λ parts.
          p.made ∙ ap (λ s. codes "dp1_" ++ hash s) (same_payload a b k l n m parts) ∙ sym q.made,
    )
