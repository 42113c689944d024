-- ===== src/Prelude/Results.antt =====
-- Go's `(value, error)` results: a value or an error, and `do` over them.
use mathlib.Core.Path.{◌≡◌, refl}
use mathlib.Core.Logic.{◌⊎◌, inl, inr}
use mathlib.Core.Bool.{Bool, true, false}

pub data Result {ℓ} (E : Type ℓ) (A : Type ℓ) : Type ℓ where
  ok : A → Result E A
  err : E → Result E A

-- the two constructors are injective and apart
pub ok-injective {ℓ} : {E A : Type ℓ} {a b : A} → ◌≡◌ {A = Result E A} (ok a) (ok b) → a ≡ b
ok-injective h = cc

pub not-err-ok {ℓ} : {E A : Type ℓ} {a : A} {e : E} → ◌≡◌ {A = Result E A} (err e) (ok a) → ⊥
not-err-ok h = cc

-- `if test { return err }`
abbrev pub fail_if : {E : Type 0} → Bool → E → Result E (Unit {0})
fail_if b e = elim b [ true ↦ err e | false ↦ ok tt ]

pub fail_if-eq-ok : {E : Type 0} (b : Bool) (e : E) {u : Unit} → fail_if b e ≡ ok u → b ≡ false
fail_if-eq-ok true e h = cc
fail_if-eq-ok false e h = refl

infixl 5 ◌>>=◌ ◌>>◌
abbrev pub ◌>>=◌ {ℓ} : {E A B : Type ℓ} → Result E A → (A → Result E B) → Result E B
step >>= rest = elim step [ ok value ↦ rest value | err failure ↦ err failure ]

-- what a chain that went through, and one that failed, tell of its first step
pub >>=-eq-ok {ℓ} :
    {E A B : Type ℓ} (step : Result E A) (rest : A → Result E B) {last : B}
    → (step >>= rest) ≡ ok last
    → (value : A) × (step ≡ ok value) × (rest value ≡ ok last)
>>=-eq-ok (ok value) rest h = (value, refl, h)
>>=-eq-ok (err failure) rest h = cc

pub >>=-eq-err {ℓ} :
    {E A B : Type ℓ} (step : Result E A) (rest : A → Result E B) {failure : E}
    → (step >>= rest) ≡ err failure
    → (step ≡ err failure) ⊎ ((value : A) × (step ≡ ok value) × (rest value ≡ err failure))
>>=-eq-err (ok value) rest h = inr (value, refl, h)
>>=-eq-err (err failure) rest h = inl cc

abbrev pub ◌>>◌ {ℓ} : {E A B : Type ℓ} → Result E A → Result E B → Result E B
step >> after = step >>= λ _. after
