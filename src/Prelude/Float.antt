-- ===== src/Prelude/Float.antt =====
-- Go's `float64`: a type with the operations that the code applies to it. No law of rounding is
-- assumed; a theorem that needs one names it.
use Prim.Native.Nat.{ℕ, ◌+◌, ◌-◌}
use mathlib.Core.Bool.{Bool}
use dev_plane.Prelude.Int.{ℤ, pos, pos_part}
use dev_plane.Prelude.Tests.{ltb, leb}

pub record Float (F : Type 0) : Type 0 where
  pub zero_float : F
  pub add_float : F → F → F
  pub sub_float : F → F → F
  -- `a < b` and `a <= b`, both false when either is NaN
  pub lt_float : F → F → Bool
  pub le_float : F → F → Bool
  -- `float64(n)` and `int(f)`
  pub of_int : ℤ → F
  pub to_int : F → ℤ

module _ {F : Type 0} ⦃fl : Float F⦄ where
  abbrev pub fzero : F
  fzero = fl.zero_float

  abbrev pub fadd : F → F → F
  fadd = fl.add_float

  abbrev pub fsub : F → F → F
  fsub = fl.sub_float

  abbrev pub flt : F → F → Bool
  flt = fl.lt_float

  abbrev pub fle : F → F → Bool
  fle = fl.le_float

  abbrev pub of_int : ℤ → F
  of_int = fl.of_int

  abbrev pub to_int : F → ℤ
  to_int = fl.to_int

-- The natural numbers as exact floats, for the tests.
instance abbrev pub ℕ_float : Float ℕ
ℕ_float = record {
  zero_float = 0;
  add_float = λ a b. a + b;
  sub_float = λ a b. a - b;
  lt_float = ltb;
  le_float = leb;
  of_int = pos_part;
  to_int = pos;
}
