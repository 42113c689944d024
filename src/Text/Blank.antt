-- ===== src/Text/Blank.antt =====
-- Texts of white space only: what `strings.TrimSpace` makes empty.
use mathlib.Core.List.{reverse-cons}
use dev_plane.Prelude.{
  ℕ, Bool, false, ◌&&◌, ◌≡◌, refl, sym, ◌∙◌, ap, [], ◌∷◌, ◌++◌, reverse, arith, all, is_empty,
  Bool-cases, inl, inr,
}
use dev_plane.Text.Defs.{Text, is_space, trim_left, trim_space}

all-append : (p : ℕ → Bool) (s t : Text) → all p (s ++ t) ≡ (all p s && all p t)
unfolding all
all-append p [] t = refl
all-append p (c ∷ s) t = ground (arith, all-append p s t)

all-reverse : (p : ℕ → Bool) (s : Text) → all p (reverse s) ≡ all p s
unfolding all
all-reverse p [] = refl
all-reverse p (c ∷ s) =
    ap (all p) (reverse-cons c s)
    ∙ ground (arith, all-append p (reverse s) (c ∷ []), all-reverse p s)

trim_left-blank :
    (s : Text)
    → (is_empty (trim_left s) ≡ all is_space s) × (all is_space (trim_left s) ≡ all is_space s)
unfolding trim_left all
trim_left-blank [] = (refl, refl)
trim_left-blank (c ∷ s) = elim (Bool-cases (is_space c)) [
  | inl e ↦ rw e (trim_left-blank s)
  | inr e ↦ rw e (refl, rw e)
]

is_empty-reverse : (s : Text) → is_empty (reverse s) ≡ is_empty s
is_empty-reverse [] = refl
is_empty-reverse (c ∷ s) = ap is_empty (reverse-cons c s) ∙ tail (reverse s)
  where
    tail : (t : Text) → is_empty (t ++ c ∷ []) ≡ false
    tail [] = refl
    tail (d ∷ t) = refl

trim_space-blank :
    (s : Text)
    → (is_empty (trim_space s) ≡ all is_space s) × (all is_space (trim_space s) ≡ all is_space s)
unfolding trim_space
trim_space-blank s =
    let inner = trim_left-blank s in
    let turned = all-reverse is_space (trim_left s) in
    let outer = trim_left-blank (reverse (trim_left s)) in
    (
      is_empty-reverse (trim_left (reverse (trim_left s))) ∙ outer.0 ∙ turned ∙ inner.1,
      all-reverse is_space (trim_left (reverse (trim_left s))) ∙ outer.1 ∙ turned ∙ inner.1,
    )

-- a text that is not blank is not blank when it is trimmed
pub trim_space-twice_blank :
    (s : Text) → is_empty (trim_space (trim_space s)) ≡ is_empty (trim_space s)
trim_space-twice_blank s =
    (trim_space-blank (trim_space s)).0 ∙ (trim_space-blank s).1 ∙ sym (trim_space-blank s).0
