-- ===== src/Text/NoRepeats.antt =====
-- Lists of texts without repetition, and how long they can be.
use dev_plane.Prelude.{
  ◌≤◌, ◌<◌, ◌≡◌, refl, inl, inr, true, false, List, [], ◌∷◌, ◌++◌, length, arith, Bool-cases, All,
}
use dev_plane.Text.Defs.{Text, text_eq, mem_text, remove_text}
use dev_plane.Text.Laws.{text_eq_iff, text_eq_comm, mem_text-append, text_eq_refl}

abbrev pub Distinct : List Text → Type 0
Distinct [] = Unit
Distinct (x ∷ xs) = (mem_text x xs ≡ false) × Distinct xs

-- every element of `xs` is one of `ys`
abbrev pub Within : List Text → List Text → Type 0
Within xs ys = All (λ x. mem_text x ys ≡ true) xs

pub Within-cons : (xs ys : List Text) (y : Text) → Within xs ys → Within xs (y ∷ ys)
unfolding mem_text
Within-cons [] ys y h = tt
Within-cons (x ∷ xs) ys y h = (ground (arith, h.0), Within-cons xs ys y h.1)

pub Within-refl : (xs : List Text) → Within xs xs
unfolding mem_text
Within-refl [] = tt
Within-refl (x ∷ xs) = (ground (arith, text_eq_refl x), Within-cons xs xs x (Within-refl xs))

pub mem_of_Within :
    (x : Text) (xs ys : List Text) → Within xs ys → mem_text x xs ≡ true → mem_text x ys ≡ true
unfolding mem_text
mem_of_Within x [] ys h m = cc
mem_of_Within x (y ∷ xs) ys h m = elim (Bool-cases (text_eq x y)) [
  | inl e ↦ ground (arith, text_eq_iff x y, h.0)
  | inr e ↦ mem_of_Within x xs ys h.1 (ground arith)
]

pub Within-trans : (xs ys zs : List Text) → Within xs ys → Within ys zs → Within xs zs
Within-trans [] ys zs h k = tt
Within-trans (x ∷ xs) ys zs h k = (mem_of_Within x ys zs k h.0, Within-trans xs ys zs h.1 k)

mem_text-remove :
    (x y : Text) (ys : List Text)
    → text_eq y x ≡ false
    → mem_text x (remove_text y ys) ≡ mem_text x ys
unfolding mem_text remove_text
mem_text-remove x y [] h = refl
mem_text-remove x y (z ∷ ys) h =
    ground (arith, mem_text-remove x y ys h, text_eq_iff y z, text_eq_iff x z, text_eq_iff y x)

remove_text-shorter :
    (y : Text) (ys : List Text)
    → (length (remove_text y ys) ≤ length ys)
      × (mem_text y ys ≡ true → length (remove_text y ys) < length ys)
unfolding mem_text remove_text
remove_text-shorter y [] = ground arith
remove_text-shorter y (z ∷ ys) = ground (arith, remove_text-shorter y ys)

Within-remove :
    (xs ys : List Text) (y : Text)
    → mem_text y xs ≡ false
    → Within xs ys
    → Within xs (remove_text y ys)
unfolding mem_text
Within-remove [] ys y a h = tt
Within-remove (x ∷ xs) ys y a h =
    (ground (arith, mem_text-remove x y ys, h.0), Within-remove xs ys y (ground arith) h.1)

-- A list without repetition is no longer than a list that holds all of its elements.
pub length-Distinct_le : (xs ys : List Text) → Distinct xs → Within xs ys → length xs ≤ length ys
length-Distinct_le [] ys d h = omega arith
length-Distinct_le (x ∷ xs) ys d h = omega (
  arith,
  length-Distinct_le xs (remove_text x ys) d.1 (Within-remove xs ys x d.0 h.1),
  (remove_text-shorter x ys).1 h.0,
)

pub Distinct-append :
    (xs ys : List Text)
    → Distinct xs
    → Distinct ys
    → All (λ y. mem_text y xs ≡ false) ys
    → Distinct (xs ++ ys)
unfolding mem_text
Distinct-append [] ys dx dy h = dy
Distinct-append (x ∷ xs) ys dx dy h = (
  ground (arith, mem_text-append x xs ys, apart ys h),
  Distinct-append xs ys dx.1 dy (weaken ys h),
)
  where
    apart : (zs : List Text) → All (λ y. mem_text y (x ∷ xs) ≡ false) zs → mem_text x zs ≡ false
    apart [] k = refl
    apart (z ∷ zs) k = ground (arith, apart zs k.1, k.0, text_eq_comm x z)

    weaken :
        (zs : List Text)
        → All (λ y. mem_text y (x ∷ xs) ≡ false) zs
        → All (λ y. mem_text y xs ≡ false) zs
    weaken [] k = tt
    weaken (z ∷ zs) k = (ground (arith, k.0), weaken zs k.1)

-- Distinct elements that fill all the places are all the elements.
pub mem_of_length :
    (x : Text) (xs ys : List Text)
    → Distinct xs
    → Within xs ys
    → length ys ≤ length xs
    → mem_text x ys ≡ true
    → mem_text x xs ≡ true
mem_of_length x xs ys d h l m = elim (Bool-cases (mem_text x xs)) [
  | inl e ↦ e
  | inr e ↦ absurd (omega (arith, length-Distinct_le (x ∷ xs) ys (e, d) (m, h)))
]
