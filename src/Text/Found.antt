-- ===== src/Text/Found.antt =====
-- The element of a list that has a given text.
use mathlib.Core.List.{Memᴰ}
use dev_plane.Prelude.{◌≡◌, refl, sym, true, List, [], ◌∷◌, map, arith, Bool-cases, inl, inr}
use dev_plane.Text.Defs.{Text, text_eq, mem_text}
use dev_plane.Text.Laws.{text_eq_iff}

pub find_by :
    {A : Type 0} (f : A → Text) (id : Text) (xs : List A)
    → mem_text id (map f xs) ≡ true
    → (x : A) × Memᴰ x xs × (f x ≡ id)
unfolding mem_text
find_by f id [] h = cc
find_by f id (x ∷ xs) h = elim (Bool-cases (text_eq id (f x))) [
  | inl e ↦ (x, Memᴰ.head refl, sym ((text_eq_iff id (f x)).0 e))
  | inr e ↦ let (y, i, n) = find_by f id xs (ground arith) in (y, Memᴰ.tail i, n)
]
