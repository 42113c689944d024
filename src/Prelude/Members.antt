-- ===== src/Prelude/Members.antt =====
-- Members of lists: predicates on all elements, and images.
use mathlib.Core.Path.{◌≡◌, refl, sym, subst}
use mathlib.Core.Bool.{Bool, true}
use mathlib.Core.List.{List, [], ◌∷◌, map, Memᴰ}
use native.Mathlib.Omega.{arith}
use dev_plane.Prelude.Lists.{All, all}

pub All-mem : {A : Type 0} (P : A → Type 0) {a : A} (xs : List A) → All P xs → Memᴰ a xs → P a
All-mem P [] h i = elim i [ ]
All-mem P (x ∷ xs) h (Memᴰ.head e) = subst P (sym e) h.0
All-mem P (x ∷ xs) h (Memᴰ.tail i) = All-mem P xs h.1 i

pub mem-map :
    {A B : Type 0} {b : B} (f : A → B) (xs : List A)
    → Memᴰ b (map f xs)
    → (a : A) × Memᴰ a xs × (b ≡ f a)
mem-map f [] i = elim i [ ]
mem-map f (x ∷ xs) (Memᴰ.head e) = (x, Memᴰ.head refl, e)
mem-map f (x ∷ xs) (Memᴰ.tail i) = let (a, j, e) = mem-map f xs i in (a, Memᴰ.tail j, e)

pub all-All :
    {A : Type 0} (p : A → Bool) (P : A → Type 0)
    → ((x : A) → p x ≡ true → P x)
    → (xs : List A) → all p xs ≡ true
    → All P xs
unfolding all
all-All p P f [] h = tt
all-All p P f (x ∷ xs) h = (f x (ground arith), all-All p P f xs (ground arith))
