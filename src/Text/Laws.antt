-- ===== src/Text/Laws.antt =====
-- Laws of the tests on texts.
use dev_plane.Prelude.{◌≡◌, refl, ◌↔◌, true, false, ◌||◌, List, [], ◌∷◌, ◌++◌, arith}
use dev_plane.Text.Defs.{Text, text_eq, mem_text, remove_text}

pub text_eq_refl : (s : Text) → text_eq s s ≡ true
unfolding text_eq
text_eq_refl [] = refl
text_eq_refl (c ∷ s) = ground (arith, text_eq_refl s)

pub eq_of_text_eq : (s t : Text) → text_eq s t ≡ true → s ≡ t
unfolding text_eq
eq_of_text_eq [] [] h = refl
eq_of_text_eq [] (d ∷ t) h = cc
eq_of_text_eq (c ∷ s) [] h = cc
eq_of_text_eq (c ∷ s) (d ∷ t) h = ground (arith, eq_of_text_eq s t)

pub text_eq_iff : (s t : Text) → (text_eq s t ≡ true) ↔ (s ≡ t)
text_eq_iff s t = (eq_of_text_eq s t, λ e. rw e (text_eq_refl t))

pub text_eq_comm : (s t : Text) → text_eq s t ≡ text_eq t s
text_eq_comm s t = ground (arith, text_eq_iff s t, text_eq_iff t s)

pub mem_text-append :
    (x : Text) (xs ys : List Text) → mem_text x (xs ++ ys) ≡ (mem_text x xs || mem_text x ys)
unfolding mem_text
mem_text-append x [] ys = refl
mem_text-append x (y ∷ xs) ys = ground (arith, mem_text-append x xs ys)

pub remove_text-absent : (x : Text) (xs : List Text) → mem_text x xs ≡ false → remove_text x xs ≡ xs
unfolding mem_text remove_text
remove_text-absent x [] h = refl
remove_text-absent x (y ∷ xs) h = ground (arith, remove_text-absent x xs)

pub remove_text-head :
    (x : Text) (xs : List Text) → mem_text x xs ≡ false → remove_text x (x ∷ xs) ≡ xs
unfolding remove_text
remove_text-head x xs h = rw (text_eq_refl x) (remove_text-absent x xs h)

pub mem_text-head : (x : Text) (xs : List Text) → mem_text x (x ∷ xs) ≡ true
unfolding mem_text
mem_text-head x xs = rw (text_eq_refl x)
