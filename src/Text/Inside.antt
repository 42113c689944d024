-- ===== src/Text/Inside.antt =====
-- What `path.Clean` leaves of a relative path: its elements, and whether it stays inside.
use mathlib.Core.List.{append_assoc, append-nil, reverse-append, reverse-reverse, reverse-cons}
use mathlib.Core.Bool.{true≢false}
use dev_plane.Prelude.{
  ℕ, true, false, ◌||◌, ◌≡◌, refl, sym, ◌∙◌, ap, ◌⊎◌, inl, inr, List, [], ◌∷◌, ◌++◌, reverse, subst,
  arith, Bool-cases, All, All-append, is_empty, if◌then◌else◌, ◌==◌,
}
use dev_plane.Text.Defs.{
  Text, codes, text_eq, has_prefix, contains_rune, elements, join_slash, clean_element,
  clean_elements, clean,
}
use dev_plane.Text.Laws.{text_eq_refl, eq_of_text_eq}

abbrev Slashless : Text → Type 0
Slashless x = contains_rune x b'/' ≡ false

-- an element that names something below the folder that it stands in
abbrev pub IsName : Text → Type 0
IsName x = (is_empty x ≡ false) × (text_eq x (codes ".") ≡ false) × (text_eq x (codes "..") ≡ false)

contains_rune-append :
    (s t : Text) (c : ℕ) → contains_rune (s ++ t) c ≡ (contains_rune s c || contains_rune t c)
unfolding contains_rune
contains_rune-append [] t c = refl
contains_rune-append (d ∷ s) t c = ground (arith, contains_rune-append s t c)

contains_rune-reverse : (s : Text) (c : ℕ) → contains_rune (reverse s) c ≡ contains_rune s c
unfolding contains_rune
contains_rune-reverse [] c = refl
contains_rune-reverse (d ∷ s) c =
    ap (λ (t : Text). contains_rune t c) (reverse-append (d ∷ []) s)
    ∙ ground (arith, contains_rune-append (reverse s) (d ∷ []) c, contains_rune-reverse s c)

elements-Slashless : (done s : Text) → Slashless done → All Slashless (elements done s)
unfolding elements contains_rune
elements-Slashless done [] h = (contains_rune-reverse done b'/' ∙ h, tt)
elements-Slashless done (c ∷ s) h = elim (Bool-cases (c == b'/')) [
  | inl e ↦ rw e (contains_rune-reverse done b'/' ∙ h, elements-Slashless [] s refl)
  | inr e ↦ rw e (elements-Slashless (c ∷ done) s (rw e h))
]

-- reading an element and what follows it
elements-read :
    (done x s : Text) → Slashless x → elements done (x ++ s) ≡ elements (reverse x ++ done) s
unfolding elements contains_rune
elements-read done [] s h = refl
elements-read done (c ∷ x) s h =
    let apart : (c == b'/') ≡ false = ground arith in
    rw apart (
      elements-read (c ∷ done) x s (ground arith)
      ∙ ap (λ (t : Text). elements t s)
          (sym (append_assoc (reverse x) (c ∷ []) done)
            ∙ ap (λ (t : Text). t ++ done) (sym (reverse-append (c ∷ []) x))))

twice_reversed : (x : Text) → reverse (reverse x ++ []) ≡ x
twice_reversed x = ap reverse (append-nil (reverse x)) ∙ reverse-reverse x

elements-join :
    (x : Text) (xs : List Text)
    → All Slashless (x ∷ xs)
    → elements [] (join_slash (x ∷ xs)) ≡ x ∷ xs
unfolding join_slash elements
elements-join x [] h =
    ap (elements []) (sym (append-nil x))
    ∙ elements-read [] x [] h.0
    ∙ ap (λ (t : Text). t ∷ []) (twice_reversed x)
elements-join x (y ∷ ys) h =
    elements-read [] x (b'/' ∷ join_slash (y ∷ ys)) h.0
    ∙ rw (twice_reversed x) (ap (λ (rest : List Text). x ∷ rest) (elements-join y ys h.1))

-- the last element is `..`
abbrev EndsInDots : List Text → Type 0
EndsInDots [] = ⊥
EndsInDots (x ∷ []) = x ≡ codes ".."
EndsInDots (x ∷ y ∷ ys) = EndsInDots (y ∷ ys)

abbrev IsStack : List Text → Type 0
IsStack out = All IsName out ⊎ EndsInDots out

EndsInDots-cons : (x : Text) (xs : List Text) → EndsInDots xs → EndsInDots (x ∷ xs)
EndsInDots-cons x [] h = elim h [ ]
EndsInDots-cons x (y ∷ ys) h = h

-- `..` takes back the last element that is a name
up-IsStack :
    (x : Text) (out : List Text)
    → x ≡ codes ".."
    → IsStack out
    → IsStack
        (elim out [ [] ↦ x ∷ [] | y ∷ ys ↦ if text_eq y (codes "..") then x ∷ y ∷ ys else ys ])
up-IsStack x [] e h = inr e
up-IsStack x (y ∷ []) e (inl names) = rw names.0.2 (inl tt)
up-IsStack x (y ∷ []) e (inr dots) = rw (dots, text_eq_refl (codes "..")) (inr refl)
up-IsStack x (y ∷ z ∷ zs) e (inl names) = rw names.0.2 (inl names.1)
up-IsStack x (y ∷ z ∷ zs) e (inr dots) = elim (Bool-cases (text_eq y (codes ".."))) [
  | inl d ↦ rw d (inr dots)
  | inr d ↦ rw d (inr dots)
]

clean_element-IsStack :
    (x : Text) (out : List Text) → IsStack out → IsStack (clean_element false x out)
unfolding clean_element
clean_element-IsStack x out h = elim (Bool-cases (is_empty x || text_eq x (codes "."))) [
  | inl skip ↦ rw skip h
  | inr name ↦ elim (Bool-cases (text_eq x (codes ".."))) [
    | inl up ↦ rw (name, up) (up-IsStack x out (eq_of_text_eq x (codes "..") up) h)
    | inr down ↦
        rw (name, down)
          (elim h [
            | inl names ↦ inl ((ground arith, ground arith, down), names)
            | inr dots ↦ inr (EndsInDots-cons x out dots)
          ])
  ]
]

clean_element-Slashless :
    (x : Text) (out : List Text)
    → Slashless x
    → All Slashless out
    → All Slashless (clean_element false x out)
unfolding clean_element
clean_element-Slashless x [] h a = ground arith
clean_element-Slashless x (y ∷ ys) h a = ground arith

clean_elements-lem :
    (xs out : List Text)
    → All Slashless xs
    → IsStack out
    → All Slashless out
    → IsStack (clean_elements false xs out) × All Slashless (clean_elements false xs out)
unfolding clean_elements
clean_elements-lem [] out h s a = (s, a)
clean_elements-lem (x ∷ xs) out h s a =
    clean_elements-lem xs (clean_element false x out) h.1 (clean_element-IsStack x out s)
      (clean_element-Slashless x out h.0 a)

All-reverse : (P : Text → Type 0) (xs : List Text) → All P xs → All P (reverse xs)
All-reverse P [] a = tt
All-reverse P (x ∷ xs) a =
    subst (All P) (sym (reverse-cons x xs))
      (All-append P (reverse xs) (x ∷ []) (All-reverse P xs a.1) (a.0, tt))

EndsInDots-reverse :
    (xs : List Text) → EndsInDots xs → (rest : List Text) × (reverse xs ≡ codes ".." ∷ rest)
EndsInDots-reverse [] h = elim h [ ]
EndsInDots-reverse (x ∷ []) h = ([], ap (λ (t : Text). t ∷ []) h)
EndsInDots-reverse (x ∷ y ∷ ys) h =
    let (rest, e) = EndsInDots-reverse (y ∷ ys) h in
    (rest ++ x ∷ [], reverse-cons x (y ∷ ys) ∙ ap (λ (ts : List Text). ts ++ x ∷ []) e)

names_of_join :
    (xs : List Text)
    → All Slashless xs
    → All IsName xs
    → is_empty (join_slash xs) ≡ false
    → All IsName (elements [] (join_slash xs))
unfolding join_slash
names_of_join [] s n h = cc
names_of_join (x ∷ xs) s n h = subst (All IsName) (sym (elements-join x xs s)) n

leaves :
    (rest : List Text)
    → (text_eq (join_slash (codes ".." ∷ rest)) (codes "..")
        || has_prefix (join_slash (codes ".." ∷ rest)) (codes "../"))
      ≡ true
unfolding join_slash text_eq has_prefix
leaves [] = refl
leaves (x ∷ xs) = refl

-- the joined elements of a cleaned relative path
abbrev body : Text → Text
body s = join_slash (reverse (clean_elements false (elements [] s) []))

clean-relative :
    (s : Text)
    → has_prefix s (codes "/") ≡ false
    → clean s ≡ (if is_empty (body s) then codes "." else body s)
unfolding clean
clean-relative s relative = rw relative

-- the stack of elements behind a path that stays inside
body-names :
    (out : List Text)
    → IsStack out
    → All Slashless out
    → is_empty (join_slash (reverse out)) ≡ false
    → (text_eq (join_slash (reverse out)) (codes "..")
        || has_prefix (join_slash (reverse out)) (codes "../"))
      ≡ false
    → All IsName (elements [] (join_slash (reverse out)))
body-names out (inl names) a some_in inside =
    names_of_join (reverse out) (All-reverse Slashless out a) (All-reverse IsName out names) some_in
body-names out (inr dots) a some_in inside =
    let (rest, e) = EndsInDots-reverse out dots in
    absurd (true≢false (sym (leaves rest) ∙ (rw e at inside)))

-- A relative path that `path.Clean` leaves inside has only names as elements.
pub clean-inside :
    (s : Text)
    → has_prefix s (codes "/") ≡ false
    → text_eq (clean s) (codes ".") ≡ false
    → (text_eq (clean s) (codes "..") || has_prefix (clean s) (codes "../")) ≡ false
    → All IsName (elements [] (clean s))
unfolding contains_rune text_eq
clean-inside s relative below inside =
    let (stack, a) =
      clean_elements-lem (elements [] s) [] (elements-Slashless [] s refl) (inl tt) tt in
    let c = clean-relative s relative in
    elim (Bool-cases (is_empty (body s))) [
      | inl e ↦ absurd (true≢false (rw (c, e) at below))
      | inr e ↦
          let same : clean s ≡ body s = rw e at c in
          rw same
            (body-names (clean_elements false (elements [] s) []) stack a e (rw same at inside))
    ]
