-- ===== src/Readiness/Mention.antt =====
-- packages/readiness/readiness.go: what `containsCommand` finds in a command.
use mathlib.Core.List.{Memᴰ, reverse-append, reverse-reverse}
use dev_plane.Prelude.{
  true, ◌||◌, ◌≡◌, ◌↔◌, refl, sym, ◌∙◌, ap, subst, ◌⊎◌, inl, inr, List, [], ◌∷◌, ◌++◌, reverse,
  arith, Bool-cases, any, ==_iff,
}
use dev_plane.Text.{Text, has_prefix, has_suffix}
use dev_plane.Readiness.Files.{contains_text, contains_command}

-- The word stands behind a space in the command, or the command ends with it.
abbrev pub Mentions : Text → Text → Type 0
Mentions word c =
    ((before : Text) × (after : Text) × (c ≡ before ++ (b' ' ∷ word) ++ after))
    ⊎ ((before : Text) × (c ≡ before ++ word))

has_prefix-rest : (s p : Text) → has_prefix s p ≡ true → (after : Text) × (s ≡ p ++ after)
unfolding has_prefix
has_prefix-rest s [] h = (s, refl)
has_prefix-rest [] (d ∷ p) h = cc
has_prefix-rest (c ∷ s) (d ∷ p) h =
    let (after, e) = has_prefix-rest s p (ground arith) in
    let same = (==_iff c d).0 (ground arith) in (after, cc (same, e))

append-has_prefix : (p after : Text) → has_prefix (p ++ after) p ≡ true
unfolding has_prefix
append-has_prefix [] after = refl
append-has_prefix (d ∷ p) after = ground (arith, append-has_prefix p after)

contains_text-parts :
    (s part : Text)
    → contains_text s part ≡ true
    → (before : Text) × (after : Text) × (s ≡ before ++ part ++ after)
unfolding contains_text
contains_text-parts [] [] h = ([], [], refl)
contains_text-parts [] (d ∷ part) h = cc
contains_text-parts (c ∷ s) part h = elim (Bool-cases (has_prefix (c ∷ s) part)) [
  | inl here ↦ let (after, e) = has_prefix-rest (c ∷ s) part here in ([], after, e)
  | inr later ↦
      let (before, after, e) = contains_text-parts s part (ground arith) in
      (c ∷ before, after, ap (λ t. c ∷ t) e)
]

parts-contains_text :
    (before part after : Text) → contains_text (before ++ part ++ after) part ≡ true
unfolding contains_text
parts-contains_text [] [] [] = refl
parts-contains_text [] [] (c ∷ after) = unfold has_prefix in refl
parts-contains_text [] (d ∷ part) after = ground (arith, append-has_prefix (d ∷ part) after)
parts-contains_text (c ∷ before) part after = ground (arith, parts-contains_text before part after)

has_suffix-front : (s p : Text) → has_suffix s p ≡ true → (before : Text) × (s ≡ before ++ p)
unfolding has_suffix
has_suffix-front s p h =
    let (r, e) = has_prefix-rest (reverse s) (reverse p) h in
    (
      reverse r,
      sym (reverse-reverse s)
          ∙ ap reverse e
          ∙ reverse-append (reverse p) r
          ∙ ap (λ t. reverse r ++ t) (reverse-reverse p),
    )

append-has_suffix : (before p : Text) → has_suffix (before ++ p) p ≡ true
unfolding has_suffix
append-has_suffix before p =
    rw (reverse-append before p) (append-has_prefix (reverse p) (reverse before))

Mentions-iff :
    (word c : Text)
    → ((contains_text c (b' ' ∷ word) || has_suffix c word) ≡ true) ↔ Mentions word c
Mentions-iff word c = (
  λ h. elim (Bool-cases (contains_text c (b' ' ∷ word))) [
    | inl e ↦ inl (contains_text-parts c (b' ' ∷ word) e)
    | inr e ↦ inr (has_suffix-front c word (ground arith))
  ],
  λ h. elim h [
    | inl (before, after, e) ↦ ground (arith, e, parts-contains_text before (b' ' ∷ word) after)
    | inr (before, e) ↦ ground (arith, e, append-has_suffix before word)
  ],
)

found-Mentions :
    (cs : List Text) (word : Text)
    → contains_command cs word ≡ true
    → (c : Text) × Memᴰ c cs × Mentions word c
unfolding contains_command any
found-Mentions [] word h = cc
found-Mentions (c ∷ cs) word h =
    elim (Bool-cases (contains_text c (b' ' ∷ word) || has_suffix c word)) [
      | inl e ↦ (c, Memᴰ.head refl, (Mentions-iff word c).0 e)
      | inr e ↦ let (d, i, m) = found-Mentions cs word (ground arith) in (d, Memᴰ.tail i, m)
    ]

mentioned-contains_command :
    (cs : List Text) (word c : Text) → Memᴰ c cs → Mentions word c → contains_command cs word ≡ true
unfolding contains_command any
mentioned-contains_command [] word c i m = elim i [ ]
mentioned-contains_command (x ∷ cs) word c (Memᴰ.head e) m =
    let found = (Mentions-iff word x).1 (subst (Mentions word) e m) in ground arith
mentioned-contains_command (x ∷ cs) word c (Memᴰ.tail i) m =
    ground (arith, mentioned-contains_command cs word c i m)

-- `containsCommand` finds a word exactly if one of the commands mentions it.
pub contains_command_iff :
    (cs : List Text) (word : Text)
    → (contains_command cs word ≡ true) ↔ ((c : Text) × Memᴰ c cs × Mentions word c)
contains_command_iff cs word =
    (found-Mentions cs word, λ (c, i, m). mentioned-contains_command cs word c i m)
