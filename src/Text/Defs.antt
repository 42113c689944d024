-- ===== src/Text/Defs.antt =====
-- Texts as lists of code points; comparison, trimming, prefixes and `path.Clean`.
use Prim.Native.Char.{code}
use Prim.Native.String.{String}
use dev_plane.Prelude.{
  ℕ, Bool, true, false, ◌&&◌, ◌||◌, not, List, [], ◌∷◌, ◌++◌, map, reverse, leb, ◌==◌, is_empty,
  if◌then◌else◌,
}

abbrev pub Text : Type 0
Text = List ℕ

abbrev pub codes : String → Text
codes String.[] = []
codes (String.◌∷◌ c s) = code c ∷ codes s

unfoldable pub text_eq : Text → Text → Bool
text_eq [] [] = true
text_eq [] (c ∷ t) = false
text_eq (c ∷ s) [] = false
text_eq (c ∷ s) (d ∷ t) = c == d && text_eq s t

-- the order of Go's `<` on strings, which is that of the code points
unfoldable pub text_lt : Text → Text → Bool
text_lt s [] = false
text_lt [] (d ∷ t) = true
text_lt (c ∷ s) (d ∷ t) = not (leb d c) || c == d && text_lt s t

unfoldable pub mem_text : Text → List Text → Bool
mem_text x [] = false
mem_text x (y ∷ ys) = text_eq x y || mem_text x ys

-- `delete` from a set of texts
unfoldable pub remove_text : Text → List Text → List Text
remove_text x [] = []
remove_text x (y ∷ ys) = if text_eq x y then remove_text x ys else y ∷ remove_text x ys

-- unicode.IsSpace
unfoldable pub is_space : ℕ → Bool
is_space c =
    leb 9 c && leb c 13
    || c == 32
    || c == 0x85
    || c == 0xA0
    || c == 0x1680
    || leb 0x2000 c && leb c 0x200A
    || c == 0x2028
    || c == 0x2029
    || c == 0x202F
    || c == 0x205F
    || c == 0x3000

unfoldable pub trim_left : Text → Text
unfolding is_space
trim_left [] = []
trim_left (c ∷ s) = if is_space c then trim_left s else c ∷ s

-- strings.TrimSpace
unfoldable pub trim_space : Text → Text
unfolding trim_left
trim_space s = reverse (trim_left (reverse (trim_left s)))

-- strings.HasPrefix s p
unfoldable pub has_prefix : Text → Text → Bool
has_prefix s [] = true
has_prefix [] (d ∷ p) = false
has_prefix (c ∷ s) (d ∷ p) = c == d && has_prefix s p

unfoldable pub drop_prefix : Text → Text → Text
drop_prefix s [] = s
drop_prefix [] (d ∷ p) = []
drop_prefix (c ∷ s) (d ∷ p) = drop_prefix s p

-- strings.TrimPrefix s p
unfoldable pub trim_prefix : Text → Text → Text
unfolding has_prefix drop_prefix
trim_prefix s p = if has_prefix s p then drop_prefix s p else s

-- strings.HasSuffix s p
unfoldable pub has_suffix : Text → Text → Bool
unfolding has_prefix
has_suffix s p = has_prefix (reverse s) (reverse p)

-- strings.TrimSuffix s p
unfoldable pub trim_suffix : Text → Text → Text
unfolding trim_prefix
trim_suffix s p = reverse (trim_prefix (reverse s) (reverse p))

-- strings.ContainsRune s c
unfoldable pub contains_rune : Text → ℕ → Bool
contains_rune [] c = false
contains_rune (d ∷ s) c = d == c || contains_rune s c

-- strings.ReplaceAll s "\\" "/"
unfoldable pub to_slashes : Text → Text
to_slashes s = map (λ c. if c == b'\\' then b'/' else c) s

-- The elements between slashes; `done` is the element read so far, reversed.
unfoldable pub elements : Text → Text → List Text
elements done [] = reverse done ∷ []
elements done (c ∷ s) = if c == b'/' then reverse done ∷ elements [] s else elements (c ∷ done) s

unfoldable pub join_slash : List Text → Text
join_slash [] = []
join_slash (x ∷ []) = x
join_slash (x ∷ y ∷ ys) = x ++ b'/' ∷ join_slash (y ∷ ys)

-- One element of path.Clean on the output so far, last element first: `.` and empty elements go,
-- `..` takes back the last element that is no `..`, and is dropped at the root.
unfoldable pub clean_element : Bool → Text → List Text → List Text
unfolding text_eq
clean_element rooted x out =
    if is_empty x || text_eq x (codes ".")
    then out
    else if text_eq x (codes "..")
    then (elim out [
      | [] ↦ if rooted then [] else x ∷ []
      | y ∷ ys ↦ if text_eq y (codes "..") then x ∷ y ∷ ys else ys
    ])
    else x ∷ out

unfoldable pub clean_elements : Bool → List Text → List Text → List Text
unfolding clean_element
clean_elements rooted [] out = out
clean_elements rooted (x ∷ xs) out = clean_elements rooted xs (clean_element rooted x out)

-- path.Clean
unfoldable pub clean : Text → Text
unfolding clean_elements elements join_slash has_prefix
clean s =
    let rooted = has_prefix s (codes "/") in
    let body = join_slash (reverse (clean_elements rooted (elements [] s) [])) in
    if rooted then b'/' ∷ body else if is_empty body then codes "." else body
