-- ===== src/Verifier/Outputs.antt =====
-- packages/verifier/verifier.go: the time that a gate gets, and the output that is kept.
use dev_plane.Prelude.{
  ℕ, zero, suc, ◌+◌, ◌-◌, ◌*◌, ◌/◌, ◌%◌, Option, none, some, List, [], ◌∷◌, ◌++◌, map, leb, ltb,
  is_empty, if◌then◌else◌,
}
use dev_plane.Prelude.Int.{ℤ, pos, leb_ℤ, ltb_ℤ, to_u64, of_u64, u64_mod}
use dev_plane.Text.{Text, codes, trim_space}

-- runtimes.CommandResult, of which only these fields are read
pub record CommandResult : Type 0 where
  pub stdout : Text
  pub stderr : Text
  pub exit_code : ℤ

-- durations in nanoseconds
abbrev pub second : ℕ
second = 1000000000

abbrev pub default_profile_timeout : ℤ
default_profile_timeout = pos (300 * second)

abbrev pub max_profile_timeout : ℤ
max_profile_timeout = pos (1800 * second)

abbrev pub max_evidence_output : ℕ
max_evidence_output = 50000

-- `time.Duration(seconds) * time.Second`, on 64 bits
unfoldable pub to_duration : ℤ → ℤ
to_duration seconds = of_u64 (to_u64 seconds * second % u64_mod)

unfoldable pub profile_timeout : ℤ → ℤ
unfolding to_duration
profile_timeout seconds =
    if leb_ℤ seconds (pos 0)
    then default_profile_timeout
    else if ltb_ℤ max_profile_timeout (to_duration seconds)
    then max_profile_timeout
    else to_duration seconds

-- A byte that belongs to no code point stands in a text as itself, above all code points.
abbrev pub raw_byte : ℕ → ℕ
raw_byte b = 0x110000 + b

-- the UTF-8 bytes of a code point, or the byte that belongs to none
abbrev pub utf8 : ℕ → List ℕ
utf8 c =
    if ltb c 0x80
    then c ∷ []
    else if ltb c 0x800
    then (0xC0 + c / 0x40) ∷ (0x80 + c % 0x40) ∷ []
    else if ltb c 0x10000
    then (0xE0 + c / 0x1000) ∷ (0x80 + c / 0x40 % 0x40) ∷ (0x80 + c % 0x40) ∷ []
    else if ltb c 0x110000
    then (0xF0 + c / 0x40000)
      ∷ (0x80 + c / 0x1000 % 0x40)
      ∷ (0x80 + c / 0x40 % 0x40)
      ∷ (0x80 + c % 0x40)
      ∷ []
    else (c - 0x110000) ∷ []

-- the number of these bytes
abbrev pub size : ℕ → ℕ
size c =
    if ltb c 0x80
    then 1
    else if ltb c 0x800
    then 2
    else if ltb c 0x10000
    then 3
    else if ltb c 0x110000
    then 4
    else 1

-- `len` of a string, in bytes
unfoldable pub len : Text → ℕ
len [] = 0
len (c ∷ s) = size c + len s

unfoldable pub take_front : ℕ → List ℕ → List ℕ
take_front zero bs = []
take_front (suc n) [] = []
take_front (suc n) (b ∷ bs) = b ∷ take_front n bs

-- `s[:n]`, which may leave the first bytes of a code point
unfoldable pub take_bytes : ℕ → Text → Text
unfolding take_front
take_bytes n [] = []
take_bytes n (c ∷ s) =
    let rest = take_bytes (n - size c) s in
    if leb (size c) n then c ∷ rest else map raw_byte (take_front n (utf8 c))

-- strings.Join with line feeds
unfoldable pub join_lines : List Text → Text
join_lines [] = []
join_lines (x ∷ []) = x
join_lines (x ∷ y ∷ ys) = x ++ b'\n' ∷ join_lines (y ∷ ys)

abbrev pub truncation_mark : Text
truncation_mark = b'\n' ∷ codes "... [output truncated]"

-- a part that is kept unless it is blank
abbrev pub part : Text → List Text
part raw = let text = trim_space raw in if is_empty text then [] else text ∷ []

abbrev pub result_parts : Option CommandResult → List Text
result_parts none = []
result_parts (some r) = part r.stdout ++ part r.stderr

abbrev pub error_parts : Option Text → List Text
error_parts none = []
error_parts (some e) = (codes "error: " ++ e) ∷ []

-- the test and the cut at the end of `evidenceOutput`
unfoldable pub truncated : Text → Text
unfolding len take_bytes
truncated output =
    if ltb max_evidence_output (len output)
    then take_bytes max_evidence_output output ++ truncation_mark
    else output

unfoldable pub evidence_output : Option CommandResult → Option Text → Text
unfolding truncated join_lines
evidence_output result error = truncated (join_lines (result_parts result ++ error_parts error))
