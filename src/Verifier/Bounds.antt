-- ===== src/Verifier/Bounds.antt =====
-- packages/verifier/verifier.go: bounds on the time of a gate and on the output that is kept.
use dev_plane.Prelude.{
  ℕ, zero, suc, ◌+◌, ◌-◌, ◌≤◌, true, ◌≡◌, refl, inl, inr, Option, List, [], ◌∷◌, ◌++◌, map, length,
  arith, Bool-cases, leb, ltb,
}
use dev_plane.Prelude.Int.{ℤ, pos, leb_ℤ, ◌≤ℤ◌, ◌<ℤ◌}
use dev_plane.Text.{Text}
use dev_plane.Verifier.Outputs.{
  CommandResult, profile_timeout, to_duration, max_profile_timeout, raw_byte, utf8, size, len,
  take_front, take_bytes, truncated, truncation_mark, max_evidence_output, evidence_output,
  join_lines, result_parts, error_parts,
}

-- A gate gets a positive time, of 30 minutes at most, if its profile asks for at most 9223372036
-- seconds: their nanoseconds fit in 64 bits.
pub profile_timeout-bounds :
    (seconds : ℤ)
    → leb_ℤ seconds (pos 9223372036) ≡ true
    → (pos 0 <ℤ profile_timeout seconds) × (profile_timeout seconds ≤ℤ max_profile_timeout)
unfolding profile_timeout to_duration
profile_timeout-bounds seconds h = ground arith

len-append : (s t : Text) → len (s ++ t) ≡ len s + len t
unfolding len
len-append [] t = omega arith
len-append (c ∷ s) t = omega (arith, len-append s t)

len-raw : (bs : List ℕ) → len (map raw_byte bs) ≡ length bs
unfolding len
len-raw [] = refl
len-raw (b ∷ bs) = ground (arith, len-raw bs)

take_front-le : (n : ℕ) (bs : List ℕ) → length (take_front n bs) ≤ n
unfolding take_front
take_front-le zero bs = omega arith
take_front-le (suc n) [] = omega arith
take_front-le (suc n) (b ∷ bs) = omega (arith, take_front-le n bs)

take_bytes-le : (n : ℕ) (s : Text) → len (take_bytes n s) ≤ n
unfolding take_bytes len
take_bytes-le n [] = omega arith
take_bytes-le n (c ∷ s) = elim (Bool-cases (leb (size c) n)) [
  | inl fits ↦ rw fits (ground (arith, take_bytes-le (n - size c) s, fits))
  | inr long ↦ rw (long, len-raw (take_front n (utf8 c))) (take_front-le n (utf8 c))
]

truncated-bounds : (out : Text) → len (truncated out) ≤ 50000 + len truncation_mark
unfolding truncated
truncated-bounds out = elim (Bool-cases (ltb max_evidence_output (len out))) [
  | inl long ↦
      rw (long, len-append (take_bytes 50000 out) truncation_mark)
        (omega (arith, take_bytes-le 50000 out))
  | inr short ↦ rw short (ground (arith, short))
]

-- The output that is kept as evidence has at most 50000 bytes and the mark of the truncation.
pub evidence_output-bounds :
    (result : Option CommandResult) (error : Option Text)
    → len (evidence_output result error) ≤ 50000 + len truncation_mark
unfolding evidence_output
evidence_output-bounds result error =
    truncated-bounds (join_lines (result_parts result ++ error_parts error))
