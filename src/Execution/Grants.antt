-- ===== src/Execution/Grants.antt =====
-- packages/execution/execution.go: grants, manifests of grants and their delegation.
use dev_plane.Prelude.{
  ℕ, Bool, ◌||◌, ◌&&◌, not, List, [], ◌∷◌, ◌++◌, Result, ok, err, ◌>>=◌, ◌>>◌, fail_if, any,
  if◌then◌else◌,
}
use dev_plane.Text.{Text, text_eq, text_lt, contains_rune}
use dev_plane.Execution.Defs.{
  Error, authority_escalation, invalid_grant, invalid_manifest, invalid_token, join_nul,
}

pub record Grant : Type 0 where
  pub operation : Text
  pub resource : Text
  pub revision : Text

unfoldable pub validate_grant : Grant → Result Error (Unit {0})
validate_grant g =
    fail_if (invalid_token g.operation || invalid_token g.resource || contains_rune g.revision 0)
      invalid_grant

unfoldable pub canonical : Grant → Text
unfolding join_nul
canonical g = join_nul (g.operation ∷ g.resource ∷ g.revision ∷ [])

-- `==` on the struct
unfoldable pub grant_eq : Grant → Grant → Bool
grant_eq g h =
    text_eq g.operation h.operation
    && text_eq g.resource h.resource
    && text_eq g.revision h.revision

-- A `Manifest` is its list of grants.
unfoldable pub validate_manifest : List Grant → Result Error (Unit {0})
unfolding validate_grant
validate_manifest [] = ok tt
validate_manifest (g ∷ gs) = elim (validate_grant g) [
  | err e ↦ err invalid_manifest
  | ok u ↦ validate_manifest gs
]

-- sort.Slice by the canonical texts
unfoldable pub insert_grant : Grant → List Grant → List Grant
insert_grant g [] = g ∷ []
insert_grant g (h ∷ hs) =
    if text_lt (canonical h) (canonical g) then h ∷ insert_grant g hs else g ∷ h ∷ hs

unfoldable pub sort_grants : List Grant → List Grant
unfolding insert_grant
sort_grants [] = []
sort_grants (g ∷ gs) = insert_grant g (sort_grants gs)

-- the loop that drops a grant equal to the one kept before it
unfoldable pub dedupe_after : Grant → List Grant → List Grant
dedupe_after last [] = []
dedupe_after last (g ∷ gs) =
    let kept = dedupe_after g gs in
    let dropped = dedupe_after last gs in if grant_eq last g then dropped else g ∷ kept

unfoldable pub dedupe : List Grant → List Grant
unfolding dedupe_after
dedupe [] = []
dedupe (g ∷ gs) = g ∷ dedupe_after g gs

unfoldable pub new_manifest : List Grant → Result Error (List Grant)
unfolding validate_manifest sort_grants dedupe
new_manifest grants = validate_manifest grants >> ok (dedupe (sort_grants grants))

unfoldable pub holds : List Grant → Grant → Bool
unfolding grant_eq any
holds grants g = any (λ h. grant_eq h g) grants

unfoldable pub allows : List Grant → Grant → Result Error Bool
unfolding validate_manifest holds
allows m g = validate_manifest m >> (validate_grant g >> ok (holds m g))

-- the loop of `Delegate`
unfoldable pub check_requested : List Grant → List Grant → Result Error (Unit {0})
unfolding allows
check_requested m [] = ok tt
check_requested m (g ∷ gs) =
    allows m g >>= λ allowed. fail_if (not allowed) authority_escalation >> check_requested m gs

unfoldable pub delegate : List Grant → List Grant → Result Error (List Grant)
unfolding check_requested new_manifest
delegate m requested =
    validate_manifest m
    >> (validate_manifest requested >> (check_requested m requested >> new_manifest requested))

-- What the hash of `Digest` is fed: each canonical text, with the byte 0xff behind it. A byte that is
-- no part of a code point is written as a number above all of these, by 0x110000.
abbrev pub byte_ff : ℕ
byte_ff = 0x1100ff

unfoldable pub digest_payload : List Grant → Text
digest_payload [] = []
digest_payload (g ∷ gs) = canonical g ++ byte_ff ∷ digest_payload gs
