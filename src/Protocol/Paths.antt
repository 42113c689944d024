-- ===== src/Protocol/Paths.antt =====
-- packages/repoprotocol/protocol.go: paths and patterns of a repository.
use dev_plane.Prelude.{
  Bool, false, ◌||◌, ◌&&◌, not, [], ◌++◌, Result, ok, err, ◌>>=◌, if◌then◌else◌, is_empty,
}
use dev_plane.Text.{
  Text, codes, text_eq, trim_space, has_prefix, has_suffix, trim_prefix, trim_suffix, contains_rune,
  to_slashes, clean,
}

pub data PathError : Type 0 where
  not_relative leaves_repository : PathError

unfoldable pub normalize_repository_path : Text → Result PathError Text
normalize_repository_path raw =
    let value = trim_space (to_slashes raw) in
    let value = trim_prefix value (codes "./") in
    let value = trim_suffix value (codes "/") in
    let cleaned = clean value in
    if is_empty value || has_prefix value (codes "/")
    then err not_relative
    else if text_eq cleaned (codes ".")
        || text_eq cleaned (codes "..")
        || has_prefix cleaned (codes "../")
    then err leaves_repository
    else ok cleaned

-- a normalized path with the suffix of the pattern behind it
abbrev with_suffix : Text → Text → Result PathError Text
with_suffix suffix value = normalize_repository_path value >>= λ path. ok (path ++ suffix)

unfoldable pub normalize_pattern : Text → Result PathError Text
normalize_pattern raw =
    let value = trim_prefix (trim_space (to_slashes raw)) (codes "./") in
    if has_suffix value (codes "/**")
    then with_suffix (codes "/**") (trim_suffix value (codes "/**"))
    else if has_suffix value (codes "/*")
    then with_suffix (codes "/*") (trim_suffix value (codes "/*"))
    else with_suffix [] value

-- the `switch` of `pathMatches`, on a normalized pattern and a normalized path
unfoldable pub matches_normalized : Text → Text → Bool
matches_normalized pattern path =
    let tree = trim_suffix pattern (codes "/**") in
    let folder = trim_suffix pattern (codes "/*") ++ codes "/" in
    let remainder = trim_prefix path folder in
    if has_suffix pattern (codes "/**")
    then text_eq path tree || has_prefix path (tree ++ codes "/")
    else if has_suffix pattern (codes "/*")
    then has_prefix path folder && not (is_empty remainder) && not (contains_rune remainder b'/')
    else text_eq path pattern

unfoldable pub path_matches : Text → Text → Bool
unfolding matches_normalized
path_matches pattern changed = elim (normalize_pattern pattern) [
  | err e ↦ false
  | ok p ↦ elim (normalize_repository_path changed) [
    | err e ↦ false
    | ok c ↦ matches_normalized p c
  ]
]
