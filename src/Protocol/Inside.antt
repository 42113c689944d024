-- ===== src/Protocol/Inside.antt =====
-- packages/repoprotocol/protocol.go: a path that is accepted stays inside the repository.
use dev_plane.Prelude.{◌≡◌, [], ◌||◌, ok, arith, All, false}
use dev_plane.Text.{
  Text, codes, text_eq, has_prefix, elements, clean, to_slashes, trim_space, trim_prefix,
  trim_suffix, IsName, clean-inside,
}
use dev_plane.Protocol.Paths.{normalize_repository_path}

-- the text that is cleaned
abbrev relative : Text → Text
relative raw = trim_suffix (trim_prefix (trim_space (to_slashes raw)) (codes "./")) (codes "/")

normalized :
    (raw path : Text)
    → normalize_repository_path raw ≡ ok path
    → (path ≡ clean (relative raw))
      × (has_prefix (relative raw) (codes "/") ≡ false)
      × (text_eq (clean (relative raw)) (codes ".") ≡ false)
      × ((text_eq (clean (relative raw)) (codes "..")
            || has_prefix (clean (relative raw)) (codes "../"))
          ≡ false)
unfolding normalize_repository_path
normalized raw path h = ground arith

-- An accepted path has only names as elements: none of them is empty, `.` or `..`.
pub normalize_repository_path-inside :
    (raw path : Text) → normalize_repository_path raw ≡ ok path → All IsName (elements [] path)
normalize_repository_path-inside raw path h =
    let n = normalized raw path h in rw n.0 (clean-inside (relative raw) n.1 n.2 n.3)
