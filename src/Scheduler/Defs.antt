-- ===== src/Scheduler/Defs.antt =====
-- packages/scheduler/scheduler.go: its types, the ownership paths, and the status of a task.
use dev_plane.Prelude.{
  Bool, true, false, ◌||◌, Option, none, some, List, [], ◌∷◌, ◌++◌, Result, ok, err, any, all,
  if◌then◌else◌, is_empty,
}
use dev_plane.Prelude.Int.{ℤ}
use dev_plane.Text.{
  Text, codes, text_eq, trim_space, has_prefix, trim_prefix, trim_suffix, to_slashes, clean,
}

-- A status is a string; `other` is any string but the five constants, the empty one included.
pub data Status : Type 0 where
  pending running success failed skipped : Status
  other : Text → Status

pub record Resources (F : Type 0) : Type 0 where
  pub cpu : F
  pub memory_mb : ℤ

pub record Task (F : Type 0) : Type 0 where
  pub id : Text
  pub owns : List Text
  pub depends_on : List Text
  pub resources : Resources F

-- `Capacity` has the fields of `Resources`.
pub record Manifest (F : Type 0) : Type 0 where
  pub max_parallel : ℤ
  pub capacity : Resources F
  pub tasks : List (Task F)

-- `map[string]Status`
abbrev pub State : Type 0
State = Text → Option Status

unfoldable pub set_status : State → Text → Status → State
set_status state id s k = if text_eq k id then some s else state k

-- The keys of `Skipped`, whose values are all "dependency-failed".
pub record Decision : Type 0 where
  pub ready : List Text
  pub skipped : List Text

pub data OwnershipError : Type 0 where
  not_relative escapes_root : OwnershipError

unfoldable pub normalize_ownership : Text → Result OwnershipError Text
normalize_ownership raw =
    let value = trim_space (to_slashes raw) in
    let value = trim_prefix value (codes "./") in
    let value = trim_suffix value (codes "/**") in
    let value = trim_suffix value (codes "/*") in
    let value = trim_suffix value (codes "/") in
    let cleaned = clean value in
    if is_empty value || has_prefix value (codes "/")
    then err not_relative
    else if text_eq cleaned (codes ".")
        || text_eq cleaned (codes "..")
        || has_prefix cleaned (codes "../")
    then err escapes_root
    else ok cleaned

-- `a == b || strings.HasPrefix(a, b+"/") || strings.HasPrefix(b, a+"/")`
unfoldable pub overlaps : Text → Text → Bool
overlaps a b = text_eq a b || has_prefix a (b ++ codes "/") || has_prefix b (a ++ codes "/")

-- the inner loop of `OwnershipConflict`, for one normalized left path
unfoldable pub conflicts_with : Result OwnershipError Text → List Text → Bool
conflicts_with (err e) right = true
conflicts_with (ok a) [] = false
conflicts_with (ok a) (raw ∷ right) = elim (normalize_ownership raw) [
  | err e ↦ true
  | ok b ↦ overlaps a b || conflicts_with (ok a) right
]

unfoldable pub ownership_conflict : List Text → List Text → Bool
unfolding conflicts_with
ownership_conflict [] right = false
ownership_conflict (raw ∷ left) right =
    conflicts_with (normalize_ownership raw) right || ownership_conflict left right

-- A missing or empty status counts as pending.
abbrev pub read_status : Option Status → Status
read_status none = pending
read_status (some (other t)) = if is_empty t then pending else other t
read_status (some known) = known

unfoldable pub status_of : State → Text → Status
status_of state id = read_status (state id)

-- `state[id] == StatusRunning`, on the raw entry
unfoldable pub is_running : State → Text → Bool
is_running state id = elim (state id) [
  | none ↦ false
  | some s ↦ elim s [ running ↦ true | _ ↦ false ]
]

abbrev pub is_pending : Status → Bool
is_pending pending = true
is_pending _ = false

abbrev pub is_success : Status → Bool
is_success success = true
is_success _ = false

abbrev pub is_failed : Status → Bool
is_failed failed = true
is_failed skipped = true
is_failed _ = false

module _ {F : Type 0} where
  unfoldable pub dependency_failed : Task F → State → Bool
  unfolding any
  dependency_failed task state = any (λ d. is_failed (status_of state d)) task.depends_on

  unfoldable pub dependencies_succeeded : Task F → State → Bool
  unfolding all
  dependencies_succeeded task state = all (λ d. is_success (status_of state d)) task.depends_on

  unfoldable pub conflicts_any : Task F → List (Task F) → Bool
  unfolding any
  conflicts_any task others = any (λ o. ownership_conflict task.owns o.owns) others
