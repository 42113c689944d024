-- ===== src/Readiness/Files.antt =====
-- packages/readiness/readiness.go: the files of a repository, and the targets of its makefiles.
use dev_plane.Prelude.{
  Bool, false, ◌||◌, Option, none, some, List, [], ◌∷◌, ◌++◌, reverse, Result, ok, err, ◌>>=◌,
  if◌then◌else◌, is_empty, ◌==◌, any,
}
use dev_plane.Text.{
  Text, codes, mem_text, trim_space, is_space, has_prefix, has_suffix, clean, elements,
}

mutual
  -- What `fs.WalkDir` finds, by full names; a `broken` entry is one with an error.
  pub data Entry : Type 0 where
    file : Text → Entry
    directory : Text → Entries → Entry
    broken : Text → Entry

  pub data Entries : Type 0 where
    no_entries : Entries
    entry : Entry → Entries → Entries

-- A repository, as `Inspect` reads it. `scripts` is what the JSON library reads of a manifest.
pub record Repository : Type 0 where
  pub entries : Entries
  pub read_file : Text → Option Text
  pub scripts : Text → Option (Text → Text)

-- the keys of the map of files
abbrev pub Inventory : Type 0
Inventory = List Text

unfoldable drop_slashes : Text → Text
drop_slashes [] = []
drop_slashes (c ∷ s) = if c == b'/' then drop_slashes s else c ∷ s

unfoldable last_of : Text → List Text → Text
last_of x [] = x
last_of x (y ∷ ys) = last_of y ys

-- path.Base
unfoldable pub path_base : Text → Text
unfolding drop_slashes last_of
path_base s =
    let last = last_of [] (elements [] (reverse (drop_slashes (reverse s)))) in
    if is_empty s then codes "." else if is_empty last then codes "/" else last

-- a text from the last slash backwards, reversed
unfoldable from_slash : Text → Text
from_slash [] = []
from_slash (c ∷ s) = if c == b'/' then c ∷ s else from_slash s

-- path.Dir
unfoldable pub path_dir : Text → Text
unfolding from_slash
path_dir s = clean (reverse (from_slash (reverse s)))

abbrev pub skipped_directories : List Text
skipped_directories =
    codes ".git" ∷ codes "node_modules" ∷ codes "vendor" ∷ codes ".next" ∷ codes "dist" ∷ []

unfoldable mutual
  unfolding path_base

  -- the walk, with the inventory so far; an error ends it
  pub walk_entry : Inventory → Entry → Result Text Inventory
  walk_entry inv (file name) = ok (inv ++ clean name ∷ [])
  walk_entry inv (broken name) = err name
  walk_entry inv (directory name inside) =
      let deeper = walk_entries inv inside in
      if mem_text (path_base name) skipped_directories then ok inv else deeper

  pub walk_entries : Inventory → Entries → Result Text Inventory
  walk_entries inv no_entries = ok inv
  walk_entries inv (entry e es) = walk_entry inv e >>= λ inv'. walk_entries inv' es

unfoldable pub matching : List Text → Inventory → List Text
unfolding path_base
matching wanted [] = []
matching wanted (name ∷ inv) =
    let rest = matching wanted inv in if mem_text (path_base name) wanted then name ∷ rest else rest

unfoldable pub has_file : Inventory → Text → Bool
has_file inv name = mem_text (clean name) inv

-- strings.Contains
unfoldable pub contains_text : Text → Text → Bool
contains_text [] part = is_empty part
contains_text (c ∷ s) part = has_prefix (c ∷ s) part || contains_text s part

-- strings.Split at line feeds; `read` is the line read so far, reversed
unfoldable pub lines_from : Text → Text → List Text
lines_from read [] = reverse read ∷ []
lines_from read (c ∷ s) =
    if c == b'\n' then reverse read ∷ lines_from [] s else lines_from (c ∷ read) s

abbrev push_field : Text → List Text → List Text
push_field read rest = if is_empty read then rest else reverse read ∷ rest

-- strings.Fields; `read` is the field read so far, reversed
unfoldable pub fields_from : Text → Text → List Text
unfolding is_space
fields_from read [] = push_field read []
fields_from read (c ∷ s) =
    if is_space c then push_field read (fields_from [] s) else fields_from (c ∷ read) s

-- the text in front of the first colon, if there is one
unfoldable pub before_colon : Text → Option Text
before_colon [] = none
before_colon (c ∷ s) =
    let rest = before_colon s in
    if c == b':' then some [] else (elim rest [ none ↦ none | some t ↦ some (c ∷ t) ])

abbrev starts_with_tab : Text → Bool
starts_with_tab [] = false
starts_with_tab (c ∷ s) = c == 9

-- the targets that a line of a makefile names
unfoldable pub line_targets : Text → List Text
unfolding before_colon fields_from
line_targets line =
    if is_empty line || starts_with_tab line || has_prefix (trim_space line) (codes "#")
    then []
    else (elim (before_colon line) [
      | none ↦ []
      | some names ↦ if is_empty names then [] else fields_from [] names
    ])

unfoldable pub targets_of : List Text → List Text
unfolding line_targets
targets_of [] = []
targets_of (line ∷ lines) = line_targets line ++ targets_of lines

-- `makeTargets`: the keys of its map
unfoldable pub make_targets : Text → List Text
unfolding targets_of lines_from
make_targets content = targets_of (lines_from [] content)

unfoldable pub contains_command : List Text → Text → Bool
unfolding any contains_text
contains_command commands token =
    any (λ c. contains_text c (b' ' ∷ token) || has_suffix c token) commands
