-- ===== src/Readiness/Inspect.antt =====
-- packages/readiness/readiness.go: `Inspect` and its checks.
use dev_plane.Prelude.{
  Bool, true, false, ◌||◌, ◌&&◌, not, none, some, List, [], ◌∷◌, ◌++◌, Result, ok, ◌>>=◌,
  if◌then◌else◌, is_empty,
}
use dev_plane.Text.{Text, codes, text_eq, mem_text, trim_space, has_prefix, has_suffix}
use dev_plane.Readiness.Defs.{
  Check, Report, ready, attention, blocked, verdict, unique_sorted, summarize, no_advice,
  declare_dependencies, commit_node_lock, commit_locks, expose_test, add_checks, pin_environment,
  add_ci, add_owners, document_setup, add_instructions,
}
use dev_plane.Readiness.Files.{
  Repository, Inventory, walk_entries, matching, has_file, contains_text, make_targets,
  contains_command, path_dir,
}

abbrev pub checked_names : List Text
checked_names = codes "test" ∷ codes "lint" ∷ codes "typecheck" ∷ codes "build" ∷ []

-- the commands of a makefile that has the targets
unfoldable pub make_commands : List Text → List Text → List Text
make_commands targets [] = []
make_commands targets (t ∷ ts) =
    let rest = make_commands targets ts in
    if mem_text t targets then (codes "make " ++ t) ∷ rest else rest

-- the commands of a manifest with scripts
unfoldable pub script_commands : Text → (Text → Text) → List Text → List Text
script_commands prefix scripts [] = []
script_commands prefix scripts (s ∷ ss) =
    let rest = script_commands prefix scripts ss in
    if is_empty (trim_space (scripts s)) then rest else (prefix ++ codes "npm run " ++ s) ∷ rest

unfoldable pub script_prefix : Text → Text
unfolding path_dir
script_prefix file = if text_eq (path_dir file) (codes ".") then [] else path_dir file ++ codes ": "

unfoldable pub all_make_commands : Repository → List Text → List Text
unfolding make_commands make_targets
all_make_commands repo [] = []
all_make_commands repo (f ∷ fs) =
    let rest = all_make_commands repo fs in
    elim (repo.read_file f) [
      | none ↦ rest
      | some content ↦ make_commands (make_targets content) checked_names ++ rest
    ]

unfoldable pub all_script_commands : Repository → List Text → List Text
unfolding script_commands script_prefix
all_script_commands repo [] = []
all_script_commands repo (f ∷ fs) =
    let rest = all_script_commands repo fs in
    elim (repo.read_file f) [
      | none ↦ rest
      | some content ↦ elim (repo.scripts content) [
        | none ↦ rest
        | some scripts ↦ script_commands (script_prefix f) scripts checked_names ++ rest
      ]
    ]

unfoldable pub is_ci_file : Text → Bool
is_ci_file name =
    has_prefix name (codes ".github/workflows/")
      && (has_suffix name (codes ".yml") || has_suffix name (codes ".yaml"))
    || mem_text name (
        codes ".woodpecker.yml"
        ∷ codes ".woodpecker.yaml"
        ∷ codes ".gitlab-ci.yml"
        ∷ codes "Jenkinsfile"
        ∷ codes ".circleci/config.yml"
        ∷ [])

unfoldable pub ci_files : Inventory → List Text
unfolding is_ci_file
ci_files [] = []
ci_files (name ∷ inv) = let rest = ci_files inv in if is_ci_file name then name ∷ rest else rest

abbrev pub manifest_names : List Text
manifest_names =
    codes "package.json"
    ∷ codes "go.mod"
    ∷ codes "Cargo.toml"
    ∷ codes "pyproject.toml"
    ∷ codes "requirements.txt"
    ∷ codes "Pipfile"
    ∷ []

abbrev pub node_lock_names : List Text
node_lock_names =
    codes "pnpm-lock.yaml"
    ∷ codes "package-lock.json"
    ∷ codes "npm-shrinkwrap.json"
    ∷ codes "yarn.lock"
    ∷ codes "bun.lock"
    ∷ codes "bun.lockb"
    ∷ []

abbrev pub environment_names : List Text
environment_names =
    codes "Dockerfile"
    ∷ codes "docker-compose.yml"
    ∷ codes "docker-compose.yaml"
    ∷ codes "compose.yml"
    ∷ codes "compose.yaml"
    ∷ codes "flake.nix"
    ∷ codes "mise.toml"
    ∷ codes ".tool-versions"
    ∷ codes "devcontainer.json"
    ∷ []

-- The sort of names is a parameter.
module _ (sort : List Text → List Text) where
  unfoldable pub match_base : Inventory → List Text → List Text
  unfolding matching
  match_base inv names = sort (matching names inv)

  -- files that ask for locks, of which there are none
  abbrev pub unlocked : Inventory → List Text → List Text → Bool
  unlocked inv names locks =
      not (is_empty (match_base inv names)) && is_empty (match_base inv locks)

  -- the locks of files that are there
  abbrev pub locks_of : Inventory → List Text → List Text → List Text
  locks_of inv names locks = if is_empty (match_base inv names) then [] else match_base inv locks

  unfoldable pub dependency_check : Inventory → Check
  unfolding match_base unique_sorted
  dependency_check inv =
      let check = verdict (codes "dependencies") (codes "Dependency reproducibility") true in
      let manifests = match_base inv manifest_names in
      let node = codes "package.json" ∷ [] in
      let cargo = codes "Cargo.toml" ∷ [] in
      let python = codes "pyproject.toml" ∷ codes "Pipfile" ∷ [] in
      let python_locks = codes "uv.lock" ∷ codes "poetry.lock" ∷ codes "Pipfile.lock" ∷ [] in
      let evidence = unique_sorted sort (
        manifests
        ++ locks_of inv node node_lock_names
        ++ locks_of inv cargo (codes "Cargo.lock" ∷ [])
        ++ locks_of inv python python_locks
        ++ locks_of inv (codes "go.mod" ∷ []) (codes "go.sum" ∷ [])) in
      if is_empty manifests
      then check attention [] declare_dependencies
      else if unlocked inv node node_lock_names
      then check blocked manifests commit_node_lock
      else if unlocked inv cargo (codes "Cargo.lock" ∷ []) || unlocked inv python python_locks
      then check attention evidence commit_locks
      else check ready evidence no_advice

  unfoldable pub verification_commands : Repository → Inventory → List Text
  unfolding match_base unique_sorted all_make_commands all_script_commands
  verification_commands repo inv = unique_sorted sort (
      all_make_commands repo (match_base inv (codes "Makefile" ∷ []))
      ++ all_script_commands repo (match_base inv (codes "package.json" ∷ [])))

  unfoldable pub verification_check : Repository → Inventory → Check
  unfolding verification_commands contains_command
  verification_check repo inv =
      let check = verdict (codes "verification") (codes "Deterministic verification") true in
      let commands = verification_commands repo inv in
      let secondary =
        contains_command commands (codes "lint")
        || contains_command commands (codes "typecheck")
        || contains_command commands (codes "build") in
      if not (contains_command commands (codes "test"))
      then check blocked commands expose_test
      else if not secondary
      then check attention commands add_checks
      else check ready commands no_advice

  -- the toolchain of a workspace, as evidence
  unfoldable pub workspace_toolchain : Repository → Inventory → List Text
  unfolding has_file contains_text
  workspace_toolchain repo inv =
      if has_file inv (codes "go.work")
      then (elim (repo.read_file (codes "go.work")) [
        | none ↦ []
        | some content ↦
            if contains_text content (codes "toolchain ")
            then codes "go.work toolchain" ∷ []
            else []
      ])
      else []

  unfoldable pub environment_check : Repository → Inventory → Check
  unfolding match_base unique_sorted has_file workspace_toolchain
  environment_check repo inv =
      let check = verdict (codes "environment") (codes "Environment reproducibility") false in
      let container = codes ".devcontainer/devcontainer.json" in
      let evidence = unique_sorted sort (
        match_base inv environment_names
        ++ (if has_file inv container then container ∷ [] else [])
        ++ workspace_toolchain repo inv) in
      if is_empty evidence
      then check attention evidence pin_environment
      else check ready evidence no_advice

  unfoldable pub ci_check : Inventory → Check
  unfolding unique_sorted ci_files
  ci_check inv =
      let check = verdict (codes "ci") (codes "Continuous integration") false in
      let evidence = unique_sorted sort (ci_files inv) in
      if is_empty evidence then check attention evidence add_ci else check ready evidence no_advice

  unfoldable pub ownership_check : Inventory → Check
  unfolding match_base
  ownership_check inv =
      let check = verdict (codes "ownership") (codes "Code ownership boundaries") false in
      let evidence = match_base inv (codes "CODEOWNERS" ∷ []) in
      if is_empty evidence
      then check attention evidence add_owners
      else check ready evidence no_advice

  unfoldable pub documentation_check : Inventory → Check
  unfolding match_base
  documentation_check inv =
      let check = verdict (codes "documentation") (codes "Repository documentation") false in
      let readme = codes "README.md" in
      let contributing = codes "CONTRIBUTING.md" in
      let evidence = match_base inv (readme ∷ contributing ∷ []) in
      if not (is_empty (match_base inv (readme ∷ [])))
        && not (is_empty (match_base inv (contributing ∷ [])))
      then check ready evidence no_advice
      else check attention evidence document_setup

  unfoldable pub agent_guidance_check : Inventory → Check
  unfolding match_base
  agent_guidance_check inv =
      let check = verdict (codes "agent_guidance") (codes "Agent guidance") false in
      let evidence = match_base inv (codes "AGENTS.md" ∷ codes "CLAUDE.md" ∷ []) in
      if is_empty evidence
      then check attention evidence add_instructions
      else check ready evidence no_advice

  -- `Inspect`; its loop over the checks is that of `summarize`
  unfoldable pub inspect : Repository → Result Text Report
  unfolding walk_entries dependency_check verification_check environment_check ci_check
      ownership_check documentation_check agent_guidance_check summarize
  inspect repo = walk_entries [] repo.entries >>= λ inv. ok (
      summarize (
        dependency_check inv
        ∷ verification_check repo inv
        ∷ environment_check repo inv
        ∷ ci_check inv
        ∷ ownership_check inv
        ∷ documentation_check inv
        ∷ agent_guidance_check inv
        ∷ []))
