-- ===== src/Readiness/Report.antt =====
-- packages/readiness/readiness.go: what blocks a repository.
use mathlib.Core.List.{Memᴰ}
use dev_plane.Prelude.{
  Bool, true, false, ◌↔◌, ◌||◌, ◌&&◌, not, ◌≡◌, refl, List, [], ◌∷◌, ok, arith, is_empty, any,
  >>=-eq-ok, ok-injective, ◌∙◌, ap, sym,
}
use dev_plane.Text.{Text, codes, mem_text}
use dev_plane.Readiness.Defs.{ready, Report, is_blocked, summarize}
use dev_plane.Readiness.Admission.{stops, summarize_from-blocked}
use dev_plane.Readiness.Files.{
  Repository, Inventory, walk_entries, matching, path_base, contains_command,
}
use dev_plane.Readiness.Mention.{Mentions, contains_command_iff}
use dev_plane.Readiness.Inspect.{
  inspect, match_base, manifest_names, node_lock_names, unlocked, verification_commands,
  dependency_check, verification_check, environment_check, ci_check, ownership_check,
  documentation_check, agent_guidance_check,
}

-- a file of the repository has one of the names
abbrev pub has_named : Inventory → List Text → Bool
has_named inv names = any (λ file. mem_text (path_base file) names) inv

-- there is a manifest of Node, and none of its lockfiles
unfoldable pub lacks_node_lock : Inventory → Bool
unfolding any mem_text path_base
lacks_node_lock inv =
    has_named inv (codes "package.json" ∷ []) && not (has_named inv node_lock_names)

matching-has_named :
    (names : List Text) (inv : Inventory)
    → is_empty (matching names inv) ≡ not (has_named inv names)
unfolding matching any
matching-has_named names [] = refl
matching-has_named names (file ∷ inv) = ground (arith, matching-has_named names inv)

node-is_manifest :
    (base : Text)
    → mem_text base (codes "package.json" ∷ []) ≡ true
    → mem_text base manifest_names ≡ true
unfolding mem_text
node-is_manifest base h = ground arith

has_named-node :
    (inv : Inventory)
    → has_named inv (codes "package.json" ∷ []) ≡ true
    → has_named inv manifest_names ≡ true
unfolding any
has_named-node [] h = cc
has_named-node (file ∷ inv) h =
    ground (arith, node-is_manifest (path_base file), has_named-node inv)

module _ (sort : List Text → List Text)
    (keeps_empty : (xs : List Text) → is_empty (sort xs) ≡ is_empty xs) where
  -- the test of `dependencyCheck` that blocks
  abbrev node_blocks : Inventory → Bool
  node_blocks inv =
      not (is_empty (match_base sort inv manifest_names))
      && unlocked sort inv (codes "package.json" ∷ []) node_lock_names

  -- the test of `verificationCheck` that blocks
  abbrev tests_block : Repository → Inventory → Bool
  tests_block repo inv = not (contains_command (verification_commands sort repo inv) (codes "test"))

  match_base-has_named :
      (inv : Inventory) (names : List Text)
      → is_empty (match_base sort inv names) ≡ not (has_named inv names)
  unfolding match_base
  match_base-has_named inv names = keeps_empty (matching names inv) ∙ matching-has_named names inv

  node_blocks-lacks : (inv : Inventory) → node_blocks inv ≡ lacks_node_lock inv
  unfolding lacks_node_lock
  node_blocks-lacks inv = ground (
    arith,
    match_base-has_named inv manifest_names,
    match_base-has_named inv (codes "package.json" ∷ []),
    match_base-has_named inv node_lock_names,
    has_named-node inv,
  )

  module _ (repo : Repository) (inv : Inventory) where
    dependency_check-stops : stops (dependency_check sort inv) ≡ node_blocks inv
    unfolding dependency_check
    dependency_check-stops = ground arith

    verification_check-stops : stops (verification_check sort repo inv) ≡ tests_block repo inv
    unfolding verification_check
    verification_check-stops = ground arith

    others-pass :
        any stops (
          environment_check sort repo inv
          ∷ ci_check sort inv
          ∷ ownership_check sort inv
          ∷ documentation_check sort inv
          ∷ agent_guidance_check sort inv
          ∷ [])
        ≡ false
    unfolding any environment_check ci_check ownership_check documentation_check
        agent_guidance_check
    others-pass = ground arith

  blocked-lacks :
      (repo : Repository) (report : Report)
      → inspect sort repo ≡ ok report
      → (inv : Inventory) × (walk_entries [] repo.entries ≡ ok inv)
        × (is_blocked report.status ≡ (node_blocks inv || tests_block repo inv))
  unfolding inspect summarize any
  blocked-lacks repo report h =
      let (inv, walked, e) = >>=-eq-ok (walk_entries [] repo.entries) _ h in
      let checks =
        dependency_check sort inv
        ∷ verification_check sort repo inv
        ∷ environment_check sort repo inv
        ∷ ci_check sort inv
        ∷ ownership_check sort inv
        ∷ documentation_check sort inv
        ∷ agent_guidance_check sort inv
        ∷ [] in
      (
        inv,
        walked,
        ap (λ (r : Report). is_blocked r.status) (sym (ok-injective e))
            ∙ summarize_from-blocked ready checks refl
            ∙ ground (
              arith,
              dependency_check-stops repo inv,
              verification_check-stops repo inv,
              others-pass repo inv,
            ),
      )

  -- Where the sort makes no list empty and fills no empty one: `Inspect` lets a repository through,
  -- as ready or in need of attention, exactly if it has no package.json or has a lockfile of Node,
  -- in any folders, and a command that was found ends with `test` or has `test` behind a space.
  pub inspect-blocked :
      (repo : Repository) (report : Report)
      → inspect sort repo ≡ ok report
      → (inv : Inventory) × (walk_entries [] repo.entries ≡ ok inv)
        × ((is_blocked report.status ≡ false) ↔ (
            (lacks_node_lock inv ≡ false)
            × ((c : Text) × Memᴰ c (verification_commands sort repo inv)
                × Mentions (codes "test") c)))
  inspect-blocked repo report h =
      let (inv, walked, e) = blocked-lacks repo report h in
      let commands = verification_commands sort repo inv in
      (
        inv,
        walked,
        (
          λ free. (
            ground (arith, e, node_blocks-lacks inv),
            (contains_command_iff commands (codes "test")).0
                (ground (arith, e, node_blocks-lacks inv)),
          ),
          λ (locked, found). ground (
            arith,
            e,
            node_blocks-lacks inv,
            locked,
            (contains_command_iff commands (codes "test")).1 found,
          ),
        ),
      )
