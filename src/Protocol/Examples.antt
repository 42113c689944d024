-- ===== src/Protocol/Examples.antt =====
-- packages/repoprotocol: tests, and the theorems at concrete inputs.
use dev_plane.Prelude.{true, false, ◌≡◌, ◌↔◌, refl, none, some, [], ◌∷◌, ok, err, All, any}
use dev_plane.Prelude.Int.{pos, leb_ℤ, ◌+ℤ◌}
use dev_plane.Text.{
  codes, elements, IsName, trim_space, mem_text, Distinct, text_eq, has_prefix, trim_prefix,
  trim_suffix, has_suffix, to_slashes, clean, contains_rune,
}
use dev_plane.Protocol.Paths.{
  normalize_repository_path, leaves_repository, path_matches, normalize_pattern, matches_normalized,
}
use dev_plane.Protocol.Defs.{
  WorkItem, WorkState, RiskLevel, Config, validate_config, required_gates_for_paths, known_gate,
  is_blank, validate_item, isolation_none, each, check_path, check_claimed, check_profile,
  check_rule, has_profile, rule_matches, gates_from, add_gates,
}
use dev_plane.Protocol.Claim.{claim, active_lease, claimable_at, has_active_lease}
use dev_plane.Protocol.Inside.{normalize_repository_path-inside}
use dev_plane.Protocol.Leases.{
  leased, claim_iff, Attempts, none_yet, attempt, attempted, claim_exclusive, claim_expires,
}
use dev_plane.Protocol.Gates.{asks, required_gates_for_paths_lem, required_gates_for_paths-known}

abbrev item : WorkItem
item = record {
  id = codes "t1";
  repository = codes "r";
  objective = codes "o";
  acceptance_criteria = [];
  parent_id = [];
  discovered_from_id = [];
  depends_on = [];
  ownership_paths = codes "src/**" ∷ [];
  risk = RiskLevel.low;
  cost = pos 1;
  required_gates = [];
  base_sha = codes "b";
  claimed_by = [];
  lease_until = none;
  state = WorkState.ready;
}

abbrev config : Config
config = record {
  version = pos 1;
  commands = record { doctor = []; dev = []; logs = [] };
  verification = (codes "unit", record { command = codes "make"; timeout_seconds = pos 9 }) ∷ [];
  work = record {
    isolation = isolation_none;
    max_parallel_cost = pos 2;
    require_clean_handoff = false;
  };
  review = record { independent = true; exact_head = true };
  risk =
      record {
        paths = codes "src/**" ∷ [];
        level = RiskLevel.high;
        requires = codes "unit" ∷ codes "human_approval" ∷ [];
      }
      ∷ [];
}

program : Unit {0}
unfolding validate_item each check_path normalize_pattern normalize_repository_path trim_space
    check_claimed text_eq has_prefix trim_prefix trim_suffix has_suffix to_slashes clean claim
    claimable_at has_active_lease ◌+ℤ◌ validate_config check_profile check_rule known_gate
    has_profile rule_matches path_matches matches_normalized required_gates_for_paths gates_from
    add_gates any mem_text elements contains_rune
program = tt

item_valid : validate_item item ≡ ok tt
unfolding program
item_valid = refl

abbrev held : WorkItem
held = leased item (codes "ann") (pos 10) (pos 5)

refused : claim (some held) (codes "bob") (pos 12) (pos 5) ≡ err (active_lease (codes "ann"))
unfolding program
refused = refl

outside : normalize_repository_path (codes "src/../../etc") ≡ err leaves_repository
unfolding program
outside = refl

gates :
    required_gates_for_paths config (codes "src/a.go" ∷ [])
    ≡ codes "unit" ∷ codes "human_approval" ∷ []
unfolding program
gates = refl

normalize_repository_path-inside_example : All IsName (elements [] (codes "src/b"))
unfolding program
normalize_repository_path-inside_example =
    normalize_repository_path-inside (codes "./src/a/../b/") (codes "src/b") refl

claim_iff_example : (claim (some item) (codes "ann") (pos 10) (pos 5) ≡ ok held) ↔ (
    (is_blank (codes "ann") ≡ false)
    × (leb_ℤ (pos 5) (pos 0) ≡ false)
    × (claimable_at item (pos 10) ≡ true)
    × (held ≡ leased item (codes "ann") (pos 10) (pos 5)))
claim_iff_example = claim_iff item held (codes "ann") (pos 10) (pos 5)

granted : claim (some item) (codes "ann") (pos 10) (pos 5) ≡ ok held
unfolding program
granted = refl

abbrev tried : WorkItem
tried = attempted held (claim (some held) (codes "bob") (pos 14) (pos 9))

bob_tries : Attempts (pos 10 +ℤ pos 5) held tried
unfolding program
bob_tries = attempt none_yet (codes "bob") (pos 14) (pos 9) refl refl

claim_exclusive_example : tried ≡ held
claim_exclusive_example =
    claim_exclusive item held tried (codes "ann") (pos 10) (pos 5) granted bob_tries

claim_expires_example :
    claim (some held) (codes "bob") (pos 15) (pos 7)
    ≡ ok (leased held (codes "bob") (pos 15) (pos 7))
unfolding program
claim_expires_example =
    claim_expires item held (codes "ann") (codes "bob") (pos 10) (pos 5) (pos 15) (pos 7) granted
      refl refl refl

required_gates_for_paths_lem_example :
    Distinct (required_gates_for_paths config (codes "src/a.go" ∷ []))
    × (mem_text (codes "unit") (required_gates_for_paths config (codes "src/a.go" ∷ []))
        ≡ any (asks (codes "unit") (codes "src/a.go" ∷ [])) config.risk)
required_gates_for_paths_lem_example =
    required_gates_for_paths_lem config (codes "src/a.go" ∷ []) (codes "unit")

required_gates_for_paths-known_example : known_gate config (codes "human_approval") ≡ true
unfolding program
required_gates_for_paths-known_example =
    required_gates_for_paths-known config (codes "src/a.go" ∷ []) (codes "human_approval") refl refl

-- A profile whose name has spaces around it is accepted, but no gate can name it.
abbrev spaced : Config
spaced = record config {
  verification = (codes " unit ", record { command = codes "make"; timeout_seconds = pos 9 }) ∷ [];
  risk = [];
}

spaced_accepted : validate_config spaced ≡ ok tt
unfolding program
spaced_accepted = refl

spaced_unknown : known_gate spaced (codes " unit ") ≡ false
unfolding program
spaced_unknown = refl
