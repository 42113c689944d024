-- ===== src/Protocol/Defs.antt =====
-- packages/repoprotocol/protocol.go: the configuration of a repository, evidence, and work items.
use dev_plane.Prelude.{
  Bool, true, false, ◌||◌, ◌&&◌, not, Option, none, some, List, [], ◌∷◌, ◌++◌, Result, ok, err,
  ◌>>◌, fail_if, any, is_empty, if◌then◌else◌,
}
use dev_plane.Prelude.Int.{ℤ, pos, leb_ℤ, ltb_ℤ}
use dev_plane.Text.{Text, codes, text_eq, mem_text, trim_space}
use dev_plane.Protocol.Paths.{PathError, normalize_pattern, path_matches}

-- The strings with named values; `other` is any other string.
pub data Isolation : Type 0 where
  isolation_none worktree container : Isolation
  other : Text → Isolation

pub data RiskLevel : Type 0 where
  low medium high critical : RiskLevel
  other : Text → RiskLevel

pub data WorkState : Type 0 where
  draft ready claimed implementing verifying reviewing ready_to_land landed : WorkState
  failed cancelled : WorkState
  other : Text → WorkState

pub data GateStatus : Type 0 where
  pending passed failed skipped : GateStatus
  other : Text → GateStatus

pub record VerificationProfile : Type 0 where
  pub command : Text
  pub timeout_seconds : ℤ

pub record Commands : Type 0 where
  pub doctor : Text
  pub dev : Text
  pub logs : Text

pub record WorkConfig : Type 0 where
  pub isolation : Isolation
  pub max_parallel_cost : ℤ
  pub require_clean_handoff : Bool

pub record ReviewConfig : Type 0 where
  pub independent : Bool
  pub exact_head : Bool

pub record RiskRule : Type 0 where
  pub paths : List Text
  pub level : RiskLevel
  pub requires : List Text

-- The map of profiles is the list of its entries.
pub record Config : Type 0 where
  pub version : ℤ
  pub commands : Commands
  pub verification : List (Text × VerificationProfile)
  pub work : WorkConfig
  pub review : ReviewConfig
  pub risk : List RiskRule

pub record GateEvidence : Type 0 where
  pub name : Text
  pub status : GateStatus
  pub command : Text
  pub output : Text

pub record EvidenceBundle : Type 0 where
  pub work_item_id : Text
  pub base_sha : Text
  pub head_sha : Text
  pub gates : List GateEvidence

-- A time is in nanoseconds since Go's zero time.
pub record WorkItem : Type 0 where
  pub id : Text
  pub repository : Text
  pub objective : Text
  pub acceptance_criteria : List Text
  pub parent_id : Text
  pub discovered_from_id : Text
  pub depends_on : List Text
  pub ownership_paths : List Text
  pub risk : RiskLevel
  pub cost : ℤ
  pub required_gates : List Text
  pub base_sha : Text
  pub claimed_by : Text
  pub lease_until : Option ℤ
  pub state : WorkState

pub data Error : Type 0 where
  unsupported_version no_profiles profile_unnamed : Error
  profile_without_command profile_timeout : Text → Error
  unsupported_isolation cost_not_positive : Error
  rule_level rule_without_path : RiskRule → Error
  rule_path : RiskRule → PathError → Error
  unknown_gate : Text → Error
  candidate_required base_required head_required head_mismatch no_gates gate_unnamed : Error
  gate_not_passed : GateEvidence → Error
  item_id item_repository item_objective item_ownership item_risk item_cost : Error
  item_path : PathError → Error
  item_base item_state claim_unnamed claim_without_lease : Error

-- a loop that returns the first error
unfoldable pub each {ℓ} :
    {A : Type ℓ} → (A → Result Error (Unit {0})) → List A → Result Error (Unit {0})
each check [] = ok tt
each check (x ∷ xs) = check x >> each check xs

abbrev pub is_blank : Text → Bool
is_blank t = is_empty (trim_space t)

abbrev pub valid_risk : RiskLevel → Bool
valid_risk (other t) = false
valid_risk _ = true

abbrev pub valid_work_state : WorkState → Bool
valid_work_state (other t) = false
valid_work_state _ = true

abbrev pub valid_isolation : Isolation → Bool
valid_isolation (other t) = false
valid_isolation _ = true

abbrev pub gate_independent_review : Text
gate_independent_review = codes "independent_review"

abbrev pub gate_human_approval : Text
gate_human_approval = codes "human_approval"

unfoldable pub has_profile : Text → List (Text × VerificationProfile) → Bool
has_profile gate [] = false
has_profile gate ((name, p) ∷ profiles) = text_eq gate name || has_profile gate profiles

unfoldable pub known_gate : Config → Text → Bool
known_gate c raw =
    let gate = trim_space raw in
    text_eq gate gate_independent_review
    || text_eq gate gate_human_approval
    || has_profile gate c.verification

unfoldable pub check_profile : Text × VerificationProfile → Result Error (Unit {0})
check_profile (raw, p) =
    let name = trim_space raw in
    fail_if (is_empty name) profile_unnamed
    >> (fail_if (is_blank p.command) (profile_without_command name)
        >> fail_if (ltb_ℤ p.timeout_seconds (pos 0)) (profile_timeout name))

-- the test of a path in a rule or an item, with the error that it is wrapped in
unfoldable pub check_path : (PathError → Error) → Text → Result Error (Unit {0})
check_path wrap raw = elim (normalize_pattern raw) [ ok p ↦ ok tt | err e ↦ err (wrap e) ]

unfoldable pub check_rule : Config → RiskRule → Result Error (Unit {0})
unfolding each
check_rule c rule =
    fail_if (not (valid_risk rule.level)) (rule_level rule)
    >> (fail_if (is_empty rule.paths) (rule_without_path rule)
        >> (each (check_path (rule_path rule)) rule.paths
            >> each (λ gate. fail_if (not (known_gate c gate)) (unknown_gate gate)) rule.requires))

unfoldable pub validate_config : Config → Result Error (Unit {0})
unfolding each
validate_config c =
    fail_if (not (leb_ℤ c.version (pos 1) && leb_ℤ (pos 1) c.version)) unsupported_version
    >> (fail_if (is_empty c.verification) no_profiles
        >> (each check_profile c.verification
            >> (fail_if (not (valid_isolation c.work.isolation)) unsupported_isolation
                >> (fail_if (leb_ℤ c.work.max_parallel_cost (pos 0)) cost_not_positive
                    >> each (check_rule c) c.risk))))

unfoldable pub rule_matches : RiskRule → List Text → Bool
unfolding any
rule_matches rule changed = any (λ pattern. any (path_matches pattern) changed) rule.paths

-- the inner loop: the gates of a rule that were not seen before, behind the result
unfoldable pub add_gates : List Text → List Text → List Text
add_gates result [] = result
add_gates result (gate ∷ gates) =
    add_gates (if mem_text gate result then result else result ++ gate ∷ []) gates

unfoldable pub gates_from : List Text → List Text → List RiskRule → List Text
unfolding add_gates
gates_from changed result [] = result
gates_from changed result (rule ∷ rules) =
    gates_from changed
      (if rule_matches rule changed then add_gates result rule.requires else result) rules

-- The keys of `seen` are the elements of `result`.
unfoldable pub required_gates_for_paths : Config → List Text → List Text
unfolding gates_from
required_gates_for_paths c changed = gates_from changed [] c.risk

abbrev pub is_passed : GateStatus → Bool
is_passed passed = true
is_passed _ = false

unfoldable pub validate_head : EvidenceBundle → Text → Result Error (Unit {0})
unfolding each
validate_head e raw =
    let candidate = trim_space raw in
    fail_if (is_empty candidate) candidate_required
    >> (fail_if (is_blank e.base_sha) base_required
        >> (fail_if (is_blank e.head_sha) head_required
            >> (fail_if (not (text_eq e.head_sha candidate)) head_mismatch
                >> (fail_if (is_empty e.gates) no_gates
                    >> each
                        (λ (gate : GateEvidence).
                          fail_if (is_blank gate.name) gate_unnamed
                          >> fail_if (not (is_passed gate.status)) (gate_not_passed gate))
                        e.gates))))

abbrev pub is_claimed : WorkState → Bool
is_claimed claimed = true
is_claimed _ = false

abbrev pub is_none : {A : Type 0} → Option A → Bool
is_none none = true
is_none (some a) = false

unfoldable pub check_claimed : WorkItem → Result Error (Unit {0})
check_claimed w =
    if is_claimed w.state
    then fail_if (is_blank w.claimed_by) claim_unnamed
      >> fail_if (is_none w.lease_until) claim_without_lease
    else ok tt

unfoldable pub validate_item : WorkItem → Result Error (Unit {0})
unfolding each check_claimed
validate_item w =
    fail_if (is_blank w.id) item_id
    >> (fail_if (is_blank w.repository) item_repository
        >> (fail_if (is_blank w.objective) item_objective
            >> (fail_if (is_empty w.ownership_paths) item_ownership
                >> (each (check_path item_path) w.ownership_paths
                    >> (fail_if (not (valid_risk w.risk)) item_risk
                        >> (fail_if (leb_ℤ w.cost (pos 0)) item_cost
                            >> (fail_if (is_blank w.base_sha) item_base
                                >> (fail_if (not (valid_work_state w.state)) item_state
                                    >> check_claimed w))))))))

abbrev pub can_claim : WorkItem → Bool
can_claim w = elim w.state [ ready ↦ true | _ ↦ false ]
