-- ===== src/Verifier/Examples.antt =====
-- packages/verifier/verifier.go: tests, and the theorems at concrete inputs.
use mathlib.Core.List.{Memᴰ}
use dev_plane.Prelude.{
  ◌+◌, ◌≤◌, true, false, ◌≡◌, ◌⊎◌, refl, none, some, [], ◌∷◌, Result, ok, err, any, is_empty,
  if◌then◌else◌,
}
use dev_plane.Prelude.Int.{ℤ, pos, ltb_ℤ, ◌<ℤ◌, ◌≤ℤ◌}
use dev_plane.Text.{
  Text, codes, text_eq, mem_text, trim_space, has_prefix, has_suffix, trim_prefix, trim_suffix,
  to_slashes, clean, contains_rune,
}
use dev_plane.Protocol.{
  Config, GateEvidence, WorkItem, WorkState, RiskLevel, validate_item, validate_head, each,
  check_path, normalize_pattern, normalize_repository_path, check_claimed, required_gates_for_paths,
  gates_from, add_gates, rule_matches, path_matches, matches_normalized, isolation_none,
  claimable_at,
}
use dev_plane.Verifier.Outputs.{
  profile_timeout, to_duration, evidence_output, truncated, join_lines, len, take_bytes,
  max_profile_timeout, truncation_mark,
}
use dev_plane.Verifier.Defs.{
  Reply, History, Runtime, EvidenceStore, Verifier, Request, Verification, VerifyError, verify,
  verify_candidate, not_clean, stdout_of, head_command, status_command, gate_command, append_unique,
  append_all, find_profile, split_gates, resolve_gates, gate_evidence, execute, store_evidence,
  store_item, assert_head, assert_clean, settle, run_gates, finish, is_review,
}
use dev_plane.Verifier.Gates.{wanted}
use dev_plane.Verifier.Release.{Released, verify-Released}
use dev_plane.Verifier.Items.{stored_items, verify-keeps_items}
use dev_plane.Verifier.Evidence.{Passed, verify-attests, verify-validate_head}
use dev_plane.Verifier.Landing.{verify-item}
use dev_plane.Verifier.Bounds.{profile_timeout-bounds, evidence_output-bounds}

abbrev item : WorkItem
item = record {
  id = codes "t1";
  repository = codes "r";
  objective = codes "o";
  acceptance_criteria = [];
  parent_id = [];
  discovered_from_id = [];
  depends_on = [];
  ownership_paths = codes "src/**" ∷ [];
  risk = RiskLevel.low;
  cost = pos 1;
  required_gates = codes " unit " ∷ [];
  base_sha = codes "b";
  claimed_by = codes "ann";
  lease_until = some (pos 9);
  state = WorkState.verifying;
}

abbrev config : Config
config = record {
  version = pos 1;
  commands = record { doctor = []; dev = []; logs = [] };
  verification = (codes "unit", record { command = codes "make"; timeout_seconds = pos 9 }) ∷ [];
  work = record {
    isolation = isolation_none;
    max_parallel_cost = pos 2;
    require_clean_handoff = false;
  };
  review = record { independent = true; exact_head = true };
  risk =
      record {
        paths = codes "src/**" ∷ [];
        level = RiskLevel.high;
        requires = codes "human_approval" ∷ [];
      }
      ∷ [];
}

abbrev says : Text → ℤ → Reply
says out code = record {
  result = some (record { stdout = out; stderr = []; exit_code = code });
  error = none;
}

-- The head is `c1`, the tree is clean, and gates end with the code.
abbrev machine : ℤ → Runtime
machine code = record {
  read_file = λ h session path. ok (codes "yaml");
  execute_command = λ h session c. (elim c.args [
    | [] ↦ says (codes "done") code
    | git ∷ args ↦
        if mem_text (codes "HEAD") args then says (codes "c1") (pos 0) else says [] (pos 0)
  ]);
}

abbrev takes : EvidenceStore
takes = record { put_evidence_bundle = λ h b. none; put_work_item = λ h w. none }

abbrev verifier : ℤ → Verifier
verifier code = record {
  runtime = some (machine code);
  store = some takes;
  parse_config = λ bytes. ok config;
}

abbrev request : Request
request = record {
  session_id = codes "s";
  work_item = item;
  candidate_head = codes " c1";
  changed_paths = codes "src/a.go" ∷ [];
}

program : Unit {0}
unfolding text_eq mem_text trim_space has_prefix has_suffix trim_prefix trim_suffix to_slashes clean
    contains_rune validate_item validate_head each check_path normalize_pattern
    normalize_repository_path check_claimed required_gates_for_paths gates_from add_gates
    rule_matches path_matches matches_normalized any profile_timeout to_duration evidence_output
    truncated join_lines len take_bytes verify verify_candidate stdout_of head_command
    status_command gate_command append_unique append_all find_profile split_gates resolve_gates
    gate_evidence execute store_evidence store_item assert_head assert_clean settle run_gates finish
    stored_items claimable_at
program = tt

abbrev outcome : ℤ → Result VerifyError Verification × History
outcome code = verify (verifier code) request []

abbrev verified : Verification
verified = record {
  evidence = record {
    work_item_id = codes "t1";
    base_sha = codes "b";
    head_sha = codes "c1";
    gates =
        gate_evidence (codes "unit") (record { command = codes "make"; timeout_seconds = pos 9 })
          (says (codes "done") (pos 0))
        ∷ [];
  };
  pending_gates = codes "human_approval" ∷ [];
  next_state = some WorkState.reviewing;
}

succeeds : verify (verifier (pos 0)) request [] ≡ (ok verified, (outcome (pos 0)).1)
unfolding program
succeeds = refl

abbrev failure : VerifyError
failure = elim (outcome (pos 1)).0 [ ok r ↦ not_clean | err e ↦ e ]

fails : verify (verifier (pos 1)) request [] ≡ (err failure, (outcome (pos 1)).1)
unfolding program
fails = refl

verify-Released_example : Released (verifier (pos 0)) request [] verified (outcome (pos 0)).1
verify-Released_example =
    verify-Released (verifier (pos 0)) request [] (outcome (pos 0)).1 verified succeeds

verify-attests_example :
    (x : Released (verifier (pos 0)) request [] verified (outcome (pos 0)).1) × ((g : Text)
      → wanted x.config request.work_item.required_gates request.changed_paths g ≡ true
      → ((is_review g ≡ true) × (mem_text g verified.pending_gates ≡ true))
        ⊎ ((e : GateEvidence) × Memᴰ e verified.evidence.gates × (e.name ≡ g) × Passed e))
verify-attests_example =
    verify-attests (verifier (pos 0)) request [] (outcome (pos 0)).1 verified succeeds

verify-validate_head_example : validate_head verified.evidence (codes " c1") ≡ ok tt
verify-validate_head_example =
    verify-validate_head (verifier (pos 0)) request [] (outcome (pos 0)).1 verified succeeds refl

verify-keeps_items_example : stored_items (outcome (pos 1)).1 ≡ stored_items []
verify-keeps_items_example =
    verify-keeps_items (verifier (pos 1)) request [] (outcome (pos 1)).1 failure fails

verify-item_example :
    (w : WorkItem) × (stored_items (outcome (pos 0)).1 ≡ w ∷ stored_items [])
    × (validate_item w ≡ ok tt)
    × (w.claimed_by ≡ [])
    × (w.lease_until ≡ none)
    × (claimable_at w (pos 7) ≡ false)
    × (w.state ≡ (
        if is_empty verified.pending_gates then WorkState.ready_to_land else WorkState.reviewing))
verify-item_example =
    verify-item (verifier (pos 0)) request [] (outcome (pos 0)).1 verified (pos 7) succeeds

profile_timeout-bounds_example :
    (pos 0 <ℤ profile_timeout (pos 99999)) × (profile_timeout (pos 99999) ≤ℤ max_profile_timeout)
profile_timeout-bounds_example = profile_timeout-bounds (pos 99999) refl

evidence_output-bounds_example :
    len
      (evidence_output (some (record { stdout = codes "a"; stderr = []; exit_code = pos 0 })) none)
    ≤ 50000 + len truncation_mark
evidence_output-bounds_example =
    evidence_output-bounds (some (record { stdout = codes "a"; stderr = []; exit_code = pos 0 }))
      none

-- one second more than fits: the time is negative
wrapped_timeout : ltb_ℤ (profile_timeout (pos 9223372037)) (pos 0) ≡ true
unfolding program
wrapped_timeout = refl
