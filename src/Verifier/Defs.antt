-- ===== src/Verifier/Defs.antt =====
-- packages/verifier/verifier.go: `Verify`, with the runtime and the store that it is given.
use dev_plane.Prelude.{
  ◌then◌, pure, ◌*◌, Bool, true, false, ◌||◌, ◌&&◌, not, Option, none, some, List, [], ◌∷◌, ◌++◌,
  Result, ok, err, fail_if, is_empty, if◌then◌else◌,
}
use dev_plane.Prelude.Int.{ℤ, pos, leb_ℤ}
use dev_plane.Text.{Text, codes, text_eq, mem_text, trim_space}
use dev_plane.Protocol
use dev_plane.Protocol.{
  Config, VerificationProfile, WorkItem, WorkState, GateEvidence, EvidenceBundle, GateStatus,
  validate_item, required_gates_for_paths, gate_independent_review, gate_human_approval, is_blank,
}
use dev_plane.Verifier.Outputs.{CommandResult, second, profile_timeout, evidence_output}

-- runtimes.Command, of which only these fields are set
pub record Command : Type 0 where
  pub command : Text
  pub args : List Text
  pub timeout : ℤ
  pub unsafe_shell : Bool

-- the result and the error of `ExecuteCommand`
pub record Reply : Type 0 where
  pub result : Option CommandResult
  pub error : Option Text

-- A call of the runtime or the store, with what it returned; an error is `some`.
pub data Call : Type 0 where
  reading : Text → Text → Call
  running : Text → Command → Reply → Call
  storing_evidence : EvidenceBundle → Option Text → Call
  storing_item : WorkItem → Option Text → Call

-- the calls so far, the last one first
abbrev pub History : Type 0
History = List Call

-- What a call returns may depend on all the calls before it.
pub record Runtime : Type 0 where
  pub read_file : History → Text → Text → Result Text Text
  pub execute_command : History → Text → Command → Reply

pub record EvidenceStore : Type 0 where
  pub put_evidence_bundle : History → EvidenceBundle → Option Text
  pub put_work_item : History → WorkItem → Option Text

-- `parse_config` is `ParseConfigYAML`, which decodes with a library.
pub record Verifier : Type 0 where
  pub runtime : Option Runtime
  pub store : Option EvidenceStore
  pub parse_config : Text → Result Text Config

pub record Request : Type 0 where
  pub session_id : Text
  pub work_item : WorkItem
  pub candidate_head : Text
  pub changed_paths : List Text

pub record Verification : Type 0 where
  pub evidence : EvidenceBundle
  pub pending_gates : List Text
  pub next_state : Option WorkState

-- `gate_failed` has the result that is returned beside the error.
pub data VerifyError : Type 0 where
  no_runtime no_store no_session no_candidate : VerifyError
  invalid_item : Protocol.Error → VerifyError
  config_unread config_invalid : Text → VerifyError
  unknown_gate : Text → VerifyError
  head_unread status_unread : Text → VerifyError
  head_failed status_failed not_clean : VerifyError
  head_changed head_mismatch : Text → VerifyError
  evidence_unstored failed_evidence_unstored item_unstored : Text → VerifyError
  gate_failed : Text → Verification → VerifyError

-- a part of `Verify`: it reads the calls so far and adds to them
abbrev pub Step : Type 0 → Type 0
Step A = History → Result VerifyError A × History

abbrev pub require : Bool → VerifyError → Step (Unit {0})
require b e = pure (fail_if (not b) e)

-- the two tests that `assertHead` and `assertClean` share: the output of a command that succeeded
abbrev pub exit_zero : CommandResult → Bool
exit_zero r = leb_ℤ r.exit_code (pos 0) && leb_ℤ (pos 0) r.exit_code

unfoldable pub stdout_of : (Text → VerifyError) → VerifyError → Reply → Result VerifyError Text
stdout_of unread failed reply = elim reply.error [
  | some e ↦ err (unread e)
  | none ↦ elim reply.result [
    | none ↦ err failed
    | some r ↦ if exit_zero r then ok (trim_space r.stdout) else err failed
  ]
]

unfoldable pub head_command : Command
head_command = record {
  command = [];
  args = codes "git" ∷ codes "rev-parse" ∷ codes "HEAD" ∷ [];
  timeout = pos (30 * second);
  unsafe_shell = false;
}

unfoldable pub status_command : Command
status_command = record {
  command = [];
  args = codes "git" ∷ codes "status" ∷ codes "--porcelain=v1" ∷ codes "--untracked-files=all" ∷ [];
  timeout = pos (30 * second);
  unsafe_shell = false;
}

unfoldable pub gate_command : VerificationProfile → Command
gate_command p = record {
  command = p.command;
  args = [];
  timeout = profile_timeout p.timeout_seconds;
  unsafe_shell = true;
}

unfoldable pub append_unique : List Text → Text → List Text
append_unique required raw =
    let gate = trim_space raw in
    if is_empty gate
    then required
    else if mem_text gate required
    then required
    else required ++ gate ∷ []

unfoldable pub append_all : List Text → List Text → List Text
unfolding append_unique
append_all required [] = required
append_all required (gate ∷ gates) = append_all (append_unique required gate) gates

unfoldable pub find_profile : List (Text × VerificationProfile) → Text → Option VerificationProfile
find_profile [] gate = none
find_profile ((name, p) ∷ profiles) gate =
    if text_eq gate name then some p else find_profile profiles gate

abbrev pub is_review : Text → Bool
is_review gate = text_eq gate gate_independent_review || text_eq gate gate_human_approval

-- the second loop of `resolveGates`, with the executable and the pending gates so far
unfoldable pub split_gates :
    Config → List Text → List Text → List Text → Result VerifyError (List Text × List Text)
unfolding find_profile
split_gates c executable pending [] = ok (executable, pending)
split_gates c executable pending (gate ∷ gates) =
    let review = split_gates c executable (pending ++ gate ∷ []) gates in
    let run = split_gates c (executable ++ gate ∷ []) pending gates in
    if is_review gate
    then review
    else elim (find_profile c.verification gate) [ none ↦ err (unknown_gate gate) | some p ↦ run ]

unfoldable pub resolve_gates :
    Config → List Text → List Text → Result VerifyError (List Text × List Text)
unfolding append_all split_gates
resolve_gates c work_gates changed =
    split_gates c [] [] (append_all (append_all [] work_gates) (required_gates_for_paths c changed))

-- `!failed`
abbrev pub succeeded : Reply → Bool
succeeded reply = elim reply.error [
  | some e ↦ false
  | none ↦ elim reply.result [ none ↦ false | some r ↦ exit_zero r ]
]

unfoldable pub gate_evidence : Text → VerificationProfile → Reply → GateEvidence
gate_evidence gate p reply = record {
  name = gate;
  status = if succeeded reply then GateStatus.passed else GateStatus.failed;
  command = p.command;
  output = evidence_output reply.result reply.error;
}

-- the profile of a gate that the map has, and the zero value otherwise
abbrev pub profile_of : Config → Text → VerificationProfile
profile_of c gate = elim (find_profile c.verification gate) [
  | some p ↦ p
  | none ↦ record { command = []; timeout_seconds = pos 0 }
]

abbrev pub with_gate : Verification → GateEvidence → Verification
with_gate r e = record r { evidence = record r.evidence { gates = r.evidence.gates ++ e ∷ [] } }

-- `Verify` after the loop
abbrev pub released_state : List Text → WorkState
released_state pending = if is_empty pending then WorkState.ready_to_land else WorkState.reviewing

abbrev pub start : WorkItem → Text → List Text → Verification
start w candidate pending = record {
  evidence = record {
    work_item_id = w.id;
    base_sha = w.base_sha;
    head_sha = candidate;
    gates = [];
  };
  pending_gates = pending;
  next_state = none;
}

module _ (rt : Runtime) where
  -- `ExecuteCommand`, which fails with its reply only
  unfoldable pub execute : Text → Command → Step Reply
  execute session c h =
      let reply = rt.execute_command h session c in (ok reply, running session c reply ∷ h)

  unfoldable pub assert_head : Text → Text → Bool → Step (Unit {0})
  unfolding execute stdout_of
  assert_head session candidate during = execute session head_command then λ reply.
      pure (stdout_of head_unread head_failed reply) then λ actual.
      require (text_eq actual candidate)
        (if during then head_changed actual else head_mismatch actual)

  unfoldable pub assert_clean : Text → Step (Unit {0})
  unfolding execute stdout_of
  assert_clean session = execute session status_command then λ reply.
      pure (stdout_of status_unread status_failed reply) then λ out.
      require (is_empty out) not_clean

module _ (store : EvidenceStore) where
  unfoldable pub store_evidence : (Text → VerifyError) → EvidenceBundle → Step (Unit {0})
  store_evidence unstored b h =
      let reply = store.put_evidence_bundle h b in
      (elim reply [ none ↦ ok tt | some e ↦ err (unstored e) ], storing_evidence b reply ∷ h)

  unfoldable pub store_item : WorkItem → Step (Unit {0})
  store_item w h =
      let reply = store.put_work_item h w in
      (elim reply [ none ↦ ok tt | some e ↦ err (item_unstored e) ], storing_item w reply ∷ h)

  -- the end of the body of the loop: a failed gate is stored and ends it
  unfoldable pub settle : Text → Reply → Verification → Step (Unit {0})
  unfolding store_evidence
  settle gate reply r =
      if succeeded reply
      then pure (ok tt)
      else store_evidence failed_evidence_unstored r.evidence then λ u.
          pure (err (gate_failed gate r))

  unfoldable pub finish : WorkItem → Verification → Step Verification
  unfolding store_evidence store_item
  finish w r =
      (if is_empty r.evidence.gates
        then pure (ok tt)
        else store_evidence evidence_unstored r.evidence)
      then λ u.
          store_item (record w {
            state = released_state r.pending_gates;
            claimed_by = [];
            lease_until = none;
          })
          then λ v. pure (ok (record r { next_state = some (released_state r.pending_gates) }))

module _ (rt : Runtime) (store : EvidenceStore) where
  -- the loop over the executable gates
  unfoldable pub run_gates : Config → Text → Text → List Text → Verification → Step Verification
  unfolding execute assert_head assert_clean settle gate_evidence
  run_gates c session candidate [] r = pure (ok r)
  run_gates c session candidate (gate ∷ gates) r =
      execute rt session (gate_command (profile_of c gate)) then λ reply.
      assert_head rt session candidate true then λ u. assert_clean rt session then λ v.
      settle store gate reply (with_gate r (gate_evidence gate (profile_of c gate) reply)) then λ x.
      run_gates c session candidate gates
        (with_gate r (gate_evidence gate (profile_of c gate) reply))

  -- `Verify` after the first tests
  unfoldable pub verify_candidate : (Text → Result Text Config) → Request → Step Verification
  unfolding assert_head assert_clean run_gates finish resolve_gates
  verify_candidate parse q =
      let candidate = trim_space q.candidate_head in
      (λ h. (
        elim (rt.read_file h q.session_id (codes "devplane.yaml")) [
          | ok bytes ↦ ok bytes
          | err e ↦ err (config_unread e)
        ],
        reading q.session_id (codes "devplane.yaml") ∷ h,
      ))
      then λ bytes.
          pure (elim (parse bytes) [ ok c ↦ ok c | err e ↦ err (config_invalid e) ]) then λ c.
          pure (resolve_gates c q.work_item.required_gates q.changed_paths) then λ gates.
          assert_head rt q.session_id candidate false then λ u.
          assert_clean rt q.session_id then λ v.
          run_gates c q.session_id candidate gates.0 (start q.work_item candidate gates.1) then λ r.
          finish store q.work_item r

abbrev pub checked : WorkItem → Result VerifyError (Unit {0})
checked w = elim (validate_item w) [ ok u ↦ ok tt | err e ↦ err (invalid_item e) ]

-- A nil verifier is one without a runtime.
unfoldable pub verify : Verifier → Request → Step Verification
unfolding verify_candidate
verify v q = elim v.runtime [
  | none ↦ pure (err no_runtime)
  | some rt ↦ elim v.store [
    | none ↦ pure (err no_store)
    | some store ↦ require (not (is_blank q.session_id)) no_session then λ a.
        require (not (is_blank q.candidate_head)) no_candidate then λ b.
        pure (checked q.work_item) then λ c. verify_candidate rt store v.parse_config q
  ]
]
