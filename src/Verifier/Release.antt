-- ===== src/Verifier/Release.antt =====
-- packages/verifier/verifier.go: what has happened when `Verify` succeeds.
use dev_plane.Prelude.{
  ◌then◌, pure, after-ok, Option-cases, not-err-ok, subst, false, not, ◌≡◌, refl, sym, ◌∙◌, ap, inl,
  inr, none, some, List, [], ◌∷◌, ok, err, Result, ok-injective, arith, Bool-cases, is_empty,
  if◌then◌else◌,
}
use dev_plane.Text.{Text, codes, trim_space}
use dev_plane.Protocol.{Config, GateEvidence, EvidenceBundle, WorkItem, is_blank, validate_item}
use dev_plane.Verifier.Defs.{
  History, Runtime, EvidenceStore, Verifier, Request, Verification, VerifyError, Step, require,
  assert_head, assert_clean, run_gates, finish, start, verify_candidate, verify, reading,
  storing_item, storing_evidence, store_evidence, store_item, no_session, no_candidate, no_runtime,
  no_store, checked, evidence_unstored, config_unread, config_invalid, resolve_gates,
  released_state,
}
use dev_plane.Verifier.Steps.{
  require-ok, pure-ok, asserted, run_gates-GateRuns, Clean, GateRuns, with_gates,
}

-- the item that a verification releases
abbrev pub released_item : WorkItem → List Text → WorkItem
released_item w pending = record w {
  state = released_state pending;
  claimed_by = [];
  lease_until = none;
}

-- the evidence is stored, where there is any, and then the item
abbrev pub stored_calls : EvidenceBundle → WorkItem → History → History
stored_calls b w h =
    storing_item w none ∷ (if is_empty b.gates then h else storing_evidence b none ∷ h)

store_evidence-ok :
    (store : EvidenceStore) (unstored : Text → VerifyError) (b : EvidenceBundle) (h h2 : History)
    {u : Unit {0}}
    → store_evidence store unstored b h ≡ (ok u, h2)
    → h2 ≡ storing_evidence b none ∷ h
unfolding store_evidence
store_evidence-ok store unstored b h h2 e = ground arith

evidence-ok :
    (store : EvidenceStore) (b : EvidenceBundle) (h h2 : History) {u : Unit {0}}
    → (if is_empty b.gates then pure (ok tt) else store_evidence store evidence_unstored b) h
      ≡ (ok u, h2)
    → h2 ≡ (if is_empty b.gates then h else storing_evidence b none ∷ h)
evidence-ok store b h h2 e = elim (Bool-cases (is_empty b.gates)) [
  | inl x ↦ rw x ((pure-ok (Unit {0}) (ok tt) h h2 (rw x at e)).1)
  | inr x ↦ rw x (store_evidence-ok store evidence_unstored b h h2 (rw x at e))
]

store_item-ok :
    (store : EvidenceStore) (w : WorkItem) (h h2 : History) {u : Unit {0}}
    → store_item store w h ≡ (ok u, h2)
    → h2 ≡ storing_item w none ∷ h
unfolding store_item
store_item-ok store w h h2 e = ground arith

finish-ok :
    (store : EvidenceStore) (w : WorkItem) (r r2 : Verification) (h h2 : History)
    → finish store w r h ≡ (ok r2, h2)
    → (r2 ≡ record r { next_state = some (released_state r.pending_gates) })
      × (h2 ≡ stored_calls r.evidence (released_item w r.pending_gates) h)
unfolding finish
finish-ok store w r r2 h h2 e =
    let (u, h3, first, e1) =
      after-ok
        ((if is_empty r.evidence.gates
            then pure (ok tt)
            else store_evidence store evidence_unstored r.evidence)
          h)
        _ e in
    let (v, h4, second, e2) =
      after-ok (store_item store (released_item w r.pending_gates) h3) _ e1 in
    let (same, here) = pure-ok Verification _ h4 h2 e2 in
    (
      sym (ok-injective same),
      here
          ∙ store_item-ok store _ h3 h4 second
          ∙ ap (λ x. storing_item (released_item w r.pending_gates) none ∷ x)
              (evidence-ok store r.evidence h h3 first),
    )

-- What has happened when a candidate is verified: the configuration was read and its gates resolved,
-- the tree was clean at the candidate's head before and after every gate, every executable gate
-- succeeded, and the evidence and then the item were stored.
pub record Released (v : Verifier) (q : Request) (h : History) (r : Verification) (h2 : History)
    : Type 0 where
  pub runtime : Runtime
  pub store : EvidenceStore
  pub has_runtime : v.runtime ≡ some runtime
  pub has_store : v.store ≡ some store
  pub session : is_blank q.session_id ≡ false
  pub candidate : is_blank q.candidate_head ≡ false
  pub item : validate_item q.work_item ≡ ok tt
  pub bytes : Text
  pub config : Config
  pub read : runtime.read_file h q.session_id (codes "devplane.yaml") ≡ ok bytes
  pub parsed : v.parse_config bytes ≡ ok config
  pub executable : List Text
  pub resolved :
      resolve_gates config q.work_item.required_gates q.changed_paths
      ≡ ok (executable, r.pending_gates)
  pub begun : History
  pub before :
      Clean runtime q.session_id
        (trim_space q.candidate_head)
        (reading q.session_id (codes "devplane.yaml") ∷ h)
        begun
  pub done : History
  pub runs :
      GateRuns runtime q.session_id
        (trim_space q.candidate_head)
        config
        begun
        executable
        r.evidence.gates
        done
  pub evidence :
      r.evidence
      ≡ record (start q.work_item (trim_space q.candidate_head) r.pending_gates).evidence {
        gates = r.evidence.gates;
      }
  pub next : r.next_state ≡ some (released_state r.pending_gates)
  pub stored : h2 ≡ stored_calls r.evidence (released_item q.work_item r.pending_gates) done

abbrev pub read_step : Runtime → Request → Step Text
read_step rt q h = (
  elim (rt.read_file h q.session_id (codes "devplane.yaml")) [
    | ok bytes ↦ ok bytes
    | err e ↦ err (config_unread e)
  ],
  reading q.session_id (codes "devplane.yaml") ∷ h,
)

read_step-ok :
    (rt : Runtime) (q : Request) (h h2 : History) {bytes : Text}
    → read_step rt q h ≡ (ok bytes, h2)
    → (rt.read_file h q.session_id (codes "devplane.yaml") ≡ ok bytes)
      × (h2 ≡ reading q.session_id (codes "devplane.yaml") ∷ h)
read_step-ok rt q h h2 e = ground arith

abbrev pub parse_step : Verifier → Text → Result VerifyError Config
parse_step v bytes = elim (v.parse_config bytes) [ ok c ↦ ok c | err e ↦ err (config_invalid e) ]

parse_step-ok :
    (v : Verifier) (bytes : Text) (h h2 : History) {c : Config}
    → pure (parse_step v bytes) h ≡ (ok c, h2)
    → (v.parse_config bytes ≡ ok c) × (h2 ≡ h)
parse_step-ok v bytes h h2 e = ground arith

assembled :
    (v : Verifier) (rt : Runtime) (store : EvidenceStore) (q : Request) (h h7 h8 h2 : History)
    (r r8 : Verification) (bytes : Text) (c : Config) (executable pending : List Text)
    (es : List GateEvidence)
    → v.runtime ≡ some rt
    → v.store ≡ some store
    → is_blank q.session_id ≡ false
    → is_blank q.candidate_head ≡ false
    → validate_item q.work_item ≡ ok tt
    → rt.read_file h q.session_id (codes "devplane.yaml") ≡ ok bytes
    → v.parse_config bytes ≡ ok c
    → resolve_gates c q.work_item.required_gates q.changed_paths ≡ ok (executable, pending)
    → Clean rt q.session_id
        (trim_space q.candidate_head)
        (reading q.session_id (codes "devplane.yaml") ∷ h)
        h7
    → GateRuns rt q.session_id (trim_space q.candidate_head) c h7 executable es h8
    → r8 ≡ with_gates (start q.work_item (trim_space q.candidate_head) pending) es
    → finish store q.work_item r8 h8 ≡ (ok r, h2)
    → Released v q h r h2
assembled v rt store q h h7 h8 h2 r r8 bytes c executable pending es has_runtime has_store session
      candidate item read parsed resolved before runs grown e =
    let made = with_gates (start q.work_item (trim_space q.candidate_head) pending) es in
    let (last, stored) = finish-ok store q.work_item made r h8 h2 (rw grown at e) in
    subst (λ x. Released v q h x h2) (sym last)
      (record {
        runtime = rt;
        store = store;
        has_runtime = has_runtime;
        has_store = has_store;
        session = session;
        candidate = candidate;
        item = item;
        bytes = bytes;
        config = c;
        read = read;
        parsed = parsed;
        executable = executable;
        resolved = resolved;
        begun = h7;
        before = before;
        done = h8;
        runs = runs;
        evidence = refl;
        next = refl;
        stored = stored;
      })

candidate-Released :
    (v : Verifier) (rt : Runtime) (store : EvidenceStore) (q : Request) (h h2 : History)
    (r : Verification)
    → v.runtime ≡ some rt
    → v.store ≡ some store
    → is_blank q.session_id ≡ false
    → is_blank q.candidate_head ≡ false
    → validate_item q.work_item ≡ ok tt
    → verify_candidate rt store v.parse_config q h ≡ (ok r, h2)
    → Released v q h r h2
unfolding verify_candidate
candidate-Released v rt store q h h2 r has_runtime has_store session candidate item e =
    let file = codes "devplane.yaml" in
    let (bytes, h3, e3, f3) = after-ok (read_step rt q h) _ e in
    let (read, here3) = read_step-ok rt q h h3 e3 in
    let (c, h4, e4, f4) = after-ok (pure (parse_step v bytes) h3) _ f3 in
    let (parsed, here4) = parse_step-ok v bytes h3 h4 e4 in
    let (gates, h5, e5, f5) =
      after-ok (pure (resolve_gates c q.work_item.required_gates q.changed_paths) h4) _ f4 in
    let (resolved, here5) = pure-ok (List Text × List Text) _ h4 h5 e5 in
    let (u, h6, e6, f6) =
      after-ok (assert_head rt q.session_id (trim_space q.candidate_head) false h5) _ f5 in
    let (x, h7, e7, f7) = after-ok (assert_clean rt q.session_id h6) _ f6 in
    let (r8, h8, e8, f8) =
      after-ok
        (run_gates rt store c q.session_id (trim_space q.candidate_head) gates.0
          (start q.work_item (trim_space q.candidate_head) gates.1) h7)
        _ f7 in
    let (es, runs, grown) =
      run_gates-GateRuns rt q.session_id (trim_space q.candidate_head) store c gates.0 _ r8 h7 h8
        e8 in
    assembled v rt store q h h7 h8 h2 r r8 bytes c gates.0 gates.1 es has_runtime has_store session
      candidate item read parsed resolved
      (subst (λ x. Clean rt q.session_id (trim_space q.candidate_head) x h7) (here5 ∙ here4 ∙ here3)
        (asserted rt q.session_id (trim_space q.candidate_head) false h5 h6 h7 e6 e7))
      runs grown f8

refused :
    (x : VerifyError) (h h2 : History) (r : Verification)
    → pure {A = Verification} (err x) h ≡ (ok r, h2)
    → ⊥
refused x h h2 r e = not-err-ok (ap (λ (p : Result VerifyError Verification × History). p.0) e)

checked-ok : (w : WorkItem) {u : Unit {0}} → checked w ≡ ok u → validate_item w ≡ ok tt
checked-ok w e = ground arith

-- A verification that succeeds has done all that releases the item, on the calls before it.
pub verify-Released :
    (v : Verifier) (q : Request) (h h2 : History) (r : Verification)
    → verify v q h ≡ (ok r, h2)
    → Released v q h r h2
unfolding verify
verify-Released v q h h2 r e = elim (Option-cases v.runtime) [
  | inl missing ↦ absurd (refused no_runtime h h2 r (rw missing at e))
  | inr (rt, has) ↦ elim (Option-cases v.store) [
    | inl missing ↦ absurd (refused no_store h h2 r (rw (has, missing) at e))
    | inr (store, stores) ↦
        let e0 = rw (has, stores) at e in
        let (a, h3, e3, f3) = after-ok (require (not (is_blank q.session_id)) no_session h) _ e0 in
        let (b, h4, e4, f4) =
          after-ok (require (not (is_blank q.candidate_head)) no_candidate h3) _ f3 in
        let (c, h5, e5, f5) = after-ok (pure (checked q.work_item) h4) _ f4 in
        let (has_session, here3) = require-ok (not (is_blank q.session_id)) no_session h h3 e3 in
        let (has_head, here4) =
          require-ok (not (is_blank q.candidate_head)) no_candidate h3 h4 e4 in
        let (item, here5) = pure-ok (Unit {0}) (checked q.work_item) h4 h5 e5 in
        candidate-Released v rt store q h h2 r has stores (ground arith) (ground arith)
          (checked-ok q.work_item item)
          (subst (λ x. verify_candidate rt store v.parse_config q x ≡ (ok r, h2))
            (here5 ∙ here4 ∙ here3) f5)
  ]
]
