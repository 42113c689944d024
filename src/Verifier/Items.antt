-- ===== src/Verifier/Items.antt =====
-- packages/verifier/verifier.go: when the work item is stored.
use dev_plane.Prelude.{
  after, ◌then◌, pure, Bool, true, false, not, ◌≡◌, refl, sym, ◌∙◌, ap, inl, inr, none, List, [],
  ◌∷◌, ok, err, Result, Bool-cases, subst, is_empty, not-err-ok, Option-cases, if◌then◌else◌,
}
use dev_plane.Text.{Text, trim_space}
use dev_plane.Protocol.{Config, EvidenceBundle, WorkItem, is_blank}
use dev_plane.Verifier.Defs.{
  Reply, History, Runtime, EvidenceStore, Verifier, Request, Verification, VerifyError, Step,
  require, execute, assert_head, assert_clean, settle, run_gates, finish, start, verify_candidate,
  verify, running, storing_item, store_evidence, store_item, resolve_gates, head_command,
  status_command, stdout_of, head_unread, head_failed, status_unread, status_failed,
  failed_evidence_unstored, evidence_unstored, no_session, no_candidate, checked, gate_command,
  profile_of, with_gate, gate_evidence, succeeded,
}
use dev_plane.Verifier.Release.{read_step, parse_step, released_item}

-- the items that the store has taken, the last one first
unfoldable pub stored_items : History → List WorkItem
stored_items [] = []
stored_items (storing_item w none ∷ h) = w ∷ stored_items h
stored_items (c ∷ h) = stored_items h

-- a step that stores no item
abbrev Keeps : {A : Type 0} → Step A → Type 0
Keeps step = (h : History) → stored_items (step h).1 ≡ stored_items h

-- a step that stores no item unless it succeeds
abbrev KeptOr : {A : Type 0} → List WorkItem → Result VerifyError A × History → Type 0
KeptOr items (ok a, h) = Unit
KeptOr items (err e, h) = stored_items h ≡ items

after-Keeps :
    {A B : Type 0} (p : Result VerifyError A × History) (rest : A → Step B)
    → ((a : A) → Keeps (rest a))
    → stored_items (after p rest).1 ≡ stored_items p.1
after-Keeps (ok a, h) rest k = k a h
after-Keeps (err e, h) rest k = refl

after-KeptOr :
    {A B : Type 0} (items : List WorkItem) (p : Result VerifyError A × History) (rest : A → Step B)
    → stored_items p.1 ≡ items
    → ((a : A) (h : History) → stored_items h ≡ items → KeptOr items (rest a h))
    → KeptOr items (after p rest)
after-KeptOr items (ok a, h) rest s k = k a h s
after-KeptOr items (err e, h) rest s k = s

module _ (rt : Runtime) (session : Text) where
  assert_head-Keeps :
      (candidate : Text) (during : Bool) → Keeps (assert_head rt session candidate during)
  unfolding assert_head execute stored_items
  assert_head-Keeps candidate during h =
      let reply = rt.execute_command h session head_command in
      after-Keeps (stdout_of head_unread head_failed reply, running session head_command reply ∷ h)
        _ (λ actual k. refl)

  assert_clean-Keeps : Keeps (assert_clean rt session)
  unfolding assert_clean execute stored_items
  assert_clean-Keeps h =
      let reply = rt.execute_command h session status_command in
      after-Keeps
        (stdout_of status_unread status_failed reply, running session status_command reply ∷ h) _
        (λ out k. refl)

module _ (store : EvidenceStore) where
  store_evidence-Keeps :
      (unstored : Text → VerifyError) (b : EvidenceBundle) → Keeps (store_evidence store unstored b)
  unfolding store_evidence stored_items
  store_evidence-Keeps unstored b h = refl

  settle-Keeps :
      (gate : Text) (reply : Reply) (r : Verification) → Keeps (settle store gate reply r)
  unfolding settle
  settle-Keeps gate reply r h = elim (Bool-cases (succeeded reply)) [
    | inl passed ↦ rw passed refl
    | inr failed ↦ rw failed (
        after-Keeps (store_evidence store failed_evidence_unstored r.evidence h) _ (λ u k. refl)
        ∙ store_evidence-Keeps failed_evidence_unstored r.evidence h)
  ]

  finish_front-Keeps :
      (r : Verification)
      → Keeps (
          if is_empty r.evidence.gates
          then pure (ok tt)
          else store_evidence store evidence_unstored r.evidence)
  finish_front-Keeps r h = elim (Bool-cases (is_empty r.evidence.gates)) [
    | inl none_ ↦ rw none_ refl
    | inr some_ ↦ rw some_ (store_evidence-Keeps evidence_unstored r.evidence h)
  ]

  finish-KeptOr :
      (w : WorkItem) (r : Verification) (items : List WorkItem) (h : History)
      → stored_items h ≡ items
      → KeptOr items (finish store w r h)
  unfolding finish store_item stored_items
  finish-KeptOr w r items h s =
      let first =
        (if is_empty r.evidence.gates
          then pure (ok tt)
          else store_evidence store evidence_unstored r.evidence) in
      after-KeptOr items (first h) _ (finish_front-Keeps r h ∙ s) (λ u h3 s3.
        elim (Option-cases (store.put_work_item h3 (released_item w r.pending_gates))) [
          | inl taken ↦ rw taken tt
          | inr (e, refused) ↦ rw refused s3
        ])

run_gates-Keeps :
    (rt : Runtime) (store : EvidenceStore) (c : Config) (session candidate : Text)
    (gates : List Text) (r : Verification)
    → Keeps (run_gates rt store c session candidate gates r)
unfolding run_gates execute stored_items
run_gates-Keeps rt store c session candidate [] r h = refl
run_gates-Keeps rt store c session candidate (gate ∷ gates) r h =
    let reply = rt.execute_command h session (gate_command (profile_of c gate)) in
    let g = with_gate r (gate_evidence gate (profile_of c gate) reply) in
    let h1 = running session (gate_command (profile_of c gate)) reply ∷ h in
    let after_settle = λ (h4 : History).
      after-Keeps (settle store gate reply g h4) _
        (λ x. run_gates-Keeps rt store c session candidate gates g)
      ∙ settle-Keeps store gate reply g h4 in
    let after_clean = λ (h3 : History).
      after-Keeps (assert_clean rt session h3) _ (λ v. after_settle)
      ∙ assert_clean-Keeps rt session h3 in
    after-Keeps (assert_head rt session candidate true h1) _ (λ u. after_clean)
    ∙ assert_head-Keeps rt session candidate true h1

candidate-KeptOr :
    (v : Verifier) (rt : Runtime) (store : EvidenceStore) (q : Request) (h : History)
    → KeptOr (stored_items h) (verify_candidate rt store v.parse_config q h)
unfolding verify_candidate stored_items
candidate-KeptOr v rt store q h =
    let items = stored_items h in
    let head = trim_space q.candidate_head in
    after-KeptOr items (read_step rt q h) _ refl (λ bytes h3 s3.
      after-KeptOr items (pure (parse_step v bytes) h3) _ s3 (λ c h4 s4.
        after-KeptOr items (pure (resolve_gates c q.work_item.required_gates q.changed_paths) h4) _
          s4
          (λ gates h5 s5.
            after-KeptOr items (assert_head rt q.session_id head false h5) _
              (assert_head-Keeps rt q.session_id head false h5 ∙ s5)
              (λ u h6 s6.
                after-KeptOr items (assert_clean rt q.session_id h6) _
                  (assert_clean-Keeps rt q.session_id h6 ∙ s6)
                  (λ x h7 s7.
                    let begun = start q.work_item head gates.1 in
                    after-KeptOr items (run_gates rt store c q.session_id head gates.0 begun h7) _
                      (run_gates-Keeps rt store c q.session_id head gates.0 begun h7 ∙ s7)
                      (λ r h8 s8. finish-KeptOr store q.work_item r items h8 s8))))))

kept :
    (A : Type 0) (items : List WorkItem) (p : Result VerifyError A × History) (e : VerifyError)
    (h2 : History)
    → KeptOr items p
    → p ≡ (err e, h2)
    → stored_items h2 ≡ items
kept A items (ok a, h) e h2 k i =
    absurd (not-err-ok (sym (ap (λ (p : Result VerifyError A × History). p.0) i)))
kept A items (err x, h) e h2 k i =
    sym (ap (λ (p : Result VerifyError A × History). stored_items p.1) i) ∙ k

tests-KeptOr :
    (v : Verifier) (rt : Runtime) (store : EvidenceStore) (q : Request) (h : History)
    → KeptOr (stored_items h) (
        (require (not (is_blank q.session_id)) no_session then λ a.
        require (not (is_blank q.candidate_head)) no_candidate then λ b.
        pure (checked q.work_item) then λ c. verify_candidate rt store v.parse_config q)
          h)
tests-KeptOr v rt store q h =
    let items = stored_items h in
    elim (Bool-cases (is_blank q.session_id)) [
      | inl blank ↦ rw blank refl
      | inr named ↦ elim (Bool-cases (is_blank q.candidate_head)) [
        | inl blank ↦ rw (named, blank) refl
        | inr head ↦
            rw (named, head)
              (after-KeptOr items (pure (checked q.work_item) h) _ refl (λ c h5 s5.
                subst (λ x. KeptOr x (verify_candidate rt store v.parse_config q h5)) s5
                  (candidate-KeptOr v rt store q h5)))
      ]
    ]

verify-KeptOr : (v : Verifier) (q : Request) (h : History) → KeptOr (stored_items h) (verify v q h)
unfolding verify
verify-KeptOr v q h = elim (Option-cases v.runtime) [
  | inl none_ ↦ rw none_ refl
  | inr (rt, has) ↦ elim (Option-cases v.store) [
    | inl none_ ↦ rw (has, none_) refl
    | inr (store, stores) ↦ rw (has, stores) (tests-KeptOr v rt store q h)
  ]
]

-- A verification that fails leaves every stored item as it was: the item is stored last, after every
-- gate has passed and the evidence is stored.
pub verify-keeps_items :
    (v : Verifier) (q : Request) (h h2 : History) (e : VerifyError)
    → verify v q h ≡ (err e, h2)
    → stored_items h2 ≡ stored_items h
verify-keeps_items v q h h2 e i =
    kept Verification (stored_items h) (verify v q h) e h2 (verify-KeptOr v q h) i
