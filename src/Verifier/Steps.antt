-- ===== src/Verifier/Steps.antt =====
-- packages/verifier/verifier.go: what its steps have done when they succeed.
use mathlib.Core.List.{append_assoc, append-nil}
use dev_plane.Prelude.{
  pure, after-ok, subst, Bool, true, ◌≡◌, refl, sym, ◌∙◌, ap, List, [], ◌∷◌, ◌++◌, ok, Result,
  ok-injective, arith, is_empty,
}
use dev_plane.Text.{Text, text_eq, text_eq_iff}
use dev_plane.Protocol.{Config, GateEvidence}
use dev_plane.Verifier.Defs.{
  Reply, History, Runtime, EvidenceStore, Verification, VerifyError, require, stdout_of,
  head_command, status_command, gate_command, execute, assert_head, assert_clean, settle, run_gates,
  profile_of, gate_evidence, succeeded, with_gate, running, store_evidence, head_unread,
  head_failed, status_unread, status_failed,
}

pub require-ok :
    (b : Bool) (x : VerifyError) (h h2 : History) {u : Unit {0}}
    → require b x h ≡ (ok u, h2)
    → (b ≡ true) × (h2 ≡ h)
require-ok b x h h2 e = ground arith

-- a test that ends with the last call
pub pure-ok :
    (A : Type 0) (r : Result VerifyError A) (h h2 : History) {a : A}
    → pure r h ≡ (ok a, h2)
    → (r ≡ ok a) × (h2 ≡ h)
pure-ok A r h h2 e = (
  ap (λ (p : Result VerifyError A × History). p.0) e,
  sym (ap (λ (p : Result VerifyError A × History). p.1) e),
)

-- the verification with this evidence of the gates
abbrev pub with_gates : Verification → List GateEvidence → Verification
with_gates r es = record r { evidence = record r.evidence { gates = es } }

empty : {A : Type 0} (xs : List A) → is_empty xs ≡ true → xs ≡ []
empty [] h = refl
empty (x ∷ xs) h = cc

module _ (rt : Runtime) (session candidate : Text) where
  -- The head is the candidate and the work tree is clean: the two commands say so.
  pub record Clean (h h2 : History) : Type 0 where
    pub head_reply : Reply
    pub status_reply : Reply
    pub head_asked : head_reply ≡ rt.execute_command h session head_command
    pub status_asked :
        status_reply
        ≡ rt.execute_command (running session head_command head_reply ∷ h) session status_command
    pub grown :
        h2
        ≡ running session status_command status_reply ∷ running session head_command head_reply ∷ h
    pub head : stdout_of head_unread head_failed head_reply ≡ ok candidate
    pub status : stdout_of status_unread status_failed status_reply ≡ ok []

  -- The gates are run one after the other, each succeeds, and the tree is clean after each.
  pub data GateRuns (c : Config) : History → List Text → List GateEvidence → History → Type 0 where
    no_runs : {h : History} → GateRuns c h [] [] h
    passes :
        {h h1 h2 : History} {gate : Text} {gates : List Text} {es : List GateEvidence}
        → (reply : Reply) → reply ≡ rt.execute_command h session (gate_command (profile_of c gate))
        → succeeded reply ≡ true
        → Clean (running session (gate_command (profile_of c gate)) reply ∷ h) h1
        → GateRuns c h1 gates es h2
        → GateRuns c h (gate ∷ gates) (gate_evidence gate (profile_of c gate) reply ∷ es) h2

  assert_head-ok :
      (during : Bool) (h h2 : History) {u : Unit {0}}
      → assert_head rt session candidate during h ≡ (ok u, h2)
      → (stdout_of head_unread head_failed (rt.execute_command h session head_command)
          ≡ ok candidate)
        × (h2 ≡ running session head_command (rt.execute_command h session head_command) ∷ h)
  unfolding assert_head execute
  assert_head-ok during h h2 e =
      let reply = rt.execute_command h session head_command in
      let (actual, h1, p, q) =
        after-ok (stdout_of head_unread head_failed reply, running session head_command reply ∷ h) _
          e in
      let (read, here) = pure-ok Text _ _ h1 p in
      let (same, done) = require-ok (text_eq actual candidate) _ h1 h2 q in
      (rw ((text_eq_iff actual candidate).0 same) at read, done ∙ here)

  assert_clean-ok :
      (h h2 : History) {u : Unit {0}}
      → assert_clean rt session h ≡ (ok u, h2)
      → (stdout_of status_unread status_failed (rt.execute_command h session status_command)
          ≡ ok [])
        × (h2 ≡ running session status_command (rt.execute_command h session status_command) ∷ h)
  unfolding assert_clean execute
  assert_clean-ok h h2 e =
      let reply = rt.execute_command h session status_command in
      let (out, h1, p, q) =
        after-ok
          (stdout_of status_unread status_failed reply, running session status_command reply ∷ h) _
          e in
      let (read, here) = pure-ok Text _ _ h1 p in
      let (blank, done) = require-ok (is_empty out) _ h1 h2 q in
      (read ∙ ap ok (empty out blank), done ∙ here)

  pub asserted :
      (during : Bool) (h h1 h2 : History) {u v : Unit {0}}
      → assert_head rt session candidate during h ≡ (ok u, h1)
      → assert_clean rt session h1 ≡ (ok v, h2)
      → Clean h h2
  asserted during h h1 h2 a b =
      let (head, g1) = assert_head-ok during h h1 a in
      let (status, g2) = assert_clean-ok h1 h2 b in
      record {
        head_reply = rt.execute_command h session head_command;
        status_reply = rt.execute_command h1 session status_command;
        head_asked = refl;
        status_asked = ap (λ x. rt.execute_command x session status_command) g1;
        grown =
            g2
            ∙ ap
                (λ x.
                  running session status_command (rt.execute_command h1 session status_command) ∷ x)
                g1;
        head = head;
        status = status;
      }

  pub settle-ok :
      (store : EvidenceStore) (gate : Text) (reply : Reply) (r : Verification) (h h2 : History)
      {u : Unit {0}}
      → settle store gate reply r h ≡ (ok u, h2)
      → (succeeded reply ≡ true) × (h2 ≡ h)
  unfolding settle store_evidence
  settle-ok store gate reply r h h2 e = ground arith

  pub run_gates-GateRuns :
      (store : EvidenceStore) (c : Config) (gates : List Text) (r r2 : Verification)
      (h h2 : History)
      → run_gates rt store c session candidate gates r h ≡ (ok r2, h2)
      → (es : List GateEvidence) × GateRuns c h gates es h2
        × (r2 ≡ with_gates r (r.evidence.gates ++ es))
  unfolding run_gates execute
  run_gates-GateRuns store c [] r r2 h h2 e =
      let (same, here) = pure-ok Verification (ok r) h h2 e in
      (
        [],
        rw here no_runs,
        sym (ok-injective same) ∙ ap (with_gates r) (sym (append-nil r.evidence.gates)),
      )
  run_gates-GateRuns store c (gate ∷ gates) r r2 h h2 e =
      let reply = rt.execute_command h session (gate_command (profile_of c gate)) in
      let g = gate_evidence gate (profile_of c gate) reply in
      let ran = running session (gate_command (profile_of c gate)) reply ∷ h in
      let (u, h3, head, e1) = after-ok (assert_head rt session candidate true ran) _ e in
      let (v, h4, clean, e2) = after-ok (assert_clean rt session h3) _ e1 in
      let (x, h5, settled, rest) = after-ok (settle store gate reply (with_gate r g) h4) _ e2 in
      let (passed, here) = settle-ok store gate reply (with_gate r g) h4 h5 settled in
      let (es, runs, grown) = run_gates-GateRuns store c gates (with_gate r g) r2 h5 h2 rest in
      (
        g ∷ es,
        passes reply refl passed (asserted true ran h3 h4 head clean)
            (subst (λ x. GateRuns c x gates es h2) here runs),
        grown ∙ ap (with_gates r) (append_assoc r.evidence.gates (g ∷ []) es),
      )
