-- ===== src/Verifier/Evidence.antt =====
-- packages/verifier/verifier.go with packages/repoprotocol/protocol.go: the evidence that is stored.
use mathlib.Core.List.{Memᴰ}
use dev_plane.Prelude.{
  true, false, not, ◌≡◌, refl, sym, ◌∙◌, ap, ◌⊎◌, inl, inr, List, [], ◌∷◌, map, ok, arith,
  Bool-cases, is_empty, All, All-mem, fail_if, ◌>>◌,
}
use dev_plane.Text.{
  Text, text_eq, text_eq_iff, text_eq_refl, mem_text, find_by, trim_space, trim_space-twice_blank,
}
use dev_plane.Protocol.{
  Config, required_gates_for_paths, GateEvidence, GateStatus, EvidenceBundle, WorkItem, is_blank,
  is_passed, each, validate_head, validate_item, gate_unnamed, gate_not_passed,
}
use dev_plane.Verifier.Defs.{
  Runtime, Verifier, Request, Verification, History, gate_evidence, is_review, verify,
}
use dev_plane.Verifier.Steps.{GateRuns, no_runs, passes}
use dev_plane.Verifier.Gates.{names, wanted, resolve_gates_lem}
use dev_plane.Verifier.Release.{Released, verify-Released}

-- evidence of a gate that passed
abbrev pub Passed : GateEvidence → Type 0
Passed e = e.status ≡ GateStatus.passed

module _ (rt : Runtime) (session candidate : Text) (c : Config) where
  runs-names :
      (h h2 : History) (gates : List Text) (es : List GateEvidence)
      → GateRuns rt session candidate c h gates es h2
      → map (λ (e : GateEvidence). e.name) es ≡ gates
  unfolding gate_evidence
  runs-names h h2 gates es no_runs = refl
  runs-names h h2 gates es
        (passes {h1 = h1} {gate = gate} {gates = rest} {es = more} reply asked passed clean runs) =
      ap (λ x. gate ∷ x) (runs-names h1 h2 rest more runs)

  runs-Passed :
      (h h2 : History) (gates : List Text) (es : List GateEvidence)
      → GateRuns rt session candidate c h gates es h2
      → All Passed es
  unfolding gate_evidence
  runs-Passed h h2 gates es no_runs = tt
  runs-Passed h h2 gates es
        (passes {h1 = h1} {gates = rest} {es = more} reply asked passed clean runs) =
      (rw passed refl, runs-Passed h1 h2 rest more runs)

names-blank : (g : Text) (gates : List Text) → names g gates ≡ true → is_blank g ≡ is_empty g
names-blank g [] h = cc
names-blank g (raw ∷ gates) h = elim (Bool-cases (text_eq g (trim_space raw))) [
  | inl e ↦ rw ((text_eq_iff g (trim_space raw)).0 e) (trim_space-twice_blank raw)
  | inr e ↦ names-blank g gates (ground arith)
]

wanted-named :
    (c : Config) (work changed : List Text) (g : Text)
    → wanted c work changed g ≡ true
    → is_blank g ≡ false
wanted-named c work changed g h =
    ground (arith, names-blank g work, names-blank g (required_gates_for_paths c changed))

executable-wanted :
    {v : Verifier} {q : Request} {h h2 : History} {r : Verification} (x : Released v q h r h2)
    (g : Text)
    → mem_text g x.executable ≡ true
    → wanted x.config q.work_item.required_gates q.changed_paths g ≡ true
executable-wanted {q = q} {r = r} x g m = ground (
  arith,
  (resolve_gates_lem x.config q.work_item.required_gates q.changed_paths x.executable
      r.pending_gates g x.resolved).0,
  m,
)

attested :
    {v : Verifier} {q : Request} {h h2 : History} {r : Verification} (x : Released v q h r h2)
    (g : Text)
    → mem_text g x.executable ≡ true
    → (e : GateEvidence) × Memᴰ e r.evidence.gates × (e.name ≡ g) × Passed e
attested {q = q} {r = r} x g m =
    let head = trim_space q.candidate_head in
    let named =
      runs-names x.runtime q.session_id head x.config x.begun x.done x.executable r.evidence.gates
        x.runs in
    let passed =
      runs-Passed x.runtime q.session_id head x.config x.begun x.done x.executable r.evidence.gates
        x.runs in
    let (e, i, n) =
      find_by (λ (e : GateEvidence). e.name) g r.evidence.gates (ap (mem_text g) named ∙ m) in
    (e, i, n, All-mem Passed r.evidence.gates passed i)

-- A verification that succeeds has, for every gate that the work item or a rule for the changed paths
-- requires, evidence that it passed, or lists it as pending: then it is a review or an approval.
pub verify-attests :
    (v : Verifier) (q : Request) (h h2 : History) (r : Verification)
    → verify v q h ≡ (ok r, h2)
    → (x : Released v q h r h2) × ((g : Text)
        → wanted x.config q.work_item.required_gates q.changed_paths g ≡ true
        → ((is_review g ≡ true) × (mem_text g r.pending_gates ≡ true))
          ⊎ ((e : GateEvidence) × Memᴰ e r.evidence.gates × (e.name ≡ g) × Passed e))
verify-attests v q h h2 r e =
    let x = verify-Released v q h h2 r e in
    (
      x,
      λ g asked.
          let gates =
            resolve_gates_lem x.config q.work_item.required_gates q.changed_paths x.executable
              r.pending_gates g x.resolved in
          elim (Bool-cases (is_review g)) [
            | inl review ↦ inl (review, ground (arith, gates.1, asked, review))
            | inr other ↦ inr (attested x g (ground (arith, gates.0, asked, other)))
          ],
    )

each-Passed :
    (es : List GateEvidence)
    → All Passed es
    → ((g : Text) → mem_text g (map (λ (e : GateEvidence). e.name) es) ≡ true → is_blank g ≡ false)
    → each
        (λ (gate : GateEvidence).
          fail_if (is_blank gate.name) gate_unnamed
          >> fail_if (not (is_passed gate.status)) (gate_not_passed gate))
        es
      ≡ ok tt
unfolding each mem_text
each-Passed [] p n = refl
each-Passed (e ∷ es) p n =
    rw (p.0, n e.name (ground (arith, text_eq_refl e.name)))
      (each-Passed es p.1 (λ g m. n g (ground (arith, m))))

built-validate_head :
    (b : EvidenceBundle) (raw : Text)
    → b.head_sha ≡ trim_space raw
    → is_blank raw ≡ false
    → is_blank b.base_sha ≡ false
    → is_empty b.gates ≡ false
    → All Passed b.gates
    → ((g : Text)
        → mem_text g (map (λ (e : GateEvidence). e.name) b.gates) ≡ true
        → is_blank g ≡ false)
    → validate_head b raw ≡ ok tt
unfolding validate_head
built-validate_head b raw head named base some_gates passed names_ =
    rw
      (
        head,
        trim_space-twice_blank raw ∙ named,
        named,
        base,
        some_gates,
        text_eq_refl (trim_space raw),
      )
      (each-Passed b.gates passed names_)

item-base : (w : WorkItem) → validate_item w ≡ ok tt → is_blank w.base_sha ≡ false
unfolding validate_item
item-base w h = ground arith

-- Where a verification that succeeds ran at least one gate, its evidence is accepted for the candidate:
-- `ValidateHead` passes on it.
pub verify-validate_head :
    (v : Verifier) (q : Request) (h h2 : History) (r : Verification)
    → verify v q h ≡ (ok r, h2)
    → is_empty r.evidence.gates ≡ false
    → validate_head r.evidence q.candidate_head ≡ ok tt
verify-validate_head v q h h2 r e some_gates =
    let x = verify-Released v q h h2 r e in
    let head = trim_space q.candidate_head in
    let named =
      runs-names x.runtime q.session_id head x.config x.begun x.done x.executable r.evidence.gates
        x.runs in
    built-validate_head r.evidence q.candidate_head
      (ap (λ (b : EvidenceBundle). b.head_sha) x.evidence) x.candidate
      (ap (λ (b : EvidenceBundle). is_blank b.base_sha) x.evidence ∙ item-base q.work_item x.item)
      some_gates
      (runs-Passed x.runtime q.session_id head x.config x.begun x.done x.executable r.evidence.gates
        x.runs)
      (λ g m.
        wanted-named x.config q.work_item.required_gates q.changed_paths g
          (executable-wanted x g (sym (ap (mem_text g) named) ∙ m)))
