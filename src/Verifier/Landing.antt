-- ===== src/Verifier/Landing.antt =====
-- packages/verifier/verifier.go with packages/repoprotocol/protocol.go: the item that is stored.
use dev_plane.Prelude.{
  false, ◌≡◌, refl, ◌∙◌, ap, inl, inr, none, List, [], ◌∷◌, ok, arith, Bool-cases, is_empty,
  if◌then◌else◌,
}
use dev_plane.Prelude.Int.{ℤ}
use dev_plane.Text.{Text, trim_space}
use dev_plane.Protocol.{
  Config, GateEvidence, EvidenceBundle, WorkItem, WorkState, validate_item, claimable_at,
  check_claimed,
}
use dev_plane.Verifier.Defs.{Runtime, Verifier, Request, Verification, History, verify}
use dev_plane.Verifier.Steps.{Clean, GateRuns, no_runs, passes}
use dev_plane.Verifier.Items.{stored_items}
use dev_plane.Verifier.Release.{verify-Released, released_item, stored_calls}

module _ (rt : Runtime) (session candidate : Text) where
  Clean-items :
      (h h2 : History) → Clean rt session candidate h h2 → stored_items h2 ≡ stored_items h
  unfolding stored_items
  Clean-items h h2 x = ap stored_items x.grown

  runs-items :
      (c : Config) (h h2 : History) (gates : List Text) (es : List GateEvidence)
      → GateRuns rt session candidate c h gates es h2
      → stored_items h2 ≡ stored_items h
  unfolding stored_items
  runs-items c h h2 gates es no_runs = refl
  runs-items c h h2 gates es
        (passes {h1 = h1} {gates = rest} {es = more} reply asked passed clean runs) =
      runs-items c h1 h2 rest more runs ∙ Clean-items _ h1 clean

stored_calls-items :
    (b : EvidenceBundle) (w : WorkItem) (h : History)
    → stored_items (stored_calls b w h) ≡ w ∷ stored_items h
unfolding stored_items
stored_calls-items b w h = elim (Bool-cases (is_empty b.gates)) [
  | inl none_ ↦ rw none_ refl
  | inr some_ ↦ rw some_ refl
]

released_item-IsValid :
    (w : WorkItem) (pending : List Text)
    → validate_item w ≡ ok tt
    → validate_item (released_item w pending) ≡ ok tt
unfolding validate_item check_claimed
released_item-IsValid w pending h = elim (Bool-cases (is_empty pending)) [
  | inl none_ ↦ rw none_ (ground arith)
  | inr some_ ↦ rw some_ (ground arith)
]

released_item-kept :
    (w : WorkItem) (pending : List Text) (now : ℤ)
    → claimable_at (released_item w pending) now ≡ false
unfolding claimable_at
released_item-kept w [] now = refl
released_item-kept w (g ∷ gs) now = refl

-- A verification that succeeds stores one item. It is valid, has no claim and no lease any more, and is
-- not claimable: it is ready to land exactly if no gate is pending, and otherwise it is to be reviewed.
pub verify-item :
    (v : Verifier) (q : Request) (h h2 : History) (r : Verification) (now : ℤ)
    → verify v q h ≡ (ok r, h2)
    → (w : WorkItem) × (stored_items h2 ≡ w ∷ stored_items h)
      × (validate_item w ≡ ok tt)
      × (w.claimed_by ≡ [])
      × (w.lease_until ≡ none)
      × (claimable_at w now ≡ false)
      × (w.state
          ≡ (if is_empty r.pending_gates then WorkState.ready_to_land else WorkState.reviewing))
unfolding stored_items
verify-item v q h h2 r now e =
    let x = verify-Released v q h h2 r e in
    (
      released_item q.work_item r.pending_gates,
      ap stored_items x.stored
          ∙ stored_calls-items r.evidence (released_item q.work_item r.pending_gates) x.done
          ∙ ap (λ t. released_item q.work_item r.pending_gates ∷ t)
              (runs-items x.runtime q.session_id (trim_space q.candidate_head) x.config x.begun
                  x.done x.executable r.evidence.gates x.runs
                ∙ Clean-items x.runtime q.session_id (trim_space q.candidate_head) _ x.begun
                    x.before),
      released_item-IsValid q.work_item r.pending_gates x.item,
      refl,
      refl,
      released_item-kept q.work_item r.pending_gates now,
      refl,
    )
