-- ===== src/Execution/Delegation.antt =====
-- packages/execution/execution.go: delegated authority never grows, and a manifest is canonical.
use dev_plane.Prelude.{
  true, false, ◌||◌, ◌&&◌, ◌≡◌, ◌↔◌, refl, sym, ◌∙◌, ap, List, [], ◌∷◌, ok, err, arith, Bool-cases,
  inl, inr, any,
}
use dev_plane.Text.{text_eq_iff}
use dev_plane.Execution.Defs.{authority_escalation}
use dev_plane.Execution.Grants.{
  Grant, grant_eq, validate_manifest, insert_grant, sort_grants, dedupe_after, dedupe, new_manifest,
  holds, allows, check_requested, delegate,
}

pub grant_eq_iff : (g h : Grant) → (grant_eq g h ≡ true) ↔ (g ≡ h)
unfolding grant_eq
grant_eq_iff g h = ground (
  arith,
  text_eq_iff g.operation h.operation,
  text_eq_iff g.resource h.resource,
  text_eq_iff g.revision h.revision,
)

holds-insert :
    (g h : Grant) (gs : List Grant) → holds (insert_grant h gs) g ≡ (grant_eq h g || holds gs g)
unfolding holds insert_grant any
holds-insert g h [] = refl
holds-insert g h (k ∷ gs) = ground (arith, holds-insert g h gs)

holds-sort : (g : Grant) (gs : List Grant) → holds (sort_grants gs) g ≡ holds gs g
unfolding holds sort_grants any
holds-sort g [] = refl
holds-sort g (h ∷ gs) =
    holds-insert g h (sort_grants gs) ∙ ap (λ b. grant_eq h g || b) (holds-sort g gs)

holds-dedupe_after :
    (g last : Grant) (gs : List Grant)
    → (grant_eq last g || holds (dedupe_after last gs) g) ≡ (grant_eq last g || holds gs g)
unfolding holds dedupe_after any
holds-dedupe_after g last [] = refl
holds-dedupe_after g last (h ∷ gs) =
    ground (arith, holds-dedupe_after g last gs, holds-dedupe_after g h gs, grant_eq_iff last h)

holds-dedupe : (g : Grant) (gs : List Grant) → holds (dedupe gs) g ≡ holds gs g
unfolding holds dedupe any
holds-dedupe g [] = refl
holds-dedupe g (h ∷ gs) = holds-dedupe_after g h gs

new_manifest-eq :
    (gs m : List Grant)
    → new_manifest gs ≡ ok m
    → (validate_manifest gs ≡ ok tt) × (m ≡ dedupe (sort_grants gs))
unfolding new_manifest
new_manifest-eq gs m h = ground arith

-- Sorting and dropping duplicates keeps exactly the given grants.
pub holds-new_manifest :
    (gs m : List Grant) (g : Grant) → new_manifest gs ≡ ok m → holds m g ≡ holds gs g
holds-new_manifest gs m g h =
    ap (λ (x : List Grant). holds x g) (new_manifest-eq gs m h).1
    ∙ holds-dedupe g (sort_grants gs)
    ∙ holds-sort g gs

check_requested-holds :
    (m gs : List Grant)
    → check_requested m gs ≡ ok tt
    → (g : Grant) → holds gs g ≡ true
    → holds m g ≡ true
unfolding check_requested allows holds any
check_requested-holds m [] h g i = cc
check_requested-holds m (k ∷ gs) h g i = ground (
  arith,
  check_requested-holds m gs,
  check_requested-holds m gs (ground arith) g,
  grant_eq_iff k g,
)

delegate-parts :
    (m requested d : List Grant)
    → delegate m requested ≡ ok d
    → (check_requested m requested ≡ ok tt) × (new_manifest requested ≡ ok d)
unfolding delegate
delegate-parts m requested d h = ground arith

-- A delegated manifest holds exactly the requested grants, and each of them is held by the delegator.
pub delegate-attenuates :
    (m requested d : List Grant) (g : Grant)
    → delegate m requested ≡ ok d
    → (holds d g ≡ holds requested g) × ((holds d g && holds m g) ≡ holds d g)
delegate-attenuates m requested d g h =
    let (c, n) = delegate-parts m requested d h in
    let same = holds-new_manifest requested d g n in
    let held = λ (i : holds d g ≡ true). check_requested-holds m requested c g (sym same ∙ i) in
    (same, elim (Bool-cases (holds d g)) [ inl i ↦ rw (i, held i) | inr i ↦ rw i ])

check_requested-refuses :
    (m gs : List Grant) (g : Grant)
    → validate_manifest m ≡ ok tt
    → validate_manifest gs ≡ ok tt
    → holds gs g ≡ true
    → holds m g ≡ false
    → check_requested m gs ≡ err authority_escalation
unfolding check_requested allows validate_manifest holds any
check_requested-refuses m [] g v w i n = cc
check_requested-refuses m (k ∷ gs) g v w i n =
    ground (arith, check_requested-refuses m gs g, grant_eq_iff k g)

-- A delegation between valid manifests that asks for a grant that is not held is refused as an
-- escalation.
delegate-refuses :
    (m requested : List Grant) (g : Grant)
    → validate_manifest m ≡ ok tt
    → validate_manifest requested ≡ ok tt
    → holds requested g ≡ true
    → holds m g ≡ false
    → delegate m requested ≡ err authority_escalation
unfolding delegate
delegate-refuses m requested g v w i n = rw (v, w, check_requested-refuses m requested g v w i n)
