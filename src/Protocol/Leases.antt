-- ===== src/Protocol/Leases.antt =====
-- packages/repoprotocol/claim.go: who may claim a work item, and for how long the others may not.
use dev_plane.Prelude.{true, false, ◌&&◌, ◌≡◌, refl, ◌∙◌, ap, ◌↔◌, some, Result, ok, err, arith}
use dev_plane.Prelude.Int.{ℤ, pos, leb_ℤ, ltb_ℤ, ◌+ℤ◌}
use dev_plane.Text.{Text, trim_space, trim_space-twice_blank}
use dev_plane.Protocol.Defs.{WorkItem, claimed, is_blank, is_claimed, validate_item}
use dev_plane.Protocol.Claim.{claim, claimable_at, has_active_lease, ClaimError}

-- the item that a granted claim leaves
abbrev pub leased : WorkItem → Text → ℤ → ℤ → WorkItem
leased w holder now ttl = record w {
  state = claimed;
  claimed_by = trim_space holder;
  lease_until = some (now +ℤ ttl);
}

claimable-free :
    (w : WorkItem) (now : ℤ)
    → claimable_at w now ≡ true
    → (is_claimed w.state && has_active_lease w now) ≡ false
unfolding claimable_at
claimable-free w now h = ground arith

-- A claim is granted exactly if it has a holder and a positive time, and the item is ready, or claimed
-- with a lease that is not active; it then leaves the item with the holder until the time is over.
pub claim_iff :
    (w w' : WorkItem) (holder : Text) (now ttl : ℤ)
    → (claim (some w) holder now ttl ≡ ok w') ↔ (
        (is_blank holder ≡ false)
        × (leb_ℤ ttl (pos 0) ≡ false)
        × (claimable_at w now ≡ true)
        × (w' ≡ leased w holder now ttl))
unfolding claim
claim_iff w w' holder now ttl = (λ h. ground arith, λ h. ground (arith, claimable-free w now))

later : (now ttl : ℤ) → leb_ℤ ttl (pos 0) ≡ false → ltb_ℤ now (now +ℤ ttl) ≡ true
unfolding ◌+ℤ◌
later now ttl h = ground arith

-- an item with a lease until `until`
abbrev Held : WorkItem → ℤ → Type 0
Held w until = (w.state ≡ claimed) × (is_blank w.claimed_by ≡ false) × (w.lease_until ≡ some until)

claim-Held :
    (w v : WorkItem) (holder : Text) (now ttl : ℤ)
    → claim (some w) holder now ttl ≡ ok v
    → Held v (now +ℤ ttl)
claim-Held w v holder now ttl h =
    let (named, long, free, e) = (claim_iff w v holder now ttl).0 h in
    rw e (refl, trim_space-twice_blank holder ∙ named, refl)

-- the item after an attempt: a refused one leaves it as it is
abbrev pub attempted : WorkItem → Result ClaimError WorkItem → WorkItem
attempted w (ok v) = v
attempted w (err e) = w

-- Attempts of any holders to claim the item, each before `until`.
pub data Attempts (until : ℤ) (v : WorkItem) : WorkItem → Type 0 where
  none_yet : Attempts until v v
  attempt :
      {w w' : WorkItem}
      → Attempts until v w
      → (holder : Text) (now ttl : ℤ) → ltb_ℤ now until ≡ true
      → w' ≡ attempted w (claim (some w) holder now ttl)
      → Attempts until v w'

Held-active :
    (w : WorkItem) (until now : ℤ) → Held w until → has_active_lease w now ≡ ltb_ℤ now until
unfolding has_active_lease
Held-active w until now h = ground (arith, h.1, h.2)

Held-refuses :
    (w : WorkItem) (until now ttl : ℤ) (holder : Text)
    → Held w until
    → ltb_ℤ now until ≡ true
    → attempted w (claim (some w) holder now ttl) ≡ w
unfolding claim
Held-refuses w until now ttl holder h early = ground (arith, Held-active w until now h)

Held-stays : (until : ℤ) (v w : WorkItem) → Held v until → Attempts until v w → w ≡ v
Held-stays until v w h none_yet = refl
Held-stays until v w h (attempt {w = u} rest holder now ttl early e) =
    let same = Held-stays until v u h rest in
    e
    ∙ ap (λ (x : WorkItem). attempted x (claim (some x) holder now ttl)) same
    ∙ Held-refuses v until now ttl holder h early

-- A granted claim is exclusive: whoever tries to claim the item before its lease is over, and however
-- often, the item stays as the first holder got it.
pub claim_exclusive :
    (w v v' : WorkItem) (holder : Text) (now ttl : ℤ)
    → claim (some w) holder now ttl ≡ ok v
    → Attempts (now +ℤ ttl) v v'
    → v' ≡ v
claim_exclusive w v v' holder now ttl h a =
    Held-stays (now +ℤ ttl) v v' (claim-Held w v holder now ttl h) a

-- A lease does not outlive its time: from then on, any named holder gets the item.
pub claim_expires :
    (w v : WorkItem) (holder next : Text) (now ttl then_ ttl' : ℤ)
    → claim (some w) holder now ttl ≡ ok v
    → ltb_ℤ then_ (now +ℤ ttl) ≡ false
    → is_blank next ≡ false
    → leb_ℤ ttl' (pos 0) ≡ false
    → claim (some v) next then_ ttl' ≡ ok (leased v next then_ ttl')
unfolding claimable_at
claim_expires w v holder next now ttl then_ ttl' h over named long =
    let held = claim-Held w v holder now ttl h in
    (claim_iff v (leased v next then_ ttl') next then_ ttl').1
      (named, long, ground (arith, held.0, Held-active v (now +ℤ ttl) then_ held), refl)

leased-IsValid :
    (w : WorkItem) (holder : Text) (now ttl : ℤ)
    → validate_item w ≡ ok tt
    → is_blank holder ≡ false
    → validate_item (leased w holder now ttl) ≡ ok tt
unfolding validate_item
leased-IsValid w holder now ttl valid named = ground (arith, trim_space-twice_blank holder)

-- A granted claim keeps a valid item valid, and its lease is active from the start.
pub claim-IsValid :
    (w v : WorkItem) (holder : Text) (now ttl : ℤ)
    → validate_item w ≡ ok tt
    → claim (some w) holder now ttl ≡ ok v
    → (validate_item v ≡ ok tt) × (has_active_lease v now ≡ true)
claim-IsValid w v holder now ttl valid h =
    let (named, long, free, e) = (claim_iff w v holder now ttl).0 h in
    let active = Held-active v (now +ℤ ttl) now (claim-Held w v holder now ttl h) in
    (rw e (leased-IsValid w holder now ttl valid named), active ∙ later now ttl long)
