-- ===== src/Protocol/Claim.antt =====
-- packages/repoprotocol/claim.go: leases on work items.
use dev_plane.Prelude.{
  Bool, true, false, ◌&&◌, not, Option, none, some, Result, ok, err, ◌>>◌, fail_if, is_empty,
}
use dev_plane.Prelude.Int.{ℤ, pos, leb_ℤ, ltb_ℤ, ◌+ℤ◌}
use dev_plane.Text.{Text, trim_space}
use dev_plane.Protocol.Defs.{WorkState, WorkItem, ready, claimed, is_blank, is_claimed}

pub data ClaimError : Type 0 where
  item_nil holder_required ttl_not_positive : ClaimError
  active_lease : Text → ClaimError
  not_claimable : WorkState → ClaimError

unfoldable pub has_active_lease : WorkItem → ℤ → Bool
has_active_lease w now =
    not (is_blank w.claimed_by)
    && (elim w.lease_until [ none ↦ false | some until ↦ ltb_ℤ now until ])

unfoldable pub claimable_at : WorkItem → ℤ → Bool
claimable_at w now = elim w.state [
  | ready ↦ true
  | claimed ↦ not (has_active_lease w now)
  | _ ↦ false
]

-- `Claim` on an item, or on nil; the result is the item that the receiver points to afterwards.
unfoldable pub claim : Option WorkItem → Text → ℤ → ℤ → Result ClaimError WorkItem
claim none holder now ttl = err item_nil
claim (some w) raw now ttl =
    let holder = trim_space raw in
    fail_if (is_empty holder) holder_required
    >> (fail_if (leb_ℤ ttl (pos 0)) ttl_not_positive
        >> (fail_if (is_claimed w.state && has_active_lease w now) (active_lease w.claimed_by)
            >> (fail_if (not (claimable_at w now)) (not_claimable w.state)
                >> ok (record w {
                  state = claimed;
                  claimed_by = holder;
                  lease_until = some (now +ℤ ttl);
                }))))
