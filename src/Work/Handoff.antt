-- ===== src/Work/Handoff.antt =====
-- packages/scheduler/work_adapter.go with packages/repoprotocol/claim.go: what `NextWork` selects can
-- be claimed.
use mathlib.Core.List.{Memᴰ}
use dev_plane.Prelude.{
  All-mem, mem-map, all-All, true, false, ◌≡◌, refl, sym, ◌∙◌, ap, subst, ◌⊎◌, inl, inr, none, some,
  List, [], ◌∷◌, map, Result, ok, err, ok-injective, >>=-eq-ok, arith, fail_if, All, is_empty,
}
use dev_plane.Prelude.Int.{ℤ, pos, leb_ℤ}
use dev_plane.Prelude.Float.{Float}
use dev_plane.Text.{Text, find_by, mem_text, trim_space, Distinct}
use dev_plane.Protocol.{WorkItem, WorkState, claimable_at, claim, is_blank}
use dev_plane.Protocol.Leases.{leased, claim_iff}
use dev_plane.Scheduler
use dev_plane.Scheduler.{
  Task, State, Status, Decision, next, validate, decide_next, status_of, read_status, is_pending,
  is_success, dependencies_succeeded,
}
use dev_plane.Scheduler.Admission.{Picks, done, drop, keep, IsEligible, next-IsAdmissible}
use dev_plane.Scheduler.Validation.{validate-IsValidated}
use dev_plane.Work.Defs.{
  WorkScheduleOptions, item_status, work_task, collect, work_manifest, next_work, scheduled,
  no_items, cost_not_positive, no_time, is_zero_time,
}
use dev_plane.Scheduler.Register.{trimmed_id}
use dev_plane.Work.Collect.{Entry, collect-tasks, collect-Entry, collect-stated}

pending-claimable :
    (w : WorkItem) (now : ℤ) (s : Status)
    → item_status w now ≡ ok s
    → is_pending (read_status (some s)) ≡ true
    → claimable_at w now ≡ true
unfolding item_status claimable_at
pending-claimable w now s h p = ground arith

success-landed :
    (w : WorkItem) (now : ℤ) (s : Status)
    → item_status w now ≡ ok s
    → is_success (read_status (some s)) ≡ true
    → w.state ≡ WorkState.landed
unfolding item_status
success-landed w now s h p = ground arith

Picks-mem : {A : Type 0} {a : A} {us ts : List A} → Picks us ts → Memᴰ a us → Memᴰ a ts
Picks-mem done i = i
Picks-mem (drop p) i = Memᴰ.tail (Picks-mem p i)
Picks-mem (keep p) (Memᴰ.head e) = Memᴰ.head e
Picks-mem (keep p) (Memᴰ.tail i) = Memᴰ.tail (Picks-mem p i)

-- the id is that of an item that has landed
abbrev pub Landed : List WorkItem → Text → Type 0
Landed items d = (v : WorkItem) × Memᴰ v items × (v.id ≡ d) × (v.state ≡ WorkState.landed)

Entry-Landed :
    (now : ℤ) (items : List WorkItem) (state : State) (k : Text)
    → (state k ≡ none) ⊎ Entry now items state k
    → is_success (status_of state k) ≡ true
    → Landed items k
unfolding status_of
Entry-Landed now items state k (inl e) h = absurd (ground arith)
Entry-Landed now items state k (inr e) h = (
  e.item,
  e.here,
  e.named,
  success-landed e.item now e.status e.stated
      (sym (ap (λ s. is_success (read_status s)) e.written) ∙ h),
)

-- The id is that of an item that may be claimed, and whose dependencies have landed.
pub record Handoff (items : List WorkItem) (now : ℤ) (id : Text) : Type 0 where
  pub item : WorkItem
  pub here : Memᴰ item items
  pub named : item.id ≡ id
  pub free : claimable_at item now ≡ true
  pub released : All (Landed items) item.depends_on

module _ {F : Type 0} ⦃fl : Float F⦄ where
  eligible-Handoff :
      (items : List WorkItem) (now : ℤ) (c : List (Task F) × State) (w : WorkItem)
      (skips : List Text)
      → collect now items [] (λ k. none) ≡ ok c
      → Distinct (map (λ w. trim_space w.id) items)
      → Memᴰ w items
      → IsEligible c.1 skips (work_task {F = F} w)
      → Handoff items now w.id
  unfolding work_task dependencies_succeeded status_of
  eligible-Handoff items now c w skips h distinct i e =
      let (s, stated, written) = collect-stated now items [] (λ k. none) c h distinct w i in
      record {
        item = w;
        here = i;
        named = refl;
        free = pending-claimable w now s stated (rw written at e.waits);
        released =
            all-All (λ k. is_success (status_of c.1 k)) (Landed items)
              (λ k. Entry-Landed now items c.1 k (collect-Entry now items [] (λ k. none) c k h))
              w.depends_on e.released;
      }

scheduled-ok : (r : Result Scheduler.Error Decision) (d : Decision) → scheduled r ≡ ok d → r ≡ ok d
scheduled-ok (ok x) d h = ap ok (ok-injective h)
scheduled-ok (err e) d h = absurd (ground arith)

trimmed_ids :
    (F : Type 0) ⦃fl : Float F⦄ (items : List WorkItem)
    → map trimmed_id (map (work_task {F = F}) items) ≡ map (λ w. trim_space w.id) items
unfolding work_task
trimmed_ids F [] = refl
trimmed_ids F (w ∷ ws) = ap (λ r. trim_space w.id ∷ r) (trimmed_ids F ws)

-- what `next` on the manifest says of the items
record Stated {F : Type 0} ⦃fl : Float F⦄ (items : List WorkItem) (now : ℤ) (d : Decision)
    (c : List (Task F) × State) : Type 0 where
  collected : collect now items [] (λ k. none) ≡ ok c
  tasks : c.0 ≡ map work_task items
  decided : (cost : ℤ) × (next (work_manifest items cost c.0) c.1 ≡ ok d)

next_work-Stated :
    (F : Type 0) ⦃fl : Float F⦄ (items : List WorkItem) (o : WorkScheduleOptions) (d : Decision)
    → next_work F items o ≡ ok d
    → (c : List (Task F) × State) × Stated items o.now d c
unfolding next_work
next_work-Stated F items o d h =
    let (u, some_items, h1) = >>=-eq-ok (fail_if (is_empty items) no_items) _ h in
    let (v, cost, h2) =
      >>=-eq-ok (fail_if (leb_ℤ o.max_parallel_cost (pos 0)) cost_not_positive) _ h1 in
    let (x, time, h3) = >>=-eq-ok (fail_if (is_zero_time o.now) no_time) _ h2 in
    let (c, collected, h4) = >>=-eq-ok (collect {F = F} o.now items [] (λ k. none)) _ h3 in
    (
      c,
      record {
        collected = collected;
        tasks = collect-tasks o.now items [] (λ k. none) c collected;
        decided = (o.max_parallel_cost, scheduled-ok _ d h4);
      },
    )

-- what `NextWork` selects are ids of items that may be claimed at that time and whose dependencies
-- have all landed.
pub next_work-Handoff :
    (F : Type 0) ⦃fl : Float F⦄ (items : List WorkItem) (o : WorkScheduleOptions) (d : Decision)
    (id : Text)
    → next_work F items o ≡ ok d
    → mem_text id d.ready ≡ true
    → Handoff items o.now id
unfolding next work_manifest work_task
next_work-Handoff F items o d id h m =
    let (c, s) = next_work-Stated F items o d h in
    let manifest = work_manifest items s.decided.0 c.0 in
    let a = next-IsAdmissible manifest c.1 d s.decided.1 in
    let (kv, valid, e) =
      >>=-eq-ok (validate manifest) (λ k. ok (decide_next manifest c.1)) s.decided.1 in
    let distinct = (validate-IsValidated manifest kv.0 kv.1 valid).registered.distinct in
    let (t, i, n) =
      find_by (λ (t : Task F). t.id) id a.taken (sym (ap (mem_text id) a.ready) ∙ m) in
    let j = Picks-mem a.picked i in
    let el = All-mem (IsEligible c.1 d.skipped) a.taken a.eligible i in
    let (w, k, te) = mem-map work_task items (subst (Memᴰ t) s.tasks j) in
    let distinct' = subst Distinct (ap (map trimmed_id) s.tasks ∙ trimmed_ids F items) distinct in
    let handoff =
      eligible-Handoff items o.now c w d.skipped s.collected distinct' k
        (subst (IsEligible c.1 d.skipped) te el) in
    subst (Handoff items o.now) (sym (ap (λ (x : Task F). x.id) te) ∙ n) handoff

-- What `NextWork` selects may be worked on: each id is that of an item whose dependencies have all
-- landed, and at that time any named holder gets this item for any positive time.
pub next_work-claims :
    (F : Type 0) ⦃fl : Float F⦄ (items : List WorkItem) (o : WorkScheduleOptions) (d : Decision)
    (id holder : Text) (ttl : ℤ)
    → next_work F items o ≡ ok d
    → mem_text id d.ready ≡ true
    → is_blank holder ≡ false
    → leb_ℤ ttl (pos 0) ≡ false
    → (w : WorkItem) × Memᴰ w items
      × (w.id ≡ id)
      × All (Landed items) w.depends_on
      × (claim (some w) holder o.now ttl ≡ ok (leased w holder o.now ttl))
next_work-claims F items o d id holder ttl h m named long =
    let r = next_work-Handoff F items o d id h m in
    (
      r.item,
      r.here,
      r.named,
      r.released,
      (claim_iff r.item (leased r.item holder o.now ttl) holder o.now ttl).1
          (named, long, r.free, refl),
    )
