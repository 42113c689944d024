-- ===== src/Scheduler/Progress.antt =====
-- packages/scheduler/scheduler.go: the states that `PlanWaves` goes through, and why each of its
-- calls of `Next` selects a task.
use mathlib.Core.List.{Memᴰ, append_assoc, append-nil}
use dev_plane.Prelude.{
  ℕ, ◌≤◌, ◌≡◌, ◌≢◌, refl, sym, ◌∙◌, ap, inl, inr, ◌⊎◌, Bool, true, false, List, [], ◌∷◌, ◌++◌, map,
  arith, all, any, if◌then◌else◌, none, some, Option,
}
use dev_plane.Prelude.Int.{ℤ, pos, negsuc, leb_ℤ, ltb_ℤ, add64, add64-pos, i64_max, ◌≤ℤ◌}
use dev_plane.Prelude.Float.{Float, fzero, fadd, flt, fle}
use dev_plane.Text.{Text, text_eq, mem_text, mem_text-append, Within}
use dev_plane.Scheduler.Defs.{
  Task, Resources, Manifest, State, Status, pending, success, set_status, read_status, status_of,
  is_running, dependency_failed, dependencies_succeeded, conflicts_any, is_pending, is_success,
  is_failed,
}
use dev_plane.Scheduler.Select.{
  pass, stop, take, Selection, running_tasks, skip_tasks, add_resources, no_resources, exceeds,
  consider, take_task, select, mark, all_pending,
}
use dev_plane.Scheduler.Admission.{IsEligible, select-Chosen, Verdict-cases, Chosen}

-- The ids in `seen` have succeeded, and all others are pending.
abbrev pub Tracks : State → List Text → Type 0
Tracks state seen =
    (id : Text) → status_of state id ≡ (if mem_text id seen then success else pending)

read_status-if :
    (b : Bool) (s : Status) (o : Option Status)
    → read_status (if b then some s else o) ≡ (if b then read_status (some s) else read_status o)
read_status-if true s o = refl
read_status-if false s o = refl

status_of-set :
    (state : State) (s : Status) (id k : Text)
    → status_of (set_status state id s) k
      ≡ (if text_eq k id then read_status (some s) else status_of state k)
unfolding status_of set_status
status_of-set state s id k = read_status-if (text_eq k id) s (state k)

Tracks-success :
    (state : State) (seen : List Text) (id : Text)
    → Tracks state seen
    → Tracks (set_status state id success) (seen ++ id ∷ [])
unfolding mem_text
Tracks-success state seen id h k =
    ground (arith, status_of-set state success id k, mem_text-append k seen (id ∷ []), h k)

pub mark-Tracks :
    (state : State) (seen ids : List Text)
    → Tracks state seen
    → Tracks (mark state success ids) (seen ++ ids)
unfolding mark
mark-Tracks state seen [] h = rw append-nil h
mark-Tracks state seen (id ∷ ids) h = rw (append_assoc seen (id ∷ []) ids) at (
    mark-Tracks (set_status state id success) (seen ++ id ∷ []) ids
      (Tracks-success state seen id h))

module _ (state : State) (seen : List Text) (h : Tracks state seen) where
  not_failed : (ds : List Text) → any (λ d. is_failed (status_of state d)) ds ≡ false
  unfolding any
  not_failed [] = refl
  not_failed (d ∷ ds) = ground (arith, h d, not_failed ds)

  all_success :
      (ds : List Text) → (all (λ d. is_success (status_of state d)) ds ≡ true) → Within ds seen
  unfolding all
  all_success [] e = tt
  all_success (d ∷ ds) e = (ground (arith, h d), all_success ds (ground arith))

  success_all :
      (ds : List Text) → Within ds seen → all (λ d. is_success (status_of state d)) ds ≡ true
  unfolding all
  success_all [] w = refl
  success_all (d ∷ ds) w = ground (arith, h d, w.0, success_all ds w.1)

module _ {F : Type 0} where
  Tracks-pending :
      (ts : List (Task F)) (state : State) → Tracks state [] → Tracks (all_pending ts state) []
  unfolding all_pending mem_text
  Tracks-pending [] state h = h
  Tracks-pending (t ∷ ts) state h =
      Tracks-pending ts (set_status state t.id pending)
        (λ k. ground (arith, status_of-set state pending t.id k, h k))

  pub all_pending-Tracks : (ts : List (Task F)) → Tracks (all_pending ts (λ k. none)) []
  unfolding status_of mem_text
  all_pending-Tracks ts = Tracks-pending ts (λ k. none) (λ k. refl)

  module _ (state : State) (seen : List Text) (h : Tracks state seen) where
    pub skip_tasks-nil : (ts : List (Task F)) → skip_tasks state ts [] ≡ []
    unfolding skip_tasks dependency_failed
    skip_tasks-nil [] = refl
    skip_tasks-nil (t ∷ ts) =
        ground (arith, not_failed state seen h t.depends_on, skip_tasks-nil ts)

    pub running_tasks-nil : (ts : List (Task F)) → running_tasks state ts ≡ []
    unfolding running_tasks is_running status_of
    running_tasks-nil [] = refl
    running_tasks-nil (t ∷ ts) = ground (arith, h t.id, running_tasks-nil ts)

    pub released_Within :
        (t : Task F) → dependencies_succeeded t state ≡ true → Within t.depends_on seen
    unfolding dependencies_succeeded
    released_Within t e = all_success state seen h t.depends_on e

    pub pending_fresh :
        (t : Task F) → is_pending (status_of state t.id) ≡ true → mem_text t.id seen ≡ false
    pending_fresh t e = ground (arith, h t.id)

    pub eligible :
        (t : Task F) → mem_text t.id seen ≡ false → Within t.depends_on seen → IsEligible state [] t
    unfolding dependencies_succeeded mem_text
    eligible t fresh w = record {
      waits = ground (arith, h t.id);
      kept = refl;
      released = success_all state seen h t.depends_on w;
    }

add64-zero : (n : ℕ) → n ≤ i64_max → add64 (pos 0) (pos n) ≡ pos n
add64-zero n h = add64-pos 0 n (omega arith) ∙ ap pos (omega arith)

fits_memory :
    (need room : ℤ)
    → leb_ℤ need (pos 0) ≡ false
    → ltb_ℤ room need ≡ false
    → room ≤ℤ pos i64_max
    → add64 (pos 0) need ≡ need
fits_memory (pos n) room p f l = add64-zero n (ground arith)
fits_memory (negsuc n) room p f l = ground arith

-- What `Next` adds up in floats starts at zero: `0 + x` is `x`, unless `x <= 0`.
abbrev pub ZeroAdds : (F : Type 0) ⦃fl : Float F⦄ → Type 0
ZeroAdds F = (x : F) → fle x fzero ≡ false → fadd fzero x ≡ x

mem_split : {A : Type 0} {a x : A} {xs : List A} → Memᴰ a (x ∷ xs) → (a ≡ x) ⊎ Memᴰ a xs
mem_split (Memᴰ.head e) = inl e
mem_split (Memᴰ.tail i) = inr i

snoc_not_nil : (xs : List Text) (x : Text) (ys : List Text) → (xs ++ x ∷ []) ++ ys ≢ []
snoc_not_nil [] x ys h = cc
snoc_not_nil (z ∷ xs) x ys h = cc

pass_not_take : pass ≢ take
pass_not_take h = cc

module _ {F : Type 0} ⦃fl : Float F⦄ where
  -- A task that passes validation fits into the empty machine.
  pub fits_alone :
      (capacity : Resources F) (t : Task F)
      → fadd fzero t.resources.cpu ≡ t.resources.cpu
      → leb_ℤ t.resources.memory_mb (pos 0) ≡ false
      → flt capacity.cpu t.resources.cpu ≡ false
      → ltb_ℤ capacity.memory_mb t.resources.memory_mb ≡ false
      → capacity.memory_mb ≤ℤ pos i64_max
      → exceeds (add_resources no_resources t.resources) capacity ≡ false
  unfolding add_resources no_resources
  fits_alone capacity t c p f g l =
      rw (c, fits_memory t.resources.memory_mb capacity.memory_mb p g l, f) g

  module _ (m : Manifest F) (state : State) (skips : List Text)
      (parallel : leb_ℤ m.max_parallel (pos 0) ≡ false) where
    consider-alone :
        (s : Selection F) (t : Task F)
        → s.ready ≡ []
        → s.selected ≡ []
        → s.used ≡ no_resources
        → IsEligible state skips t
        → exceeds (add_resources no_resources t.resources) m.capacity ≡ false
        → consider m state skips 0 s t ≡ take
    unfolding consider conflicts_any any
    consider-alone s t r l u e f = ground arith

    stop_busy : (s : Selection F) (x : Task F) → s.ready ≡ [] → consider m state skips 0 s x ≢ stop
    unfolding consider
    stop_busy s x r v = ground arith

    took :
        {ts : List (Task F)} (s : Selection F) (x : Task F) (s' : Selection F)
        → Chosen m state skips 0 ts (take_task s x) s'
        → s'.ready ≢ []
    unfolding take_task
    took s x s' c h = snoc_not_nil s.ready x.id (map (λ u. u.id) c.taken) (sym c.ready ∙ h)

    -- A list that holds an eligible task that fits alone gives a selection, whatever is tried before.
    pub select-progress :
        (ts : List (Task F)) (s : Selection F) (t : Task F)
        → Memᴰ t ts
        → s.ready ≡ []
        → s.selected ≡ []
        → s.used ≡ no_resources
        → IsEligible state skips t
        → exceeds (add_resources no_resources t.resources) m.capacity ≡ false
        → (select m state skips 0 ts s).ready ≢ []
    unfolding select
    select-progress [] s t i r l u e f h = elim i [ ]
    select-progress (x ∷ ts) s t i r l u e f h =
        elim (Verdict-cases (consider m state skips 0 s x)) [
          | inl v ↦ elim (mem_split i) [
            | inl q ↦ pass_not_take (sym v ∙ rw (← q) (consider-alone s t r l u e f))
            | inr j ↦ select-progress ts s t j r l u e f (rw (select, v) at h)
          ]
          | inr (inl v) ↦ stop_busy s x r v
          | inr (inr v) ↦
              took s x (select m state skips 0 ts (take_task s x))
                (select-Chosen m state skips 0 ts (take_task s x)) (rw (select, v) at h)
        ]
