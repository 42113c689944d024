-- ===== src/Scheduler/Admission.antt =====
-- packages/scheduler/scheduler.go: what the second loop of `Next` selects.
use mathlib.Core.List.{append-nil, append_assoc}
use dev_plane.Prelude.{
  ℕ, suc, ◌+◌, ◌≡◌, ◌≢◌, refl, sym, ◌∙◌, ap, inl, inr, ◌⊎◌, true, false, List, [], ◌∷◌, ◌++◌, map,
  length, length-append, length-map, ok-injective, >>=-eq-ok, arith, All, ok,
}
use dev_plane.Prelude.Int.{pos, ◌≤ℤ◌}
use dev_plane.Prelude.Float.{Float}
use dev_plane.Text.{Text, mem_text}
use dev_plane.Scheduler.Defs.{
  Task, Manifest, State, Decision, status_of, dependencies_succeeded, conflicts_any, is_pending,
}
use dev_plane.Scheduler.Graph.{validate}
use dev_plane.Scheduler.Select.{
  Verdict, pass, stop, take, Selection, running_tasks, skip_tasks, add_resources, total_resources,
  no_resources, exceeds, consider, take_task, select, start_selection, selection, decide_next, next,
}

-- `us` is what is left of `ts` when some elements are dropped.
pub data Picks {A : Type 0} : List A → List A → Type 0 where
  done : Picks [] []
  drop : {t : A} {us ts : List A} → Picks us ts → Picks us (t ∷ ts)
  keep : {t : A} {us ts : List A} → Picks us ts → Picks (t ∷ us) (t ∷ ts)

pub Picks-nil : {A : Type 0} (ts : List A) → Picks [] ts
Picks-nil [] = done
Picks-nil (t ∷ ts) = drop (Picks-nil ts)

pub Verdict-cases : (v : Verdict) → (v ≡ pass) ⊎ ((v ≡ stop) ⊎ (v ≡ take))
Verdict-cases pass = inl refl
Verdict-cases stop = inr (inl refl)
Verdict-cases take = inr (inr refl)

-- Each task conflicts with none of `before` and with none of the tasks in front of it.
abbrev pub Separate : {F : Type 0} → List (Task F) → List (Task F) → Type 0
Separate before [] = Unit
Separate before (t ∷ ts) = (conflicts_any t before ≡ false) × Separate (before ++ t ∷ []) ts

-- The task is pending, is not in `skips`, and all of its dependencies have succeeded.
pub record IsEligible {F : Type 0} (state : State) (skips : List Text) (t : Task F) : Type 0 where
  pub waits : is_pending (status_of state t.id) ≡ true
  pub kept : mem_text t.id skips ≡ false
  pub released : dependencies_succeeded t state ≡ true

unless_nil {ℓ} : {A P : Type ℓ} (xs : List A) → (xs ≢ [] → P) → (xs ≡ []) ⊎ P
unless_nil [] f = inl refl
unless_nil (x ∷ xs) f = inr (f (λ h. cc))

-- what holds of a list unless it is empty holds of one that is not
pub of_non_nil {ℓ} : {A P : Type ℓ} (xs : List A) → xs ≢ [] → (xs ≡ []) ⊎ P → P
of_non_nil xs some_in h = elim h [ inl e ↦ absurd (some_in e) | inr p ↦ p ]

module _ {F : Type 0} ⦃fl : Float F⦄ where
  -- The loop went from the selection `s` to `s'` by taking some of the tasks `ts`, in order.
  pub record Chosen (m : Manifest F) (state : State) (skips : List Text) (running_count : ℕ)
      (ts : List (Task F)) (s s' : Selection F) : Type 0 where
    pub taken : List (Task F)
    pub picked : Picks taken ts
    pub ready : s'.ready ≡ s.ready ++ map (λ t. t.id) taken
    pub selected : s'.selected ≡ s.selected ++ taken
    pub used : s'.used ≡ total_resources s.used taken
    pub eligible : All (IsEligible state skips) taken
    pub separate : Separate s.selected taken
    pub parallel : taken ≢ [] → pos (running_count + length s'.ready) ≤ℤ m.max_parallel
    pub capacity : taken ≢ [] → exceeds s'.used m.capacity ≡ false

  -- What a task has passed when it is taken.
  record Taken (m : Manifest F) (state : State) (skips : List Text) (running_count : ℕ)
      (s : Selection F) (t : Task F) : Type 0 where
    eligible : IsEligible state skips t
    room : pos (suc (running_count + length s.ready)) ≤ℤ m.max_parallel
    fits : exceeds (add_resources s.used t.resources) m.capacity ≡ false
    apart : conflicts_any t s.selected ≡ false

  module _ (m : Manifest F) (state : State) (skips : List Text) (running_count : ℕ) where
    consider-take :
        (s : Selection F) (t : Task F)
        → consider m state skips running_count s t ≡ take
        → Taken m state skips running_count s t
    unfolding consider
    consider-take s t h = ground arith

    nothing : (ts : List (Task F)) (s : Selection F) → Chosen m state skips running_count ts s s
    unfolding total_resources
    nothing ts s = record {
      taken = [];
      picked = Picks-nil ts;
      ready = sym (append-nil s.ready);
      selected = sym (append-nil s.selected);
      used = refl;
      eligible = tt;
      separate = tt;
      parallel = λ h. absurd (h refl);
      capacity = λ h. absurd (h refl);
    }

    later :
        {ts : List (Task F)} {s s' : Selection F} (t : Task F)
        → Chosen m state skips running_count ts s s'
        → Chosen m state skips running_count (t ∷ ts) s s'
    later t c = record {
      taken = c.taken;
      picked = drop c.picked;
      ready = c.ready;
      selected = c.selected;
      used = c.used;
      eligible = c.eligible;
      separate = c.separate;
      parallel = c.parallel;
      capacity = c.capacity;
    }

    last_parallel :
        (s s' : Selection F) (t : Task F) (us : List (Task F))
        → Taken m state skips running_count s t
        → s'.ready ≡ (s.ready ++ t.id ∷ []) ++ map (λ u. u.id) us
        → (us ≢ [] → pos (running_count + length s'.ready) ≤ℤ m.max_parallel)
        → pos (running_count + length s'.ready) ≤ℤ m.max_parallel
    last_parallel s s' t [] k e h = omega (
      arith,
      k.room,
      ap length e,
      length-append (s.ready ++ t.id ∷ []) [],
      length-append s.ready (t.id ∷ []),
    )
    last_parallel s s' t (u ∷ us) k e h = h (λ q. cc)

    last_capacity :
        (s s' : Selection F) (t : Task F) (us : List (Task F))
        → Taken m state skips running_count s t
        → s'.used ≡ total_resources (add_resources s.used t.resources) us
        → (us ≢ [] → exceeds s'.used m.capacity ≡ false)
        → exceeds s'.used m.capacity ≡ false
    unfolding total_resources
    last_capacity s s' t [] k e h = rw e k.fits
    last_capacity s s' t (u ∷ us) k e h = h (λ q. cc)

    now :
        (ts : List (Task F)) (s s' : Selection F) (t : Task F)
        → Taken m state skips running_count s t
        → Chosen m state skips running_count ts (take_task s t) s'
        → Chosen m state skips running_count (t ∷ ts) s s'
    unfolding take_task total_resources
    now ts s s' t k c = record {
      taken = t ∷ c.taken;
      picked = keep c.picked;
      ready = c.ready ∙ append_assoc s.ready (t.id ∷ []) (map (λ u. u.id) c.taken);
      selected = c.selected ∙ append_assoc s.selected (t ∷ []) c.taken;
      used = c.used;
      eligible = (k.eligible, c.eligible);
      separate = (k.apart, c.separate);
      parallel = λ h. last_parallel s s' t c.taken k c.ready c.parallel;
      capacity = λ h. last_capacity s s' t c.taken k c.used c.capacity;
    }

    pub select-Chosen :
        (ts : List (Task F)) (s : Selection F)
        → Chosen m state skips running_count ts s (select m state skips running_count ts s)
    unfolding select
    select-Chosen [] s = nothing [] s
    select-Chosen (t ∷ ts) s = elim (Verdict-cases (consider m state skips running_count s t)) [
      | inl e ↦ rw (select, e) (later t (select-Chosen ts s))
      | inr (inl e) ↦ rw (select, e) (nothing (t ∷ ts) s)
      | inr (inr e) ↦
          rw (select, e)
            (now ts s (select m state skips running_count ts (take_task s t)) t
              (consider-take s t e) (select-Chosen ts (take_task s t)))
    ]

  -- A decision of `Next` may be carried out at once, beside the running tasks.
  pub record IsAdmissible (m : Manifest F) (state : State) (d : Decision) : Type 0 where
    pub taken : List (Task F)
    pub picked : Picks taken m.tasks
    pub ready : d.ready ≡ map (λ t. t.id) taken
    pub eligible : All (IsEligible state d.skipped) taken
    pub separate : Separate (running_tasks state m.tasks) taken
    pub parallel :
        (taken ≡ []) ⊎ (pos (length (running_tasks state m.tasks) + length taken) ≤ℤ m.max_parallel)
    pub capacity :
        (taken ≡ [])
        ⊎ (exceeds
              (total_resources (total_resources no_resources (running_tasks state m.tasks)) taken)
              m.capacity
            ≡ false)

  decide_next-IsAdmissible :
      (m : Manifest F) (state : State) → IsAdmissible m state (decide_next m state)
  unfolding decide_next selection start_selection
  decide_next-IsAdmissible m state =
      let c =
        select-Chosen m state (skip_tasks state m.tasks []) (length (running_tasks state m.tasks))
          m.tasks (start_selection m state) in
      record {
        taken = c.taken;
        picked = c.picked;
        ready = c.ready;
        eligible = c.eligible;
        separate = c.separate;
        parallel = unless_nil c.taken (λ h.
            omega
              (arith, c.parallel h, ap length c.ready, length-map (λ (t : Task F). t.id) c.taken));
        capacity = unless_nil c.taken (λ h. rw c.used at (c.capacity h));
      }

  -- `Next` selects pending tasks of the manifest, in its order, whose dependencies have all
  -- succeeded. None of them conflicts with a running task or with another selected one. If any is
  -- selected, the running and the selected tasks are at most `MaxParallel`, and their resources, added
  -- up as the code adds them, do not exceed the capacity.
  pub next-IsAdmissible :
      (m : Manifest F) (state : State) (d : Decision) → next m state ≡ ok d → IsAdmissible m state d
  unfolding next
  next-IsAdmissible m state d h =
      let (k, v, e) = >>=-eq-ok (validate m) (λ k. ok (decide_next m state)) h in
      rw (ok-injective e) at (decide_next-IsAdmissible m state)
