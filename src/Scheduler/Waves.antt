-- ===== src/Scheduler/Waves.antt =====
-- packages/scheduler/scheduler.go: `PlanWaves` on a valid manifest.
use mathlib.Core.List.{Memᴰ}
use dev_plane.Prelude.{
  ◌<◌, ◌≡◌, ◌≢◌, refl, sym, ◌∙◌, ap, inl, inr, ◌⊎◌, true, false, List, [], ◌∷◌, ◌++◌, map, length,
  arith, All, Bool-cases,
}
use dev_plane.Prelude.Int.{pos, i64_max, ◌≤ℤ◌}
use dev_plane.Prelude.Float.{Float}
use dev_plane.Text.{
  Text, text_eq, mem_text, mem_text-head, text_eq_iff, Within, Within-cons, Distinct,
  length-Distinct_le, Within-refl, trim_space,
}
use dev_plane.Scheduler.Defs.{Task, Manifest, State}
use dev_plane.Scheduler.Graph.{no_marks, Known, Marks, keys, depends_of}
use dev_plane.Scheduler.Select.{
  total_resources, no_resources, exceeds, decide_next, selection, start_selection,
}
use dev_plane.Scheduler.Search.{IsOrdered}
use dev_plane.Scheduler.Register.{trimmed_id, IsSound, KnownDependencies, find_task}
use dev_plane.Scheduler.Validation.{IsValidated, IsTrimmed}
use dev_plane.Scheduler.Admission.{Picks, done, drop, keep, Separate}
use dev_plane.Scheduler.Progress.{
  Tracks, skip_tasks-nil, running_tasks-nil, eligible, ZeroAdds, fits_alone, select-progress,
}

abbrev pub concat : List (List Text) → List Text
concat [] = []
concat (w ∷ ws) = w ++ concat ws

abbrev pub ids : {F : Type 0} → List (Task F) → List Text
ids ts = map (λ t. t.id) ts

Within-same :
    (xs ys zs : List Text)
    → ((x : Text) → mem_text x ys ≡ mem_text x zs)
    → Within xs ys
    → Within xs zs
Within-same [] ys zs e w = tt
Within-same (x ∷ xs) ys zs e w = (sym (e x) ∙ w.0, Within-same xs ys zs e w.1)

module _ {F : Type 0} where
  pub All-ids : (P : Text → Type 0) (ts : List (Task F)) → All (λ t. P t.id) ts → All P (ids ts)
  All-ids P [] a = tt
  All-ids P (t ∷ ts) a = (a.0, All-ids P ts a.1)

  All-self :
      (ts us : List (Task F)) → ((t : Task F) → Memᴰ t us → Memᴰ t ts) → All (λ t. Memᴰ t ts) us
  All-self ts [] f = tt
  All-self ts (u ∷ us) f = (f u (Memᴰ.head refl), All-self ts us (λ t i. f t (Memᴰ.tail i)))

  ids-trimmed :
      (ts : List (Task F)) → All (λ t. trim_space t.id ≡ t.id) ts → map trimmed_id ts ≡ ids ts
  ids-trimmed [] h = refl
  ids-trimmed (t ∷ ts) h = rw (h.0, ids-trimmed ts h.1)

  pub Picks-Within : {us ts : List (Task F)} → Picks us ts → Within (ids us) (ids ts)
  Picks-Within done = tt
  Picks-Within (drop {t = t} {us = us} {ts = ts} p) =
      Within-cons (ids us) (ids ts) t.id (Picks-Within p)
  Picks-Within (keep {t = t} {us = us} {ts = ts} p) =
      (mem_text-head t.id (ids ts), Within-cons (ids us) (ids ts) t.id (Picks-Within p))

  Picks-absent :
      {us ts : List (Task F)} (x : Text)
      → Picks us ts
      → mem_text x (ids ts) ≡ false
      → mem_text x (ids us) ≡ false
  unfolding mem_text
  Picks-absent x done h = refl
  Picks-absent x (drop p) h = Picks-absent x p (ground arith)
  Picks-absent x (keep p) h = ground (arith, Picks-absent x p)

  pub Picks-Distinct : {us ts : List (Task F)} → Picks us ts → Distinct (ids ts) → Distinct (ids us)
  Picks-Distinct done d = tt
  Picks-Distinct (drop p) d = Picks-Distinct p d.1
  Picks-Distinct (keep {t = t} p) d = (Picks-absent t.id p d.0, Picks-Distinct p d.1)

module _ {F : Type 0} ⦃fl : Float F⦄ where
  -- A wave: tasks of the manifest, in its order, whose dependencies are in `seen`, no two of which
  -- conflict, at most `MaxParallel` of them and together within the capacity.
  pub record IsWave (m : Manifest F) (seen wave : List Text) : Type 0 where
    pub taken : List (Task F)
    pub picked : Picks taken m.tasks
    pub named : wave ≡ ids taken
    pub released : All (λ t. Within t.depends_on seen) taken
    pub separate : Separate [] taken
    pub parallel : pos (length taken) ≤ℤ m.max_parallel
    pub capacity : exceeds (total_resources no_resources taken) m.capacity ≡ false

  -- Each wave can run when `seen` and the waves in front of it are finished.
  abbrev pub IsSchedule : Manifest F → List Text → List (List Text) → Type 0
  IsSchedule m seen [] = Unit
  IsSchedule m seen (w ∷ ws) = IsWave m seen w × IsSchedule m (seen ++ w) ws

  -- A plan from `seen` on: every task of the manifest comes exactly once, in a schedule.
  pub record IsPlan (m : Manifest F) (seen : List Text) (waves : List (List Text)) : Type 0 where
    pub once : Distinct (seen ++ concat waves)
    pub only : Within (concat waves) (ids m.tasks)
    pub complete : Within (ids m.tasks) (seen ++ concat waves)
    pub schedule : IsSchedule m seen waves

  module _ (m : Manifest F) (known : Known F) (marks : Marks) (v : IsValidated m known marks)
      (trimmed : IsTrimmed m) (zero_adds : ZeroAdds F)
      (small : m.capacity.memory_mb ≤ℤ pos i64_max) where
    names : map trimmed_id m.tasks ≡ ids m.tasks
    names = ids-trimmed m.tasks trimmed

    -- what is known of each task
    pub record Fact (t : Task F) : Type 0 where
      pub here : Memᴰ t m.tasks
      pub same : trim_space t.id ≡ t.id
      pub below : depends_of known t.id ≡ t.depends_on
      pub inside : Within t.depends_on (ids m.tasks)
      pub sound : IsSound m.capacity t

    facts : All Fact m.tasks
    unfolding mem_text
    facts =
        gather m.tasks (All-self m.tasks m.tasks (λ t i. i)) trimmed v.registered.found
          v.dependencies v.registered.sound
      where
        gather :
            (ts : List (Task F))
            → All (λ t. Memᴰ t m.tasks) ts
            → All (λ t. trim_space t.id ≡ t.id) ts
            → All (λ t. depends_of known (trimmed_id t) ≡ t.depends_on) ts
            → All (KnownDependencies known) ts
            → All (IsSound m.capacity) ts
            → All Fact ts
        gather [] i s f k b = tt
        gather (t ∷ ts) i s f k b = (
          record {
            here = i.0;
            same = s.0;
            below = rw s.0 at f.0;
            inside =
                Within-same t.depends_on (keys known) (ids m.tasks)
                  (λ x. v.registered.members x ∙ ap (mem_text x) names) k.0.0;
            sound = b.0;
          },
          gather ts i.1 s.1 f.1 k.1 b.1,
        )

    pub Distinct-ids : Distinct (ids m.tasks)
    Distinct-ids = rw names at v.registered.distinct

    -- a task that is not in `seen`, with all of its dependencies there
    pub record Open (seen : List Text) : Type 0 where
      pub task : Task F
      pub fact : Fact task
      pub fresh : mem_text task.id seen ≡ false
      pub free : Within task.depends_on seen

    abbrev Finished : List Text → List Text → Type 0
    Finished seen xs =
        (x : Text) → mem_text x xs ≡ true → mem_text x (ids m.tasks) ≡ true → mem_text x seen ≡ true

    Within-Finished :
        (seen xs ds : List Text)
        → Finished seen xs
        → Within ds xs
        → Within ds (ids m.tasks)
        → Within ds seen
    Within-Finished seen xs [] f a b = tt
    Within-Finished seen xs (d ∷ ds) f a b = (f d a.0 b.0, Within-Finished seen xs ds f a.1 b.1)

    Finished-cons :
        (seen xs : List Text) (x : Text)
        → Finished seen xs
        → (mem_text x (ids m.tasks) ≡ true → mem_text x seen ≡ true)
        → Finished seen (x ∷ xs)
    unfolding mem_text
    Finished-cons seen xs x f g y i j = elim (Bool-cases (text_eq y x)) [
      | inl e ↦ rw ((text_eq_iff y x).0 e) (g (rw ((text_eq_iff y x).0 e) at j))
      | inr e ↦ f y (ground arith) j
    ]

    Open-of :
        (seen xs : List Text) (x : Text)
        → Finished seen xs
        → Within (depends_of known x) xs
        → mem_text x (ids m.tasks) ≡ true
        → mem_text x seen ≡ false
        → Open seen
    Open-of seen xs x f w i fresh =
        let (t, named, fact) = find_task Fact x m.tasks (rw names i) facts in
        let same : t.id ≡ x = sym fact.same ∙ named in
        let below : Within t.depends_on xs = rw (← fact.below, same) w in
        record {
          task = t;
          fact = fact;
          fresh = rw same fresh;
          free = Within-Finished seen xs t.depends_on f below fact.inside;
        }

    first-Open : (seen xs : List Text) → IsOrdered known xs → Finished seen xs ⊎ Open seen
    unfolding mem_text
    first-Open seen [] o = inl (λ x i j. cc)
    first-Open seen (x ∷ xs) o = elim (first-Open seen xs o.1) [
      | inr t ↦ inr t
      | inl f ↦ elim (Bool-cases (mem_text x (ids m.tasks))) [
        | inr out ↦ inl (Finished-cons seen xs x f (λ i. cc))
        | inl i ↦ elim (Bool-cases (mem_text x seen)) [
          | inl s ↦ inl (Finished-cons seen xs x f (λ _. s))
          | inr s ↦ inr (Open-of seen xs x f o.0 i s)
        ]
      ]
    ]

    pub next-Open : (seen : List Text) → length seen < length (ids m.tasks) → Open seen
    unfolding no_marks
    next-Open seen l = elim (first-Open seen marks.visited v.ordered) [
      | inl f ↦ absurd (
          omega (
            arith,
            length-Distinct_le (ids m.tasks) seen Distinct-ids (
                Within-Finished seen marks.visited (ids m.tasks) f v.reached
                  (Within-refl (ids m.tasks))),
          ))
      | inr t ↦ t
    ]

    pub ready-ne-nil :
        (state : State) (seen : List Text)
        → Tracks state seen
        → Open seen
        → (decide_next m state).ready ≢ []
    unfolding decide_next selection start_selection total_resources
    ready-ne-nil state seen h o =
        rw (skip_tasks-nil state seen h m.tasks, running_tasks-nil state seen h m.tasks)
          (select-progress m state [] v.parallel m.tasks _ o.task o.fact.here refl refl refl
            (eligible state seen h o.task o.fresh o.free)
            (fits_alone m.capacity o.task (zero_adds o.task.resources.cpu o.fact.sound.needs_cpu)
              o.fact.sound.needs_memory o.fact.sound.fits_cpu o.fact.sound.fits_memory small))
