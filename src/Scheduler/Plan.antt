-- ===== src/Scheduler/Plan.antt =====
-- packages/scheduler/scheduler.go: the loop of `PlanWaves` ends, with a plan.
use mathlib.Core.List.{append_assoc, append-nil}
use native.Mathlib.Nat.{sub-zero}
use dev_plane.Prelude.{
  ℕ, zero, suc, ◌+◌, ◌-◌, ◌≤◌, ◌<◌, ◌≡◌, ◌≢◌, refl, ◌∙◌, ap, false, List, [], ◌∷◌, ◌++◌, length,
  length-append, length-map, arith, All-map, is_empty, none, ok,
}
use dev_plane.Prelude.Int.{pos, i64_max, ◌≤ℤ◌}
use dev_plane.Prelude.Float.{Float}
use dev_plane.Text.{
  Text, mem_text, Within, Distinct, Distinct-append, length-Distinct_le, mem_of_length, Within-refl,
}
use dev_plane.Scheduler.Defs.{Task, Manifest, State, Decision, success}
use dev_plane.Scheduler.Graph.{Known, Marks, validate}
use dev_plane.Scheduler.Select.{
  total_resources, mark, all_pending, decide_next, next, plan_loop, plan_waves,
}
use dev_plane.Scheduler.Validation.{validate-IsValidated, IsTrimmed}
use dev_plane.Scheduler.Admission.{of_non_nil, IsEligible, IsAdmissible, next-IsAdmissible}
use dev_plane.Scheduler.Progress.{
  Tracks, mark-Tracks, all_pending-Tracks, skip_tasks-nil, running_tasks-nil, released_Within,
  pending_fresh, ZeroAdds,
}
use dev_plane.Scheduler.Waves.{
  ids, concat, IsWave, IsPlan, All-ids, Picks-Within, Picks-Distinct, Distinct-ids, next-Open,
  ready-ne-nil,
}

is_empty-false : {A : Type 0} (xs : List A) → xs ≢ [] → is_empty xs ≡ false
is_empty-false [] h = absurd (h refl)
is_empty-false (x ∷ xs) h = refl

length-pos : {A : Type 0} (xs : List A) → xs ≢ [] → 0 < length xs
length-pos [] h = absurd (h refl)
length-pos (x ∷ xs) h = omega arith

map-nil : {F : Type 0} (ts : List (Task F)) → ids ts ≢ [] → ts ≢ []
map-nil [] h e = h refl
map-nil (t ∷ ts) h e = cc

Within-append : (xs ys zs : List Text) → Within xs zs → Within ys zs → Within (xs ++ ys) zs
Within-append [] ys zs a b = b
Within-append (x ∷ xs) ys zs a b = (a.0, Within-append xs ys zs a.1 b)

Within-of_length :
    (xs ys zs : List Text)
    → Distinct xs
    → Within xs ys
    → length ys ≤ length xs
    → Within zs ys
    → Within zs xs
Within-of_length xs ys [] d w l a = tt
Within-of_length xs ys (z ∷ zs) d w l a =
    (mem_of_length z xs ys d w l a.0, Within-of_length xs ys zs d w l a.1)

module _ {F : Type 0} ⦃fl : Float F⦄ (m : Manifest F) where
  -- What a round of the loop decides, in a state where `seen` has succeeded and nothing runs.
  module _ (state : State) (seen : List Text) (h : Tracks state seen) (d : Decision)
      (a : IsAdmissible m state d) where
    round-IsWave : d.ready ≢ [] → IsWave m seen d.ready
    unfolding total_resources
    round-IsWave some_ready =
        let taken : a.taken ≢ [] = map-nil a.taken (λ e. some_ready (a.ready ∙ e)) in
        let none_runs = running_tasks-nil state seen h m.tasks in
        record {
          taken = a.taken;
          picked = a.picked;
          named = a.ready;
          released =
              All-map (IsEligible state d.skipped) (λ t. Within t.depends_on seen)
                (λ t e. released_Within state seen h t e.released) a.taken a.eligible;
          separate = rw none_runs at a.separate;
          parallel = omega (arith, of_non_nil a.taken taken a.parallel, ap length none_runs);
          capacity = rw none_runs at (of_non_nil a.taken taken a.capacity);
        }

    round_once : Distinct (ids m.tasks) → Distinct seen → Distinct (seen ++ d.ready)
    round_once distinct once = rw a.ready (
        Distinct-append seen (ids a.taken) once (Picks-Distinct a.picked distinct) (
          All-ids (λ x. mem_text x seen ≡ false) a.taken
            (All-map (IsEligible state d.skipped) (λ t. mem_text t.id seen ≡ false)
              (λ t e. pending_fresh state seen h t e.waits) a.taken a.eligible)))

    round_only : Within d.ready (ids m.tasks)
    round_only = rw a.ready (Picks-Within a.picked)

  plan_loop-round :
      (fuel r : ℕ) (state : State) (k : Known F × Marks) (waves : List (List Text))
      → validate m ≡ ok k
      → (decide_next m state).skipped ≡ []
      → (decide_next m state).ready ≢ []
      → plan_loop m fuel
          (mark state success (decide_next m state).ready)
          (suc r - length (decide_next m state).ready)
        ≡ ok waves
      → plan_loop m (suc fuel) state (suc r) ≡ ok ((decide_next m state).ready ∷ waves)
  unfolding plan_loop next mark
  plan_loop-round fuel r state k waves valid skips some_ready rest =
      rw (plan_loop, valid, skips, is_empty-false _ some_ready, sub-zero, rest) (ground arith)

  module _ (known : Known F) (marks : Marks) (valid : validate m ≡ ok (known, marks))
      (trimmed : IsTrimmed m) (zero_adds : ZeroAdds F)
      (small : m.capacity.memory_mb ≤ℤ pos i64_max) where
    plan_loop-IsPlan :
        (fuel remaining : ℕ) (state : State) (seen : List Text)
        → Tracks state seen
        → Distinct seen
        → Within seen (ids m.tasks)
        → remaining + length seen ≡ length (ids m.tasks)
        → remaining < fuel
        → (waves : List (List Text)) × (plan_loop m fuel state remaining ≡ ok waves)
          × IsPlan m seen waves
    unfolding plan_loop decide_next
    plan_loop-IsPlan zero remaining state seen h once only l f = absurd (omega arith)
    plan_loop-IsPlan (suc fuel) zero state seen h once only l f = (
      [],
      refl,
      record {
        once = rw append-nil once;
        only = tt;
        complete = rw append-nil (
            Within-of_length seen (ids m.tasks) (ids m.tasks) once only (omega arith)
              (Within-refl (ids m.tasks)));
        schedule = tt;
      },
    )
    plan_loop-IsPlan (suc fuel) (suc r) state seen h once only l f =
        let v = validate-IsValidated m known marks valid in
        let d : Decision = decide_next m state in
        let a : IsAdmissible m state d = next-IsAdmissible m state d (unfold next in rw valid) in
        let some_ready : d.ready ≢ [] =
          ready-ne-nil m known marks v trimmed zero_adds small state seen h
            (next-Open m known marks v trimmed zero_adds small seen (omega arith)) in
        let once' =
          round_once state seen h d a (Distinct-ids m known marks v trimmed zero_adds small) once in
        let only' = Within-append seen d.ready (ids m.tasks) only (round_only state seen h d a) in
        let bound = length-Distinct_le (seen ++ d.ready) (ids m.tasks) once' only' in
        let (waves, e, p) =
          plan_loop-IsPlan fuel (suc r - length d.ready) (mark state success d.ready)
            (seen ++ d.ready) (mark-Tracks state seen d.ready h) once' only'
            (omega (arith, bound, length-append seen d.ready))
            (omega (arith, length-pos d.ready some_ready)) in
        (
          d.ready ∷ waves,
          plan_loop-round fuel r state (known, marks) waves valid
              (skip_tasks-nil state seen h m.tasks) some_ready e,
          record {
            once = rw append_assoc at p.once;
            only =
                Within-append d.ready (concat waves) (ids m.tasks) (round_only state seen h d a)
                  p.only;
            complete = rw append_assoc at p.complete;
            schedule = (round-IsWave state seen h d a some_ready, p.schedule);
          },
        )

    -- `PlanWaves` on a valid manifest with trimmed ids, whose memory capacity is an int64 and whose
    -- numbers do not change when zero is added, returns a plan: it neither deadlocks nor runs out of fuel, every task comes in exactly one wave, behind all of its dependencies, and each
    -- wave keeps `MaxParallel`, the capacity and the ownership of paths.
    pub plan_waves-IsPlan :
        (waves : List (List Text)) × (plan_waves m ≡ ok waves) × IsPlan m [] waves
    unfolding plan_waves
    plan_waves-IsPlan =
        let (waves, e, p) =
          plan_loop-IsPlan (length m.tasks + 1) (length m.tasks) (all_pending m.tasks (λ k. none))
            [] (all_pending-Tracks m.tasks) tt tt
            (omega (arith, length-map (λ (t : Task F). t.id) m.tasks)) (omega arith) in
        (waves, rw valid e, p)
