-- ===== src/Scheduler/Validation.antt =====
-- packages/scheduler/scheduler.go: what `Validate` accepts.
use dev_plane.Prelude.{
  ℕ, ◌+◌, ◌<◌, ◌≡◌, ◌≢◌, refl, sym, ◌∙◌, ap, inl, inr, ◌⊎◌, true, false, List, [], ◌∷◌, map, length,
  arith, All, All-both, Bool-cases, Result, ok, err, ◌>>=◌, ◌>>◌, >>=-eq-ok, >>=-eq-err,
  ok-injective, not-err-ok,
}
use dev_plane.Prelude.Int.{pos, leb_ℤ}
use dev_plane.Prelude.Float.{Float}
use dev_plane.Text.{Text, text_eq, mem_text, text_eq_iff, Within, trim_space}
use dev_plane.Scheduler.Defs.{Task, Manifest}
use dev_plane.Scheduler.Graph.{
  check_dependencies, Error, out_of_fuel, cycle, Marks, Known, keys, depends_of, register,
  check_all_dependencies, visit_all, no_marks, validate, check_limits,
}
use dev_plane.Scheduler.Search.{IsOrdered, visit_all-Searched}
use dev_plane.Scheduler.Termination.{visit_all-Lasts}
use dev_plane.Scheduler.Acyclic.{visit_all-Acyclic}
use dev_plane.Scheduler.Register.{
  trimmed_id, Registered, register-Registered, KnownDependencies, check_all_dependencies-ok,
  depends_of-absent, find_task, is_search_error, register-err, check_dependencies-err,
}

abbrev Falls : (Text → ℕ) → Text → List Text → Type 0
Falls rank x ds = All (λ d. rank d < rank x) ds

Falls-not_self :
    (rank : Text → ℕ) (x : Text) (ds : List Text) → Falls rank x ds → mem_text x ds ≢ true
unfolding mem_text
Falls-not_self rank x [] f h = cc
Falls-not_self rank x (d ∷ ds) f h = elim (Bool-cases (text_eq x d)) [
  | inl e ↦ absurd (omega (arith, ap rank ((text_eq_iff x d).0 e), f.0))
  | inr e ↦ Falls-not_self rank x ds f.1 (ground arith)
]

module _ {F : Type 0} ⦃fl : Float F⦄ where
  -- `Validate` after its first tests, after its first loop, and after its second.
  abbrev searching : Manifest F → Known F → Result Error (Known F × Marks)
  searching m k = visit_all k (length m.tasks + 1) m.tasks no_marks >>= λ n. ok (k, n)

  abbrev checking : Manifest F → Known F → Result Error (Known F × Marks)
  checking m k = check_all_dependencies k m.tasks >> searching m k

  abbrev registering : Manifest F → Result Error (Known F × Marks)
  registering m = register m.capacity 0 [] m.tasks >>= checking m

  pub record IsValidated (m : Manifest F) (known : Known F) (marks : Marks) : Type 0 where
    pub parallel : leb_ℤ m.max_parallel (pos 0) ≡ false
    pub registered : Registered m.capacity [] m.tasks known
    pub dependencies : All (KnownDependencies known) m.tasks
    pub ordered : IsOrdered known marks.visited
    pub reached : Within (map (λ t. t.id) m.tasks) marks.visited

  check_limits-ok :
      (m : Manifest F) {u : Unit} → check_limits m ≡ ok u → leb_ℤ m.max_parallel (pos 0) ≡ false
  unfolding check_limits
  check_limits-ok m h = ground arith

  -- A manifest that `Validate` accepts has a positive `MaxParallel`. Its trimmed ids are distinct and
  -- its tasks within the limits, the table has each of them under its trimmed id, each dependency is in
  -- the table and is not the task itself, and the search, which reached every id, left the visited ids
  -- in an order in which dependencies come first.
  pub validate-IsValidated :
      (m : Manifest F) (known : Known F) (marks : Marks)
      → validate m ≡ ok (known, marks)
      → IsValidated m known marks
  unfolding validate
  validate-IsValidated m known marks h =
      let (u, limits, h1) = >>=-eq-ok (check_limits m) (λ _. registering m) h in
      let (k, reg, h2) = >>=-eq-ok (register m.capacity 0 [] m.tasks) (λ k. checking m k) h1 in
      let (u', deps, h3) = >>=-eq-ok (check_all_dependencies k m.tasks) (λ _. searching m k) h2 in
      let (n, search, h4) =
        >>=-eq-ok (visit_all k (length m.tasks + 1) m.tasks no_marks) (λ n. ok (k, n)) h3 in
      let r = register-Registered m.capacity 0 m.tasks [] k reg in
      let (s, w) = visit_all-Searched k (length m.tasks + 1) m.tasks no_marks n search in
      let v : IsValidated m k n = record {
        parallel = check_limits-ok m limits;
        registered = r;
        dependencies = check_all_dependencies-ok k m.tasks deps;
        ordered = s.ordered tt;
        reached = w;
      } in
      rebind (ok-injective h4) v
    where
      rebind : {a b : Known F × Marks} → a ≡ b → IsValidated m a.0 a.1 → IsValidated m b.0 b.1
      rebind e v = rw (← e) v

  -- Where an error of the search comes from: the search itself, or a task that depends on itself.
  record Failed (m : Manifest F) (e : Error) (known : Known F) : Type 0 where
    registered : Registered m.capacity [] m.tasks known
    failed :
        (check_all_dependencies known m.tasks ≡ err e)
        ⊎ ((All (KnownDependencies known) m.tasks)
            × (visit_all known (length m.tasks + 1) m.tasks no_marks ≡ err e))

  check_limits-err :
      (m : Manifest F) (e : Error) → check_limits m ≡ err e → is_search_error e ≡ false
  unfolding check_limits
  check_limits-err m e h = ground arith

  validate-Failed :
      (m : Manifest F) (e : Error)
      → validate m ≡ err e
      → (is_search_error e ≡ false) ⊎ ((known : Known F) × Failed m e known)
  unfolding validate
  validate-Failed m e h = elim (>>=-eq-err (check_limits m) (λ _. registering m) h) [
    | inl bad ↦ inl (check_limits-err m e bad)
    | inr (u, good, h1) ↦ after_limits m e h1
  ]
    where
      after_checks :
          (m : Manifest F) (e : Error) (k : Known F)
          → register m.capacity 0 [] m.tasks ≡ ok k
          → checking m k ≡ err e
          → Failed m e k
      after_checks m e k reg h =
          elim (>>=-eq-err (check_all_dependencies k m.tasks) (λ _. searching m k) h) [
            | inl bad ↦ record {
              registered = register-Registered m.capacity 0 m.tasks [] k reg;
              failed = inl bad;
            }
            | inr (u, good, h1) ↦
                elim (>>=-eq-err (visit_all k (length m.tasks + 1) m.tasks no_marks)
                  (λ n. ok (k, n)) h1) [
                    | inl bad ↦ record {
                      registered = register-Registered m.capacity 0 m.tasks [] k reg;
                      failed = inr (check_all_dependencies-ok k m.tasks good, bad);
                    }
                    | inr (n, found, bad) ↦ absurd (not-err-ok (sym bad))
                  ]
          ]

      after_limits :
          (m : Manifest F) (e : Error)
          → (registering m) ≡ err e
          → (is_search_error e ≡ false) ⊎ ((known : Known F) × Failed m e known)
      after_limits m e h =
          elim (>>=-eq-err (register m.capacity 0 [] m.tasks) (λ k. checking m k) h) [
            | inl bad ↦ inl (register-err m.capacity 0 [] m.tasks e bad)
            | inr (k, reg, h1) ↦ inr (k, after_checks m e k reg h1)
          ]

  All-Unit : (ts : List (Task F)) → All (λ t. Unit {0}) ts
  All-Unit [] = tt
  All-Unit (t ∷ ts) = (tt, All-Unit ts)

  check_all_dependencies-err :
      (P : Task F → Type 0) (known : Known F) (ts : List (Task F)) (e : Error)
      → All P ts
      → check_all_dependencies known ts ≡ err e
      → (is_search_error e ≡ false)
        ⊎ ((t : Task F) × (e ≡ cycle t.id) × (mem_text t.id t.depends_on ≡ true) × P t)
  unfolding check_all_dependencies
  check_all_dependencies-err P known [] e a h = absurd (not-err-ok (sym h))
  check_all_dependencies-err P known (t ∷ ts) e a h =
      elim (>>=-eq-err (check_dependencies known t.id t.depends_on)
        (λ _. check_all_dependencies known ts) h) [
          | inl bad ↦ elim (check_dependencies-err known t.id t.depends_on e bad) [
            | inl q ↦ inl q
            | inr (q, s) ↦ inr (t, q, s, a.0)
          ]
          | inr (u, good, bad) ↦ elim (check_all_dependencies-err P known ts e a.1 bad) [
            | inl q ↦ inl q
            | inr (t', q, s, i) ↦ inr (t', q, s, i)
          ]
        ]

  -- The recursion of the search is never deeper than the fuel that the model gives it.
  pub validate-ne-out_of_fuel : (m : Manifest F) → validate m ≢ err out_of_fuel
  unfolding no_marks
  validate-ne-out_of_fuel m h = elim (validate-Failed m out_of_fuel h) [
    | inl q ↦ cc
    | inr (known, f) ↦ elim f.failed [
      | inl bad ↦
          elim (check_all_dependencies-err (λ t. Unit {0}) known m.tasks out_of_fuel
            (All-Unit m.tasks) bad) [ inl q ↦ cc | inr (t, q, s, i) ↦ cc ]
      | inr (deps, bad) ↦
          visit_all-Lasts known (keys known) (depends_of-absent known) (length m.tasks + 1)
            (omega (arith, f.registered.counted)) m.tasks no_marks refl bad
    ]
  ]

  -- The ids have no space around them.
  abbrev pub IsTrimmed : Manifest F → Type 0
  IsTrimmed m = All (λ t. trim_space t.id ≡ t.id) m.tasks

  depends_of-Falls :
      (m : Manifest F) (known : Known F) (rank : Text → ℕ)
      → Registered m.capacity [] m.tasks known
      → All (λ t. Falls rank (trimmed_id t) t.depends_on) m.tasks
      → (x : Text) → Falls rank x (depends_of known x)
  unfolding mem_text
  depends_of-Falls m known rank r a x = elim (Bool-cases (mem_text x (keys known))) [
    | inl e ↦
        let (t, named, (found, falls)) =
          find_task
            (λ t.
              (depends_of known (trimmed_id t) ≡ t.depends_on)
              × Falls rank (trimmed_id t) t.depends_on)
            x m.tasks (sym (r.members x) ∙ e)
            (All-both (λ t. depends_of known (trimmed_id t) ≡ t.depends_on)
              (λ t. Falls rank (trimmed_id t) t.depends_on) m.tasks r.found a) in
        rw (← named, found) falls
    | inr e ↦ rw (depends_of-absent known x e) tt
  ]

  -- A manifest with trimmed ids whose dependencies all lead to a lower rank is never refused for a
  -- dependency cycle.
  pub validate-ne-cycle :
      (m : Manifest F) (rank : Text → ℕ)
      → IsTrimmed m
      → All (λ t. All (λ d. rank d < rank t.id) t.depends_on) m.tasks
      → (c : Text) → validate m ≢ err (cycle c)
  unfolding no_marks
  validate-ne-cycle m rank trimmed falls c h = elim (validate-Failed m (cycle c) h) [
    | inl q ↦ cc
    | inr (known, f) ↦ elim f.failed [
      | inl bad ↦
          elim (check_all_dependencies-err (λ t. Falls rank t.id t.depends_on) known m.tasks
            (cycle c) falls bad) [
              | inl q ↦ cc
              | inr (t, q, s, g) ↦ Falls-not_self rank t.id t.depends_on g s
            ]
      | inr (deps, bad) ↦
          visit_all-Acyclic known rank
            (depends_of-Falls m known rank f.registered (retag m.tasks trimmed falls))
            (length m.tasks + 1) m.tasks c no_marks refl bad
    ]
  ]
    where
      retag :
          (ts : List (Task F))
          → All (λ t. trim_space t.id ≡ t.id) ts
          → All (λ t. Falls rank t.id t.depends_on) ts
          → All (λ t. Falls rank (trimmed_id t) t.depends_on) ts
      retag [] a b = tt
      retag (t ∷ ts) a b = (rw a.0 b.0, retag ts a.1 b.1)
