-- ===== src/Scheduler/Register.antt =====
-- packages/scheduler/scheduler.go: the first two loops of `Validate`, which build the table of tasks
-- and look every dependency up in it.
use dev_plane.Prelude.{
  ℕ, ◌+◌, ◌≡◌, refl, sym, inl, inr, ◌⊎◌, Bool, true, false, ◌||◌, not, List, [], ◌∷◌, map, length,
  arith, All, Bool-cases, ok, err, ◌>>◌, >>=-eq-ok, ok-injective, not-err-ok, >>=-eq-err, is_empty,
  fail_if, fail_if-eq-ok,
}
use dev_plane.Prelude.Int.{pos, leb_ℤ, ltb_ℤ}
use dev_plane.Prelude.Float.{Float, fzero, flt, fle}
use dev_plane.Text.{
  Text, text_eq, mem_text, text_eq_iff, text_eq_refl, text_eq_comm, Distinct, Within, trim_space,
}
use dev_plane.Scheduler.Defs.{Task, Resources}
use dev_plane.Scheduler.Graph.{
  Error, Known, keys, depends_of, check_owns, check_task, register, check_dependencies,
  check_all_dependencies,
}

-- The errors of the depth-first search.
abbrev pub is_search_error : Error → Bool
is_search_error (Error.cycle c) = true
is_search_error Error.out_of_fuel = true
is_search_error _ = false

check_owns-err :
    (id : Text) (owns : List Text) (e : Error)
    → check_owns id owns ≡ err e
    → is_search_error e ≡ false
unfolding check_owns
check_owns-err id [] e h = absurd (not-err-ok (sym h))
check_owns-err id (raw ∷ owns) e h = ground (arith, check_owns-err id owns e)

module _ {F : Type 0} where
  abbrev pub trimmed_id : Task F → Text
  trimmed_id t = trim_space t.id

  -- an id that is no key has no dependencies
  pub depends_of-absent :
      (known : Known F) (x : Text) → mem_text x (keys known) ≡ false → depends_of known x ≡ []
  unfolding depends_of mem_text
  depends_of-absent [] x h = refl
  depends_of-absent ((k, t) ∷ known) x h = ground (arith, depends_of-absent known x)

  -- the task behind an id, with what is known of all the tasks
  pub find_task :
      (P : Task F → Type 0) (x : Text) (ts : List (Task F))
      → mem_text x (map trimmed_id ts) ≡ true
      → All P ts
      → (t : Task F) × (trimmed_id t ≡ x) × P t
  unfolding mem_text
  find_task P x [] h a = cc
  find_task P x (t ∷ ts) h a = elim (Bool-cases (text_eq x (trimmed_id t))) [
    | inl e ↦ (t, sym ((text_eq_iff x (trimmed_id t)).0 e), a.0)
    | inr e ↦ find_task P x ts (ground arith) a.1
  ]

module _ {F : Type 0} ⦃fl : Float F⦄ where
  -- What a task has passed when it is stored.
  pub record IsSound (capacity : Resources F) (t : Task F) : Type 0 where
    pub named : is_empty (trim_space t.id) ≡ false
    pub needs_cpu : fle t.resources.cpu fzero ≡ false
    pub needs_memory : leb_ℤ t.resources.memory_mb (pos 0) ≡ false
    pub fits_cpu : flt capacity.cpu t.resources.cpu ≡ false
    pub fits_memory : ltb_ℤ capacity.memory_mb t.resources.memory_mb ≡ false
    pub owns_paths : is_empty t.owns ≡ false

  check_task-IsSound :
      (capacity : Resources F) (i : ℕ) (known : Known F) (t : Task F) (e : Text × Task F)
      → check_task capacity i known t ≡ ok e
      → IsSound capacity t
        × (mem_text (trim_space t.id) (keys known) ≡ false)
        × (e ≡ (trim_space t.id, record t { id = trim_space t.id }))
  unfolding check_task
  check_task-IsSound capacity i known t e h = ground arith

  pub record Registered (capacity : Resources F) (known : Known F) (ts : List (Task F))
      (known' : Known F) : Type 0 where
    pub sound : All (IsSound capacity) ts
    pub fresh : All (λ t. mem_text (trimmed_id t) (keys known) ≡ false) ts
    pub distinct : Distinct (map trimmed_id ts)
    pub counted : length (keys known') ≡ length (keys known) + length ts
    pub members :
        (x : Text)
        → mem_text x (keys known') ≡ (mem_text x (keys known) || mem_text x (map trimmed_id ts))
    pub old : (x : Text) → mem_text x (keys known) ≡ true → depends_of known' x ≡ depends_of known x
    pub found : All (λ t. depends_of known' (trimmed_id t) ≡ t.depends_on) ts

  fresh_tail :
      (x : Text) (xs : List Text) (ts : List (Task F))
      → All (λ t. mem_text (trimmed_id t) (x ∷ xs) ≡ false) ts
      → All (λ t. mem_text (trimmed_id t) xs ≡ false) ts
  unfolding mem_text
  fresh_tail x xs [] h = tt
  fresh_tail x xs (t ∷ ts) h = (ground (arith, h.0), fresh_tail x xs ts h.1)

  fresh_head :
      (x : Text) (xs : List Text) (ts : List (Task F))
      → All (λ t. mem_text (trimmed_id t) (x ∷ xs) ≡ false) ts
      → mem_text x (map trimmed_id ts) ≡ false
  unfolding mem_text
  fresh_head x xs [] h = refl
  fresh_head x xs (t ∷ ts) h =
      ground (arith, h.0, text_eq_comm x (trimmed_id t), fresh_head x xs ts h.1)

  module _ (capacity : Resources F) (known : Known F) where
    register_nil : Registered capacity known [] known
    unfolding mem_text
    register_nil = record {
      sound = tt;
      fresh = tt;
      distinct = tt;
      counted = omega arith;
      members = λ x. ground arith;
      old = λ x h. refl;
      found = tt;
    }

    register_cons :
        (t : Task F) (ts : List (Task F)) (known' : Known F)
        → IsSound capacity t
        → mem_text (trimmed_id t) (keys known) ≡ false
        → Registered capacity ((trimmed_id t, record t { id = trimmed_id t }) ∷ known) ts known'
        → Registered capacity known (t ∷ ts) known'
    unfolding mem_text depends_of
    register_cons t ts known' s absent r =
        let id = trimmed_id t in
        record {
          sound = (s, r.sound);
          fresh = (absent, fresh_tail id (keys known) ts r.fresh);
          distinct = (fresh_head id (keys known) ts r.fresh, r.distinct);
          counted = omega (arith, r.counted);
          members = λ x. ground (arith, r.members x);
          old = λ x h. ground (arith, r.old x, text_eq_iff x id);
          found = (ground (arith, r.old id, text_eq_refl id), r.found);
        }

  pub register-Registered :
      (capacity : Resources F) (i : ℕ) (ts : List (Task F)) (known known' : Known F)
      → register capacity i known ts ≡ ok known'
      → Registered capacity known ts known'
  unfolding register
  register-Registered capacity i [] known known' h =
      rw (ok-injective h) (register_nil capacity known')
  register-Registered capacity i (t ∷ ts) known known' h =
      let (e, c, h') =
        >>=-eq-ok (check_task capacity i known t) (λ e. register capacity (i + 1) (e ∷ known) ts)
          h in
      let (sound, absent, stored) = check_task-IsSound capacity i known t e c in
      let r = register-Registered capacity (i + 1) ts (e ∷ known) known' h' in
      register_cons capacity known t ts known' sound absent (rw stored at r)

  abbrev pub KnownDependencies : Known F → Task F → Type 0
  KnownDependencies known t =
      Within t.depends_on (keys known) × All (λ d. text_eq d t.id ≡ false) t.depends_on

  -- The second loop accepts when every dependency is a key and no task depends on itself.
  check_dependencies-ok :
      (known : Known F) (id : Text) (ds : List Text) {u : Unit}
      → check_dependencies known id ds ≡ ok u
      → Within ds (keys known) × All (λ d. text_eq d id ≡ false) ds
  unfolding check_dependencies
  check_dependencies-ok known id [] h = (tt, tt)
  check_dependencies-ok known id (d ∷ ds) {u} h =
      let (a, e, h1) =
        >>=-eq-ok (fail_if (text_eq d id) (Error.cycle id))
          (λ _.
            fail_if (not (mem_text d (keys known))) (Error.unknown_dependency id d)
            >> check_dependencies known id ds)
          h in
      let (b, e', h2) =
        >>=-eq-ok (fail_if (not (mem_text d (keys known))) (Error.unknown_dependency id d))
          (λ _. check_dependencies known id ds) h1 in
      let (ks, ne) = check_dependencies-ok known id ds h2 in
      ((ground (arith, fail_if-eq-ok _ _ e'), ks), (fail_if-eq-ok _ _ e, ne))

  pub check_all_dependencies-ok :
      (known : Known F) (ts : List (Task F)) {u : Unit}
      → check_all_dependencies known ts ≡ ok u
      → All (KnownDependencies known) ts
  unfolding check_all_dependencies
  check_all_dependencies-ok known [] h = tt
  check_all_dependencies-ok known (t ∷ ts) h =
      let (a, e, h1) =
        >>=-eq-ok (check_dependencies known t.id t.depends_on)
          (λ _. check_all_dependencies known ts) h in
      (check_dependencies-ok known t.id t.depends_on e, check_all_dependencies-ok known ts h1)

  check_task-err :
      (capacity : Resources F) (i : ℕ) (known : Known F) (t : Task F) (e : Error)
      → check_task capacity i known t ≡ err e
      → is_search_error e ≡ false
  unfolding check_task
  check_task-err capacity i known t e h = ground (arith, check_owns-err (trim_space t.id) t.owns e)

  pub register-err :
      (capacity : Resources F) (i : ℕ) (known : Known F) (ts : List (Task F)) (e : Error)
      → register capacity i known ts ≡ err e
      → is_search_error e ≡ false
  unfolding register
  register-err capacity i known [] e h = absurd (not-err-ok (sym h))
  register-err capacity i known (t ∷ ts) e h =
      elim (>>=-eq-err (check_task capacity i known t)
        (λ k. register capacity (i + 1) (k ∷ known) ts) h) [
          | inl bad ↦ check_task-err capacity i known t e bad
          | inr (k, good, bad) ↦ register-err capacity (i + 1) (k ∷ known) ts e bad
        ]

  -- A dependency can be reported as a cycle only by a task that depends on itself.
  pub check_dependencies-err :
      (known : Known F) (id : Text) (ds : List Text) (e : Error)
      → check_dependencies known id ds ≡ err e
      → (is_search_error e ≡ false) ⊎ ((e ≡ Error.cycle id) × (mem_text id ds ≡ true))
  unfolding check_dependencies mem_text
  check_dependencies-err known id [] e h = absurd (not-err-ok (sym h))
  check_dependencies-err known id (d ∷ ds) e h =
      ground (arith, text_eq_comm id d, check_dependencies-err known id ds e)
