-- ===== src/Scheduler/Termination.antt =====
-- packages/scheduler/scheduler.go: the depth of the search of `Validate`.
use dev_plane.Prelude.{
  ℕ, zero, suc, ◌+◌, ◌<◌, ◌≡◌, ◌≢◌, sym, ◌∙◌, ap, inl, inr, true, false, List, [], ◌∷◌, length,
  arith, Bool-cases, Result, ok, err, not-err-ok, >>=-eq-err,
}
use dev_plane.Text.{Text, mem_text, Distinct, Within, length-Distinct_le}
use dev_plane.Scheduler.Defs.{Task}
use dev_plane.Scheduler.Graph.{
  Error, out_of_fuel, cycle, Marks, Known, depends_of, visit_each, visit, visit_all,
}
use dev_plane.Scheduler.Search.{
  Finds, deeper, leave, visit-visited, visit-visiting, visit-deeper, visit-Searched,
}

module _ {F : Type 0} (known : Known F) where
  -- The recursion goes no deeper than there are known ids, so the fuel lasts.
  module _ (ids : List Text)
      (leaf : (x : Text) → mem_text x ids ≡ false → depends_of known x ≡ []) where
    abbrev Lasts : (Text → Marks → Result Error Marks) → List Text → Type 0
    Lasts f visiting = (id : Text) (m : Marks) → m.visiting ≡ visiting → f id m ≢ err out_of_fuel

    visit_each-Lasts :
        (f : Text → Marks → Result Error Marks) (visiting : List Text)
        → Finds known f
        → Lasts f visiting
        → (ds : List Text) → Lasts (λ id m. visit_each f ds m) visiting
    unfolding visit_each
    visit_each-Lasts f visiting finds lasts [] id m e h = cc
    visit_each-Lasts f visiting finds lasts (d ∷ ds) id m e h =
        elim (>>=-eq-err (f d m) (λ n. visit_each f ds n) h) [
          | inl bad ↦ lasts d m e bad
          | inr (m1, good, bad) ↦
              visit_each-Lasts f visiting finds lasts ds id m1 ((finds d m m1 good).0.unwound ∙ e)
                bad
        ]

    cycle_not_fuel :
        {id : Text} → ◌≡◌ {A = Result Error Marks} (err (cycle id)) (err out_of_fuel) → ⊥
    cycle_not_fuel h = cc

    deeper-Lasts :
        (fuel : ℕ) (visiting : List Text) (id : Text) (m : Marks)
        → m.visiting ≡ visiting
        → (mem_text id ids ≡ true → Lasts (visit known fuel) (id ∷ visiting))
        → deeper known fuel id m ≢ err out_of_fuel
    unfolding visit_each
    deeper-Lasts fuel visiting id m e rec bad = elim (Bool-cases (mem_text id ids)) [
      | inl i ↦
          visit_each-Lasts (visit known fuel) (id ∷ visiting) (visit-Searched known fuel) (rec i)
            (depends_of known id) id (record m { visiting = id ∷ m.visiting })
            (ap (λ (v : List Text). id ∷ v) e) bad
      | inr o ↦ not-err-ok (sym (rw (leaf id o) at bad))
    ]

    pub visit-Lasts :
        (fuel : ℕ) (visiting : List Text)
        → Distinct visiting
        → Within visiting ids
        → length ids < fuel + length visiting
        → Lasts (visit known fuel) visiting
    visit-Lasts zero visiting d w l id m e h =
        absurd (omega (arith, length-Distinct_le visiting ids d w))
    visit-Lasts (suc fuel) visiting d w l id m e h = elim (Bool-cases (mem_text id m.visited)) [
      | inl v ↦ not-err-ok (sym h ∙ visit-visited known fuel id m v)
      | inr v ↦ elim (Bool-cases (mem_text id m.visiting)) [
        | inl c ↦ cycle_not_fuel (sym (visit-visiting known fuel id m v c) ∙ h)
        | inr c ↦
            elim (>>=-eq-err (deeper known fuel id m) (λ n. ok (leave known fuel id m n))
              (sym (visit-deeper known fuel id m v c) ∙ h)) [
                | inl bad ↦
                    deeper-Lasts fuel visiting id m e
                      (λ i. visit-Lasts fuel (id ∷ visiting) (rw e at c, d) (i, w) (omega arith))
                      bad
                | inr (m1, good, bad) ↦ not-err-ok (sym bad)
              ]
      ]
    ]

  -- `fuel` above the number of known ids is enough for all the searches of the last loop.
  pub visit_all-Lasts :
      (ids : List Text)
      → ((x : Text) → mem_text x ids ≡ false → depends_of known x ≡ [])
      → (fuel : ℕ) → length ids < fuel
      → (ts : List (Task F)) (m : Marks) → m.visiting ≡ []
      → visit_all known fuel ts m ≢ err out_of_fuel
  unfolding visit_all
  visit_all-Lasts ids leaf fuel l [] m e h = not-err-ok (sym h)
  visit_all-Lasts ids leaf fuel l (t ∷ ts) m e h =
      elim (>>=-eq-err (visit known fuel t.id m) (λ n. visit_all known fuel ts n) h) [
        | inl bad ↦ visit-Lasts ids leaf fuel [] tt tt (omega arith) t.id m e bad
        | inr (m1, good, bad) ↦
            visit_all-Lasts ids leaf fuel l ts m1
              ((visit-Searched known fuel t.id m m1 good).0.unwound ∙ e) bad
      ]
