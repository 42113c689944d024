-- ===== src/Scheduler/Acyclic.antt =====
-- packages/scheduler/scheduler.go: the search of `Validate` where dependencies have lower ranks.
use dev_plane.Prelude.{
  ℕ, zero, suc, ◌<◌, ◌≡◌, ◌≢◌, sym, ◌∙◌, ap, inl, inr, true, List, [], ◌∷◌, arith, All, Bool-cases,
  Result, ok, err, not-err-ok, >>=-eq-err,
}
use dev_plane.Text.{Text, text_eq, mem_text, text_eq_iff}
use dev_plane.Scheduler.Defs.{Task}
use dev_plane.Scheduler.Graph.{Error, cycle, Marks, Known, depends_of, visit_each, visit, visit_all}
use dev_plane.Scheduler.Search.{Finds, deeper, leave, visit-visited, visit-deeper, visit-Searched}

module _ {F : Type 0} (known : Known F) where
  -- Where every dependency has a lower rank, no search comes back to an id that it is visiting.
  module _ (rank : Text → ℕ)
      (falls : (x : Text) → All (λ d. rank d < rank x) (depends_of known x)) where
    abbrev Above : Text → List Text → Type 0
    Above id visiting = All (λ v. rank id < rank v) visiting

    Above-absent :
        (id : Text) (visiting : List Text) → Above id visiting → mem_text id visiting ≢ true
    unfolding mem_text
    Above-absent id [] a h = cc
    Above-absent id (v ∷ visiting) a h = elim (Bool-cases (text_eq id v)) [
      | inl e ↦ absurd (omega (arith, ap rank ((text_eq_iff id v).0 e), a.0))
      | inr e ↦ Above-absent id visiting a.1 (ground arith)
    ]

    Above-deeper :
        (d id : Text) (visiting : List Text)
        → rank d < rank id
        → Above id visiting
        → Above d visiting
    Above-deeper d id [] l a = tt
    Above-deeper d id (v ∷ visiting) l a = (omega arith, Above-deeper d id visiting l a.1)

    abbrev Acyclic : (Text → Marks → Result Error Marks) → Type 0
    Acyclic f = (id c : Text) (m : Marks) → Above id m.visiting → f id m ≢ err (cycle c)

    visit_each-Acyclic :
        (f : Text → Marks → Result Error Marks)
        → Finds known f
        → Acyclic f
        → (ds : List Text) (c : Text) (m : Marks) → All (λ d. Above d m.visiting) ds
        → visit_each f ds m ≢ err (cycle c)
    unfolding visit_each
    visit_each-Acyclic f finds ok_f [] c m a h = not-err-ok (sym h)
    visit_each-Acyclic f finds ok_f (d ∷ ds) c m a h =
        elim (>>=-eq-err (f d m) (λ n. visit_each f ds n) h) [
          | inl bad ↦ ok_f d c m a.0 bad
          | inr (m1, good, bad) ↦
              visit_each-Acyclic f finds ok_f ds c m1 (rw ((finds d m m1 good).0.unwound) a.1) bad
        ]

    below_Above :
        (id : Text) (visiting ds : List Text)
        → All (λ d. rank d < rank id) ds
        → Above id visiting
        → All (λ d. Above d (id ∷ visiting)) ds
    below_Above id visiting [] l a = tt
    below_Above id visiting (d ∷ ds) l a =
        ((l.0, Above-deeper d id visiting l.0 a), below_Above id visiting ds l.1 a)

    pub visit-Acyclic : (fuel : ℕ) → Acyclic (visit known fuel)
    unfolding visit
    visit-Acyclic zero id c m a h = cc
    visit-Acyclic (suc fuel) id c m a h = elim (Bool-cases (mem_text id m.visited)) [
      | inl v ↦ not-err-ok (sym h ∙ visit-visited known fuel id m v)
      | inr v ↦ elim (Bool-cases (mem_text id m.visiting)) [
        | inl g ↦ Above-absent id m.visiting a g
        | inr g ↦
            elim (>>=-eq-err (deeper known fuel id m) (λ n. ok (leave known fuel id m n))
              (sym (visit-deeper known fuel id m v g) ∙ h)) [
                | inl bad ↦
                    visit_each-Acyclic (visit known fuel) (visit-Searched known fuel)
                      (visit-Acyclic fuel) (depends_of known id) c
                      (record m { visiting = id ∷ m.visiting })
                      (below_Above id m.visiting (depends_of known id) (falls id) a) bad
                | inr (m1, good, bad) ↦ not-err-ok (sym bad)
              ]
      ]
    ]

    pub visit_all-Acyclic :
        (fuel : ℕ) (ts : List (Task F)) (c : Text) (m : Marks)
        → m.visiting ≡ []
        → visit_all known fuel ts m ≢ err (cycle c)
    unfolding visit_all
    visit_all-Acyclic fuel [] c m e h = not-err-ok (sym h)
    visit_all-Acyclic fuel (t ∷ ts) c m e h =
        elim (>>=-eq-err (visit known fuel t.id m) (λ n. visit_all known fuel ts n) h) [
          | inl bad ↦ visit-Acyclic fuel t.id c m (rw e tt) bad
          | inr (m1, good, bad) ↦
              visit_all-Acyclic fuel ts c m1
                ((visit-Searched known fuel t.id m m1 good).0.unwound ∙ e) bad
        ]
