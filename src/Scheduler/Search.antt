-- ===== src/Scheduler/Search.antt =====
-- packages/scheduler/scheduler.go: the depth-first search of `Validate`.
use dev_plane.Prelude.{
  ℕ, zero, suc, ◌≡◌, refl, sym, ◌∙◌, ap, inl, inr, true, false, List, [], ◌∷◌, map, Bool-cases,
  Result, ok, err, ◌>>=◌, >>=-eq-ok, ok-injective, not-err-ok,
}
use dev_plane.Text.{
  Text, mem_text, remove_text, Within, Within-cons, Within-trans, Within-refl, mem_of_Within,
  remove_text-head, mem_text-head,
}
use dev_plane.Scheduler.Defs.{Task}
use dev_plane.Scheduler.Graph.{Error, cycle, Marks, Known, depends_of, visit_each, visit, visit_all}

-- Every id stands behind the ids that it depends on: a topological order, last first.
abbrev pub IsOrdered : {F : Type 0} → Known F → List Text → Type 0
IsOrdered known [] = Unit
IsOrdered known (x ∷ xs) = Within (depends_of known x) xs × IsOrdered known xs

-- What a search leaves behind: the marks `m` have become `m'`.
pub record Searched {F : Type 0} (known : Known F) (m m' : Marks) : Type 0 where
  pub ordered : IsOrdered known m.visited → IsOrdered known m'.visited
  pub grows : Within m.visited m'.visited
  pub unwound : m'.visiting ≡ m.visiting

module _ {F : Type 0} (known : Known F) where
  still : (m : Marks) → Searched known m m
  still m = record { ordered = λ h. h; grows = Within-refl m.visited; unwound = refl }

  andthen : (a b c : Marks) → Searched known a b → Searched known b c → Searched known a c
  andthen a b c p q = record {
    ordered = λ h. q.ordered (p.ordered h);
    grows = Within-trans a.visited b.visited c.visited p.grows q.grows;
    unwound = q.unwound ∙ p.unwound;
  }

  abbrev pub Finds : (Text → Marks → Result Error Marks) → Type 0
  Finds f =
      (id : Text) (m m' : Marks)
      → f id m ≡ ok m'
      → Searched known m m' × (mem_text id m'.visited ≡ true)

  visit_each-Searched :
      (f : Text → Marks → Result Error Marks)
      → Finds f
      → (ds : List Text) (m m' : Marks) → visit_each f ds m ≡ ok m'
      → Searched known m m' × Within ds m'.visited
  unfolding visit_each
  visit_each-Searched f finds [] m m' h = rw (ok-injective h) (still m', tt)
  visit_each-Searched f finds (d ∷ ds) m m' h =
      let (m1, e, h') = >>=-eq-ok (f d m) (λ n. visit_each f ds n) h in
      let (p, in1) = finds d m m1 e in
      let (q, rest) = visit_each-Searched f finds ds m1 m' h' in
      (andthen m m1 m' p q, (mem_of_Within d m1.visited m'.visited q.grows in1, rest))

  -- The three cases of a visit with fuel.
  module _ (fuel : ℕ) (id : Text) (m : Marks) where
    pub visit-visited : mem_text id m.visited ≡ true → visit known (suc fuel) id m ≡ ok m
    unfolding visit
    visit-visited e = rw (visit, e)

    pub visit-visiting :
        mem_text id m.visited ≡ false
        → mem_text id m.visiting ≡ true
        → visit known (suc fuel) id m ≡ err (cycle id)
    unfolding visit
    visit-visiting e c = rw (visit, e, c)

    abbrev pub deeper : Result Error Marks
    deeper =
        visit_each (visit known fuel) (depends_of known id)
          (record m { visiting = id ∷ m.visiting })

    abbrev pub leave : Marks → Marks
    leave m' = record { visiting = remove_text id m'.visiting; visited = id ∷ m'.visited }

    pub visit-deeper :
        mem_text id m.visited ≡ false
        → mem_text id m.visiting ≡ false
        → visit known (suc fuel) id m ≡ (deeper >>= λ m'. ok (leave m'))
    unfolding visit
    visit-deeper e c = rw (visit, e, c)

    leave-Searched :
        (m1 : Marks)
        → mem_text id m.visiting ≡ false
        → Searched known (record m { visiting = id ∷ m.visiting }) m1
        → Within (depends_of known id) m1.visited
        → Searched known m (leave m1)
    unfolding remove_text
    leave-Searched m1 c s below = record {
      ordered = λ h. (below, s.ordered h);
      grows = Within-cons m.visited m1.visited id s.grows;
      unwound = ap (remove_text id) s.unwound ∙ remove_text-head id m.visiting c;
    }

  seen :
      (id : Text) {m a b : Marks}
      → a ≡ b
      → Searched known m a
      → mem_text id a.visited ≡ true
      → Searched known m b × (mem_text id b.visited ≡ true)
  seen id e s h = rw (← e) (s, h)

  -- A search that ends well has visited its id and everything below it, in topological order.
  pub visit-Searched : (fuel : ℕ) → Finds (visit known fuel)
  unfolding visit
  visit-Searched zero id m m' h = absurd (not-err-ok h)
  visit-Searched (suc fuel) id m m' h = elim (Bool-cases (mem_text id m.visited)) [
    | inl e ↦ seen id (ok-injective (sym (visit-visited fuel id m e) ∙ h)) (still m) e
    | inr e ↦ elim (Bool-cases (mem_text id m.visiting)) [
      | inl c ↦ absurd (not-err-ok (sym (visit-visiting fuel id m e c) ∙ h))
      | inr c ↦
          let (m1, d, e') =
            >>=-eq-ok (deeper fuel id m) (λ n. ok (leave fuel id m n))
              (sym (visit-deeper fuel id m e c) ∙ h) in
          let (s, below) =
            visit_each-Searched (visit known fuel) (visit-Searched fuel) (depends_of known id)
              (record m { visiting = id ∷ m.visiting }) m1 d in
          seen id (ok-injective e') (leave-Searched fuel id m m1 c s below)
            (mem_text-head id m1.visited)
    ]
  ]

  -- After the last loop the visited ids are in topological order, and the tasks are among them.
  pub visit_all-Searched :
      (fuel : ℕ) (ts : List (Task F)) (m m' : Marks)
      → visit_all known fuel ts m ≡ ok m'
      → Searched known m m' × Within (map (λ t. t.id) ts) m'.visited
  unfolding visit_all
  visit_all-Searched fuel [] m m' h = rw (ok-injective h) (still m', tt)
  visit_all-Searched fuel (t ∷ ts) m m' h =
      let (m1, e, h') = >>=-eq-ok (visit known fuel t.id m) (λ n. visit_all known fuel ts n) h in
      let (p, in1) = visit-Searched fuel t.id m m1 e in
      let (q, rest) = visit_all-Searched fuel ts m1 m' h' in
      (andthen m m1 m' p q, (mem_of_Within t.id m1.visited m'.visited q.grows in1, rest))
