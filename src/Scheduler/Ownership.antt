-- ===== src/Scheduler/Ownership.antt =====
-- packages/scheduler/scheduler.go: `OwnershipConflict` does not depend on the order of its arguments.
use dev_plane.Prelude.{
  Bool, true, List, [], ◌∷◌, Result, ok, err, ◌≡◌, refl, ◌≢◌, ◌∙◌, ap, any, any_swap, fun_ext,
  arith, sym,
}
use dev_plane.Text.{Text, text_eq_comm}
use dev_plane.Scheduler.Defs.{
  OwnershipError, normalize_ownership, overlaps, conflicts_with, ownership_conflict,
}

overlaps_comm : (a b : Text) → overlaps a b ≡ overlaps b a
unfolding overlaps
overlaps_comm a b = ground (arith, text_eq_comm a b)

-- Two normalized paths collide: one of them is no path of the repository, or they overlap.
abbrev collide : Result OwnershipError Text → Result OwnershipError Text → Bool
collide (ok a) (ok b) = overlaps a b
collide _ _ = true

collide_comm : (x y : Result OwnershipError Text) → collide x y ≡ collide y x
collide_comm (ok a) (ok b) = overlaps_comm a b
collide_comm (ok a) (err e) = refl
collide_comm (err e) (ok b) = refl
collide_comm (err e) (err e') = refl

conflicts_with-any :
    (x : Result OwnershipError Text) (right : List Text)
    → right ≢ []
    → conflicts_with x right ≡ any (λ r. collide x (normalize_ownership r)) right
unfolding conflicts_with any
conflicts_with-any x [] h = absurd (h refl)
conflicts_with-any (err e) (r ∷ right) h = refl
conflicts_with-any (ok a) (r ∷ []) h = ground arith
conflicts_with-any (ok a) (r ∷ s ∷ right) h = ground (arith, conflicts_with-any (ok a) (s ∷ right))

ownership_conflict-any :
    (left right : List Text)
    → right ≢ []
    → ownership_conflict left right
      ≡ any (λ l. any (λ r. collide (normalize_ownership l) (normalize_ownership r)) right) left
unfolding ownership_conflict any
ownership_conflict-any [] right h = refl
ownership_conflict-any (l ∷ left) right h =
    ground
      (arith, conflicts_with-any (normalize_ownership l) right, ownership_conflict-any left right)

-- Two tasks that each own a path conflict in one order exactly when they conflict in the other.
ownership_conflict_comm :
    (left right : List Text)
    → left ≢ []
    → right ≢ []
    → ownership_conflict left right ≡ ownership_conflict right left
ownership_conflict_comm left right hl hr =
    ownership_conflict-any left right hr
    ∙ any_swap (λ l r. collide (normalize_ownership l) (normalize_ownership r)) left right
    ∙ ap (λ f. any f right)
        (fun_ext λ r.
          ap (λ g. any g left)
            (fun_ext λ l. collide_comm (normalize_ownership l) (normalize_ownership r)))
    ∙ sym (ownership_conflict-any right left hl)
