-- ===== src/Scheduler/Graph.antt =====
-- packages/scheduler/scheduler.go: `Validate`, with its depth-first search for cycles.
use dev_plane.Prelude.{
  ℕ, zero, suc, ◌+◌, not, ◌||◌, List, [], ◌∷◌, map, Result, ok, err, ◌>>=◌, ◌>>◌, fail_if,
  if◌then◌else◌, is_empty, length,
}
use dev_plane.Prelude.Int.{pos, leb_ℤ, ltb_ℤ}
use dev_plane.Prelude.Float.{Float, fzero, flt, fle}
use dev_plane.Text.{Text, text_eq, mem_text, remove_text, trim_space}
use dev_plane.Scheduler.Defs.{Resources, Task, Manifest, OwnershipError, normalize_ownership}

-- `out_of_fuel` is no error of the code: the search is never given too little.
pub data Error : Type 0 where
  max_parallel_not_positive cpu_not_positive memory_not_positive no_tasks : Error
  missing_id : ℕ → Error
  duplicate_id resources_not_positive exceeds_capacity no_ownership cycle : Text → Error
  bad_ownership : Text → OwnershipError → Error
  unknown_dependency : Text → Text → Error
  deadlocked : Error
  out_of_fuel : Error

-- the loop over `task.Owns`
unfoldable pub check_owns : Text → List Text → Result Error (Unit {0})
check_owns id [] = ok tt
check_owns id (raw ∷ owns) = elim (normalize_ownership raw) [
  | err e ↦ err (bad_ownership id e)
  | ok p ↦ check_owns id owns
]

-- `visiting` and `visited`: the keys whose value is true
pub record Marks : Type 0 where
  pub visiting : List Text
  pub visited : List Text

-- the loop over the dependencies, which stops at the first error
unfoldable pub visit_each :
    (Text → Marks → Result Error Marks) → List Text → Marks → Result Error Marks
visit_each visit [] m = ok m
visit_each visit (d ∷ ds) m = visit d m >>= λ m'. visit_each visit ds m'

-- `map[string]Task`
abbrev pub Known : Type 0 → Type 0
Known F = List (Text × Task F)

unfoldable pub no_marks : Marks
no_marks = record { visiting = []; visited = [] }

module _ {F : Type 0} where
  abbrev pub keys : Known F → List Text
  keys = map (λ e. e.0)

  -- `tasks[id].DependsOn`, nil for a missing key
  unfoldable pub depends_of : Known F → Text → List Text
  depends_of [] id = []
  depends_of ((k, t) ∷ known) id = if text_eq id k then t.depends_on else depends_of known id

  unfoldable pub visit : Known F → ℕ → Text → Marks → Result Error Marks
  unfolding visit_each
  visit known zero id m = err out_of_fuel
  visit known (suc fuel) id m =
      let deeper =
        visit_each (visit known fuel) (depends_of known id)
          (record m { visiting = id ∷ m.visiting }) in
      if mem_text id m.visited
      then ok m
      else if mem_text id m.visiting
      then err (cycle id)
      else (deeper >>= λ m'.
          ok (record { visiting = remove_text id m'.visiting; visited = id ∷ m'.visited }))

  -- the dependencies of one task: none is the task itself, and each is a known id
  unfoldable pub check_dependencies : Known F → Text → List Text → Result Error (Unit {0})
  check_dependencies known id [] = ok tt
  check_dependencies known id (d ∷ ds) =
      fail_if (text_eq d id) (cycle id)
      >> (fail_if (not (mem_text d (keys known))) (unknown_dependency id d)
          >> check_dependencies known id ds)

  unfoldable pub check_all_dependencies : Known F → List (Task F) → Result Error (Unit {0})
  unfolding check_dependencies
  check_all_dependencies known [] = ok tt
  check_all_dependencies known (t ∷ ts) =
      check_dependencies known t.id t.depends_on >> check_all_dependencies known ts

  -- the last loop: a search from every task, by its raw id
  unfoldable pub visit_all : Known F → ℕ → List (Task F) → Marks → Result Error Marks
  unfolding visit
  visit_all known fuel [] m = ok m
  visit_all known fuel (t ∷ ts) m = visit known fuel t.id m >>= λ m'. visit_all known fuel ts m'

module _ {F : Type 0} ⦃fl : Float F⦄ where
  -- the body of the first loop, at index `i`: the entry that is stored
  unfoldable pub check_task : Resources F → ℕ → Known F → Task F → Result Error (Text × Task F)
  unfolding check_owns
  check_task capacity i known t =
      let id = trim_space t.id in
      let need = t.resources in
      fail_if (is_empty id) (missing_id i)
      >> (fail_if (mem_text id (keys known)) (duplicate_id id)
          >> (fail_if (fle need.cpu fzero || leb_ℤ need.memory_mb (pos 0))
                (resources_not_positive id)
              >> (fail_if (flt capacity.cpu need.cpu || ltb_ℤ capacity.memory_mb need.memory_mb)
                    (exceeds_capacity id)
                  >> (fail_if (is_empty t.owns) (no_ownership id)
                      >> (check_owns id t.owns >> ok (id, record t { id = id }))))))

  unfoldable pub register : Resources F → ℕ → Known F → List (Task F) → Result Error (Known F)
  unfolding check_task
  register capacity i known [] = ok known
  register capacity i known (t ∷ ts) =
      check_task capacity i known t >>= λ e. register capacity (i + 1) (e ∷ known) ts

  -- the tests in front of the loops
  unfoldable pub check_limits : Manifest F → Result Error (Unit {0})
  check_limits m =
      fail_if (leb_ℤ m.max_parallel (pos 0)) max_parallel_not_positive
      >> (fail_if (fle m.capacity.cpu fzero) cpu_not_positive
          >> (fail_if (leb_ℤ m.capacity.memory_mb (pos 0)) memory_not_positive
              >> fail_if (is_empty m.tasks) no_tasks))

  -- On success the value is the table of tasks with the marks of the search; Go returns nil.
  unfoldable pub validate : Manifest F → Result Error (Known F × Marks)
  unfolding check_limits register check_all_dependencies visit_all no_marks
  validate m =
      check_limits m
      >> (register m.capacity 0 [] m.tasks >>= λ known.
          check_all_dependencies known m.tasks
          >> (visit_all known (length m.tasks + 1) m.tasks no_marks >>= λ marks. ok (known, marks)))
