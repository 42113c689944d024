-- ===== src/Budget/Defs.antt =====
-- apps/api/internal/budget/engine.go: `CheckRun` and `CheckRunStart`; packages/models/budget.go: the
-- budget. The queries of the database are the fields of `Store`.
use dev_plane.Prelude.{
  Bool, true, false, ◌||◌, ◌&&◌, not, Option, none, some, List, [], ◌∷◌, ◌++◌, ◌==◌, Result, ok,
  err, if◌then◌else◌, is_empty, ◌==◌,
}
use dev_plane.Prelude.Int.{ℤ, pos, negsuc, ltb_ℤ, leb_ℤ}
use dev_plane.Prelude.Float.{Float, fzero, fsub, flt, of_int}
use dev_plane.Text.{Text, codes, text_eq}

pub record Budget (F : Type 0) : Type 0 where
  pub organization_id : Text
  pub project_id : Option Text
  pub type : Text
  pub period : Text
  pub max_cost : Option F
  pub max_runtime_minutes : ℤ
  pub max_model_calls : ℤ
  pub max_tool_calls : ℤ
  pub max_shell_commands : ℤ
  pub max_concurrent_agents : ℤ
  pub max_daily_spend : Option F

-- `Validate` of models.Budget
pub data BudgetError : Type 0 where
  organization_required type_required invalid_type period_required : BudgetError

abbrev pub is_zero : ℤ → Bool
is_zero (pos n) = n == 0
is_zero (negsuc n) = false

abbrev pub is_none {ℓ} : {A : Type ℓ} → Option A → Bool
is_none none = true
is_none (some a) = false

pub record RunState (F : Type 0) : Type 0 where
  pub cost_so_far : F
  pub duration_minutes : ℤ
  pub model_calls : ℤ
  pub tool_calls : ℤ
  pub shell_commands : ℤ
  pub files_changed : ℤ
  pub diff_size_kb : ℤ

-- A violation is what its message is made of: the value, and the maximum that it exceeds.
pub data Violation (F : Type 0) : Type 0 where
  cost daily_spend : F → F → Violation F
  runtime model_calls tool_calls shell_commands concurrent_runs admitted_runs : ℤ → ℤ → Violation F

-- `reason` is the list that the text of `Reason` prints, empty where `Reason` is "".
pub record CheckResult (F : Type 0) : Type 0 where
  pub allowed : Bool
  pub reason : List (Violation F)
  pub remaining : F
  pub violations : List (Violation F)

-- the queries: the spend of an organization today, and the runs of a project
pub record Store (F : Type 0) : Type 0 where
  pub get_daily_spend : Text → Result Text F
  pub get_concurrent_runs : Text → Result Text ℤ
  pub get_concurrent_admission_runs : Text → Result Text ℤ

module _ {F : Type 0} where
  unfoldable pub validate_budget : Budget F → Option BudgetError
  validate_budget b =
      if is_empty b.organization_id
      then some organization_required
      else if is_empty b.type
      then some type_required
      else if not (text_eq b.type (codes "organization"))
          && not (text_eq b.type (codes "project"))
          && not (text_eq b.type (codes "task"))
      then some invalid_type
      else if is_empty b.period
      then some period_required
      else none

  unfoldable pub is_unlimited : Budget F → Bool
  is_unlimited b =
      is_none b.max_cost
      && is_none b.max_daily_spend
      && is_zero b.max_runtime_minutes
      && is_zero b.max_model_calls
      && is_zero b.max_tool_calls
      && is_zero b.max_shell_commands
      && is_zero b.max_concurrent_agents

  abbrev pub violate : Violation F → CheckResult F → CheckResult F
  violate v r = record r { allowed = false; violations = r.violations ++ v ∷ [] }

  -- `if limit > 0 { if used > limit { ... } }`
  unfoldable pub check_limit : ℤ → ℤ → Violation F → CheckResult F → CheckResult F
  check_limit limit used v r = if ltb_ℤ (pos 0) limit && ltb_ℤ limit used then violate v r else r

  -- the tests on the counters of the run
  unfoldable pub check_counters : Budget F → RunState F → CheckResult F → CheckResult F
  unfolding check_limit
  check_counters b s r =
      check_limit b.max_shell_commands s.shell_commands
        (shell_commands s.shell_commands b.max_shell_commands)
        (check_limit b.max_tool_calls s.tool_calls (tool_calls s.tool_calls b.max_tool_calls) (
          check_limit b.max_model_calls s.model_calls (model_calls s.model_calls b.max_model_calls)
            (check_limit b.max_runtime_minutes s.duration_minutes
              (runtime s.duration_minutes b.max_runtime_minutes) r)))

  -- the test on the concurrent runs of a project; a failed query is only logged
  unfoldable pub check_concurrent : Store F → Budget F → CheckResult F → CheckResult F
  unfolding check_limit
  check_concurrent db b r = elim b.project_id [
    | none ↦ r
    | some project ↦ elim (db.get_concurrent_runs project) [
      | err e ↦ r
      | ok n ↦ check_limit b.max_concurrent_agents n (concurrent_runs n b.max_concurrent_agents) r
    ]
  ]

  unfoldable pub give_reason : CheckResult F → CheckResult F
  give_reason r = if r.allowed then r else record r { reason = r.violations }

module _ {F : Type 0} ⦃fl : Float F⦄ where
  unfoldable pub check_cost : Budget F → RunState F → CheckResult F → CheckResult F
  check_cost b s r = elim b.max_cost [
    | none ↦ r
    | some max ↦
        if flt max s.cost_so_far
        then violate (cost s.cost_so_far max) r
        else record r { remaining = fsub max s.cost_so_far }
  ]

  unfoldable pub check_daily : Store F → Budget F → CheckResult F → CheckResult F
  check_daily db b r = elim b.max_daily_spend [
    | none ↦ r
    | some max ↦ elim (db.get_daily_spend b.organization_id) [
      | err e ↦ r
      | ok spend ↦ if flt max spend then violate (daily_spend spend max) r else r
    ]
  ]

  abbrev pub no_violations : CheckResult F
  no_violations = record { allowed = true; reason = []; remaining = fzero; violations = [] }

  abbrev pub unlimited : CheckResult F
  unlimited = record { allowed = true; reason = []; remaining = of_int (negsuc 0); violations = [] }

  abbrev pub check_state : Budget F → Option (RunState F) → CheckResult F → CheckResult F
  check_state b none r = r
  check_state b (some s) r = check_counters b s (check_cost b s r)

  abbrev pub check_periods : Option (Store F) → Budget F → CheckResult F → CheckResult F
  check_periods none b r = r
  check_periods (some db) b r = check_concurrent db b (check_daily db b r)

  -- A nil budget is `none`; a nil database is `none`. The error that Go returns is always nil.
  unfoldable pub check_run :
      Option (Store F) → Option (Budget F) → Option (RunState F) → CheckResult F
  unfolding is_unlimited give_reason
  check_run db none s = unlimited
  check_run db (some b) s =
      if is_unlimited b
      then unlimited
      else give_reason (check_periods db b (check_state b s no_violations))

  -- the test on the admitted runs, which fails when the query does
  unfoldable pub check_admitted : Store F → Budget F → CheckResult F → Result Text (CheckResult F)
  check_admitted db b r = elim b.project_id [
    | none ↦ ok r
    | some project ↦
        if leb_ℤ b.max_concurrent_agents (pos 0)
        then ok r
        else (elim (db.get_concurrent_admission_runs project) [
          | err e ↦ err e
          | ok n ↦
              if ltb_ℤ b.max_concurrent_agents n
              then (let r' = violate (admitted_runs n b.max_concurrent_agents) r in
                  ok (record r' { reason = r'.violations }))
              else ok r
        ])
  ]

  unfoldable pub check_run_start :
      Option (Store F) → Option (Budget F) → Option (RunState F) → Result Text (CheckResult F)
  unfolding check_run check_admitted
  check_run_start db none s = ok (check_run db none s)
  check_run_start none (some b) s = ok (check_run none (some b) s)
  check_run_start (some db) (some b) s =
      let r = check_run (some db) (some b) s in
      if not r.allowed || is_unlimited b then ok r else check_admitted db b r
