-- ===== src/Policies/Defs.antt =====
-- packages/policies/policy.go: policies, their conditions, and the engine that evaluates them.
use dev_plane.Prelude.{
  ℕ, Bool, true, false, ◌&&◌, not, Option, none, some, List, [], ◌∷◌, ◌++◌, ltb, if◌then◌else◌,
  is_empty, all,
}
use dev_plane.Prelude.Int.{ℤ, ltb_ℤ}
use dev_plane.Prelude.Float.{Float, flt, of_int, to_int}
use dev_plane.Text.{Text, codes, text_eq}

-- `other` is any string but the four constants; Go's map gives it the order 0.
pub data Effect : Type 0 where
  allow ask deny admin_only : Effect
  other : Text → Effect

abbrev pub order : Effect → ℕ
order allow = 0
order ask = 1
order deny = 2
order admin_only = 3
order (other t) = 0

abbrev pub more_restrictive_than : Effect → Effect → Bool
more_restrictive_than e f = ltb (order f) (order e)

-- the values that conditions and request details hold; `opaque` stands for any other value
pub data Value (F : Type 0) : Type 0 where
  int int32 int64 : ℤ → Value F
  float : F → Value F
  str : Text → Value F
  opaque : ℕ → Value F

-- `ID`, `OrgID`, `ProjectID` play no part in an evaluation.
pub record Policy (F : Type 0) : Type 0 where
  pub name : Text
  pub resource_type : Text
  pub action : Text
  pub effect : Effect
  pub conditions : List (Text × Value F)
  pub priority : ℤ

-- of models.User, models.Task and models.Workspace, the fields that are read
pub record User : Type 0 where
  pub id : Text
  pub organization_id : Text
  pub role : Text

pub record TaskFields : Type 0 where
  pub target_branch : Text
  pub risk_level : Text

pub record Workspace : Type 0 where
  pub runtime_provider : Text
  pub branch : Text

pub record EvaluationRequest (F : Type 0) : Type 0 where
  pub user : Option User
  pub task : Option TaskFields
  pub workspace : Option Workspace
  pub action : Text
  pub resource_type : Text
  pub resource : Text
  pub details : List (Text × Value F)

module _ {F : Type 0} where
  unfoldable pub lookup_value : Text → List (Text × Value F) → Option (Value F)
  lookup_value k [] = none
  lookup_value k ((j, v) ∷ m) = if text_eq k j then some v else lookup_value k m

  unfoldable pub matches : Policy F → Text → Text → Bool
  matches p resource_type action =
      if not (is_empty p.resource_type)
        && not (text_eq p.resource_type (codes "*"))
        && not (text_eq p.resource_type resource_type)
      then false
      else if not (is_empty p.action)
          && not (text_eq p.action (codes "*"))
          && not (text_eq p.action action)
      then false
      else true

  unfoldable pub get_scope : EvaluationRequest F → Text
  get_scope req = elim req.workspace [ none ↦ [] | some w ↦ w.runtime_provider ]

  unfoldable pub get_branch : EvaluationRequest F → Text
  get_branch req = elim req.workspace [
    | some w ↦ w.branch
    | none ↦ elim req.task [ none ↦ [] | some t ↦ t.target_branch ]
  ]

  unfoldable pub get_environment : EvaluationRequest F → Text
  get_environment req = elim req.task [ none ↦ [] | some t ↦ t.risk_level ]

  -- the value that a condition is compared with: a detail, or a field of the request
  unfoldable pub actual_value : EvaluationRequest F → Text → Option (Value F)
  unfolding lookup_value get_scope get_branch get_environment
  actual_value req key = elim (lookup_value key req.details) [
    | some v ↦ some v
    | none ↦
        if text_eq key (codes "scope")
        then some (str (get_scope req))
        else if text_eq key (codes "branch")
        then some (str (get_branch req))
        else if text_eq key (codes "environment")
        then some (str (get_environment req))
        else none
  ]

module _ {F : Type 0} ⦃fl : Float F⦄ where
  abbrev pub as_int : Value F → Option ℤ
  as_int (int n) = some n
  as_int (int32 n) = some n
  as_int (int64 n) = some n
  as_int (float f) = some (to_int f)
  as_int _ = none

  abbrev pub as_float : Value F → Option F
  as_float (float f) = some f
  as_float (int n) = some (of_int n)
  as_float (int32 n) = some (of_int n)
  as_float (int64 n) = some (of_int n)
  as_float _ = none

  -- `sprint` is fmt.Sprint
  module _ (sprint : Value F → Text) where
    -- the `switch` on the type of the expected value
    unfoldable pub meets : Value F → Value F → Bool
    meets actual (int expected) = elim (as_int actual) [
      | none ↦ false
      | some n ↦ not (ltb_ℤ n expected)
    ]
    meets actual (float expected) = elim (as_float actual) [
      | none ↦ false
      | some f ↦ not (flt f expected)
    ]
    meets actual expected = text_eq (sprint actual) (sprint expected)

    unfoldable pub check_condition : EvaluationRequest F → Text × Value F → Bool
    unfolding actual_value meets
    check_condition req c = elim (actual_value req c.0) [ none ↦ false | some v ↦ meets v c.1 ]

    unfoldable pub check_conditions : Policy F → EvaluationRequest F → Bool
    unfolding check_condition all
    check_conditions p req = all (check_condition req) p.conditions

    unfoldable pub applies : EvaluationRequest F → Policy F → Bool
    unfolding matches check_conditions
    applies req p = matches p req.resource_type req.action && check_conditions p req

    -- the loop of `Evaluate`, with its variables `result` and `matched`
    unfoldable pub evaluate_from :
        EvaluationRequest F → List (Policy F) → Effect → Bool → Effect × Bool
    evaluate_from req [] result matched = (result, matched)
    evaluate_from req (p ∷ ps) result matched =
        let skip = evaluate_from req ps result matched in
        let use_it = evaluate_from req ps p.effect true in
        if not (applies req p)
        then skip
        else if not matched
        then use_it
        else if more_restrictive_than p.effect result
        then use_it
        else skip

    unfoldable pub evaluate : List (Policy F) → EvaluationRequest F → Effect → Effect
    unfolding evaluate_from
    evaluate policies req default = (evaluate_from req policies default false).0

    -- `EvaluateMany`: the pairs of a resource type and an action
    unfoldable pub evaluate_many_from :
        List (Policy F) → EvaluationRequest F → List (Text × Text) → Effect → Effect
    evaluate_many_from policies req [] result = result
    evaluate_many_from policies req (a ∷ actions) result =
        let effect = evaluate policies (record req { resource_type = a.0; action = a.1 }) ask in
        evaluate_many_from policies req actions
          (if more_restrictive_than effect result then effect else result)

    unfoldable pub evaluate_many :
        List (Policy F) → EvaluationRequest F → List (Text × Text) → Effect
    unfolding evaluate_many_from
    evaluate_many policies req actions = evaluate_many_from policies req actions allow

    -- the loop of `EvaluateWithDetails`; `len(matched) == 1` after the append is `matched` empty before
    unfoldable pub evaluate_details_from :
        EvaluationRequest F → List (Policy F) → Effect → List Text → Effect × List Text
    evaluate_details_from req [] result matched = (result, matched)
    evaluate_details_from req (p ∷ ps) result matched =
        let skip = evaluate_details_from req ps result matched in
        let use_it = evaluate_details_from req ps p.effect (matched ++ p.name ∷ []) in
        let keep = evaluate_details_from req ps result (matched ++ p.name ∷ []) in
        if not (applies req p)
        then skip
        else if is_empty matched
        then use_it
        else if more_restrictive_than p.effect result
        then use_it
        else keep

    unfoldable pub evaluate_with_details :
        List (Policy F) → EvaluationRequest F → Effect → Effect × List Text
    unfolding evaluate_details_from
    evaluate_with_details policies req default = evaluate_details_from req policies default []

-- `NewEngine` and `AddPolicy`; sort.Slice is no stable sort, so the sort is an argument.
module _ {F : Type 0} (sort : List (Policy F) → List (Policy F)) where
  unfoldable pub new_engine : List (Policy F) → List (Policy F)
  new_engine policies = sort policies

  unfoldable pub add_policy : List (Policy F) → Policy F → List (Policy F)
  add_policy policies p = sort (policies ++ p ∷ [])
