-- ===== src/Execution/Defs.antt =====
-- packages/execution/execution.go: the errors, the activations, and what the hash of an operation's
-- identity is fed.
use dev_plane.Prelude.{
  ℕ, zero, suc, ◌+◌, ◌/◌, ◌%◌, Bool, ◌||◌, List, [], ◌∷◌, ◌++◌, Result, ok, ◌>>◌, fail_if,
  if◌then◌else◌, is_empty, ◌==◌, ltb,
}
use dev_plane.Text.{Text, codes, text_eq, trim_space, contains_rune}

pub data Error : Type 0 where
  invalid_activation epoch_exhausted invalid_operation invalid_grant invalid_manifest : Error
  authority_escalation activation_mismatch stale_epoch invalid_effect : Error
  intent_conflict receipt_mismatch receipt_conflict : Error

-- math.MaxUint64
abbrev pub max_uint64 : ℕ
max_uint64 = 18446744073709551615

pub record Activation : Type 0 where
  pub run_id : Text
  pub id : Text
  pub epoch : ℕ  -- uint64

unfoldable pub invalid_token : Text → Bool
invalid_token value = is_empty (trim_space value) || contains_rune value 0

unfoldable pub validate_activation : Activation → Result Error (Unit {0})
validate_activation a =
    fail_if (invalid_token a.run_id || invalid_token a.id || a.epoch == 0) invalid_activation

-- `a.Epoch++` on uint64, behind the guard against the largest value
unfoldable pub advance_epoch : Activation → Result Error Activation
unfolding validate_activation
advance_epoch a =
    validate_activation a
    >> (fail_if (a.epoch == max_uint64) epoch_exhausted
        >> ok (record a { epoch = (a.epoch + 1) % 18446744073709551616 }))

-- The two kinds, and any other string.
pub data OperationKind : Type 0 where
  event effect : OperationKind
  other : Text → OperationKind

abbrev pub kind_text : OperationKind → Text
kind_text event = codes "event"
kind_text effect = codes "effect"
kind_text (other t) = t

-- The `switch` on the kind is by its text.
unfoldable pub known_kind : OperationKind → Bool
known_kind k = text_eq (kind_text k) (codes "event") || text_eq (kind_text k) (codes "effect")

-- strconv.FormatUint(n, 10), on fuel: `digits_from n n` has enough
unfoldable pub digits_from : ℕ → ℕ → Text → Text
digits_from zero n rest = (48 + n % 10) ∷ rest
digits_from (suc fuel) n rest =
    let longer = digits_from fuel (n / 10) ((48 + n % 10) ∷ rest) in
    if ltb n 10 then (48 + n) ∷ rest else longer

unfoldable pub format_uint : ℕ → Text
unfolding digits_from
format_uint n = digits_from n n []

-- strings.Join xs "\x00"
unfoldable pub join_nul : List Text → Text
join_nul [] = []
join_nul (x ∷ []) = x
join_nul (x ∷ y ∷ ys) = x ++ 0 ∷ join_nul (y ∷ ys)

unfoldable pub operation_payload : Activation → OperationKind → ℕ → Text
unfolding join_nul format_uint
operation_payload a kind ordinal =
    join_nul
      (codes "dev-plane/execution/v1" ∷ a.run_id ∷ a.id ∷ kind_text kind ∷ format_uint ordinal ∷ [])
