-- ===== src/Execution/Effects.antt =====
-- packages/execution/execution.go: operation identities, and the intents and receipts of effects. The
-- hash, a hexadecimal SHA-256 of the bytes of a text, is an argument of the definitions that use it.
use dev_plane.Prelude.{
  ℕ, Bool, ◌||◌, ◌&&◌, not, Option, none, some, List, ◌∷◌, ◌++◌, Result, ok, err, ◌>>=◌, ◌>>◌,
  fail_if, if◌then◌else◌, is_empty, ◌==◌,
}
use dev_plane.Text.{Text, codes, text_eq}
use dev_plane.Execution.Defs.{
  Activation, Error, OperationKind, activation_mismatch, effect, intent_conflict, invalid_effect,
  invalid_operation, invalid_token, known_kind, operation_payload, receipt_conflict,
  receipt_mismatch, stale_epoch, validate_activation,
}
use dev_plane.Execution.Grants.{Grant, digest_payload, grant_eq, new_manifest, validate_grant}

pub record EffectIntent : Type 0 where
  pub id : Text
  pub run_id : Text
  pub activation_id : Text
  pub epoch : ℕ
  pub ordinal : ℕ  -- uint32
  pub grant : Grant
  pub input_digest : Text

pub record EffectReceipt : Type 0 where
  pub effect_id : Text
  pub provider : Text
  pub reference : Text
  pub output_digest : Text

unfoldable pub intent_eq : EffectIntent → EffectIntent → Bool
unfolding grant_eq
intent_eq i j =
    text_eq i.id j.id
    && text_eq i.run_id j.run_id
    && text_eq i.activation_id j.activation_id
    && i.epoch == j.epoch
    && i.ordinal == j.ordinal
    && grant_eq i.grant j.grant
    && text_eq i.input_digest j.input_digest

unfoldable pub receipt_eq : EffectReceipt → EffectReceipt → Bool
receipt_eq r s =
    text_eq r.effect_id s.effect_id
    && text_eq r.provider s.provider
    && text_eq r.reference s.reference
    && text_eq r.output_digest s.output_digest

unfoldable pub validate_receipt : EffectReceipt → Result Error (Unit {0})
validate_receipt r =
    fail_if (is_empty r.effect_id || invalid_token r.provider || is_empty r.output_digest)
      receipt_mismatch

unfoldable pub merge_receipt : EffectReceipt → EffectReceipt → Result Error EffectReceipt
unfolding validate_receipt receipt_eq
merge_receipt existing incoming =
    validate_receipt existing
    >> (validate_receipt incoming
        >> (if receipt_eq existing incoming then ok existing else err receipt_conflict))

pub data RecoveryAction : Type 0 where
  execute replay_recorded_result : RecoveryAction

-- `fmt.Errorf("%w: %v", ErrInvalidEffect, err)`
abbrev pub as_invalid_effect : {A : Type 0} → Result Error A → Result Error A
as_invalid_effect (ok a) = ok a
as_invalid_effect (err e) = err invalid_effect

abbrev pub activation_of : EffectIntent → Activation
activation_of i = record { run_id = i.run_id; id = i.activation_id; epoch = i.epoch }

module _ (hash : Text → Text) where
  unfoldable pub new_operation_id : Activation → OperationKind → ℕ → Result Error Text
  unfolding known_kind
  new_operation_id a kind ordinal =
      validate_activation a
      >> (fail_if (not (known_kind kind)) invalid_operation
          >> ok (codes "dp1_" ++ hash (operation_payload a kind ordinal)))

  unfoldable pub digest_bytes : Text → Text → Text
  digest_bytes domain value = hash (domain ++ 0 ∷ value)

  unfoldable pub digest : List Grant → Result Error Text
  unfolding new_manifest digest_payload
  digest m =
      new_manifest m >>= λ gs. ok (hash (codes "dev-plane/authority/v1" ++ 0 ∷ digest_payload gs))

  unfoldable pub new_effect_intent : Activation → ℕ → Grant → Text → Result Error EffectIntent
  new_effect_intent a ordinal grant input =
      validate_activation a
      >> (validate_grant grant
          >> (new_operation_id a effect ordinal >>= λ id. ok (record {
            id = id;
            run_id = a.run_id;
            activation_id = a.id;
            epoch = a.epoch;
            ordinal = ordinal;
            grant = grant;
            input_digest = digest_bytes (codes "dev-plane/effect-input/v1") input;
          })))

  unfoldable pub validate_intent : EffectIntent → Result Error (Unit {0})
  validate_intent i =
      as_invalid_effect (validate_activation (activation_of i))
      >> (as_invalid_effect (validate_grant i.grant)
          >> (fail_if (is_empty i.input_digest) invalid_effect
              >> (as_invalid_effect (new_operation_id (activation_of i) effect i.ordinal)
                  >>= λ expected. fail_if (not (text_eq i.id expected)) invalid_effect)))

  unfoldable pub merge_intent : EffectIntent → EffectIntent → Result Error EffectIntent
  unfolding intent_eq
  merge_intent existing incoming =
      validate_intent existing
      >> (validate_intent incoming
          >> (if intent_eq existing incoming then ok existing else err intent_conflict))

  unfoldable pub authorize_against : EffectIntent → Activation → Result Error (Unit {0})
  authorize_against i current =
      validate_intent i
      >> (validate_activation current
          >> (fail_if
                (not (text_eq i.run_id current.run_id) || not (text_eq i.activation_id current.id))
                activation_mismatch
              >> fail_if (not (i.epoch == current.epoch)) stale_epoch))

  unfoldable pub new_effect_receipt : EffectIntent → Text → Text → Text → Result Error EffectReceipt
  new_effect_receipt i provider reference output =
      validate_intent i
      >> (fail_if (invalid_token provider) receipt_mismatch
          >> ok (record {
            effect_id = i.id;
            provider = provider;
            reference = reference;
            output_digest = digest_bytes (codes "dev-plane/effect-output/v1") output;
          }))

  unfoldable pub recover_effect : EffectIntent → Option EffectReceipt → Result Error RecoveryAction
  recover_effect i none = validate_intent i >> ok execute
  recover_effect i (some r) =
      validate_intent i
      >> (validate_receipt r
          >> (fail_if (not (text_eq r.effect_id i.id)) receipt_mismatch
              >> ok replay_recorded_result))
