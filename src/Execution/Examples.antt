-- ===== src/Execution/Examples.antt =====
-- Small activations, grants and intents, and the theorems at these inputs. The hash of the examples
-- puts a mark in front of its input.
use dev_plane.Prelude.{ℕ, ◌≡◌, ◌≢◌, ◌↔◌, ◌&&◌, refl, [], ◌∷◌, ok, err, any, arith, ◌++◌}
use dev_plane.Text.{Text, codes, text_eq, trim_space, contains_rune}
use dev_plane.Execution.Defs.{
  Activation, effect, kind_text, stale_epoch, validate_activation, advance_epoch, operation_payload,
  invalid_token,
}
use dev_plane.Execution.Grants.{Grant, validate_manifest, new_manifest, holds, delegate}
use dev_plane.Execution.Effects.{
  EffectIntent, EffectReceipt, new_operation_id, new_effect_intent, validate_intent,
  authorize_against, new_effect_receipt, recover_effect, digest_bytes,
}
use dev_plane.Execution.Fencing.{authorize_against_iff, advance_epoch-fences}
use dev_plane.Execution.Identity.{new_operation_id-injective}
use dev_plane.Execution.Delegation.{delegate-attenuates}

abbrev tag : Text → Text
tag t = 120 ∷ t

tag-ne-nil : (t : Text) → tag t ≢ []
tag-ne-nil t h = cc

tag-injective : (s t : Text) → tag s ≡ tag t → s ≡ t
tag-injective s t h = cc

abbrev first : Activation
first = record { run_id = codes "run"; id = codes "a"; epoch = 1 }

abbrev second : Activation
second = record { run_id = codes "run"; id = codes "a"; epoch = 2 }

abbrev write : Grant
write = record { operation = codes "write_file"; resource = codes "a.go"; revision = [] }

abbrev read : Grant
read = record { operation = codes "read_file"; resource = codes "a.go"; revision = [] }

-- the identity of the operation at an ordinal, and what is made of it
abbrev id_at : ℕ → Text
id_at n = codes "dp1_" ++ tag (operation_payload first effect n)

abbrev intent : ℕ → EffectIntent
intent n = record {
  id = id_at n;
  run_id = codes "run";
  activation_id = codes "a";
  epoch = 1;
  ordinal = n;
  grant = write;
  input_digest = tag (codes "dev-plane/effect-input/v1" ++ 0 ∷ codes "input");
}

abbrev receipt : EffectReceipt
receipt = record {
  effect_id = id_at 1;
  provider = codes "github";
  reference = codes "7";
  output_digest = tag (codes "dev-plane/effect-output/v1" ++ 0 ∷ codes "done");
}

program : Unit {0}
unfolding new_effect_intent validate_intent validate_activation advance_epoch text_eq
    authorize_against new_effect_receipt recover_effect delegate holds new_manifest
    validate_manifest any new_operation_id invalid_token trim_space contains_rune operation_payload
    digest_bytes
program = tt

authorize_against_iff_example : (authorize_against tag (intent 1) second ≡ ok tt) ↔ (first ≡ second)
unfolding program
authorize_against_iff_example =
    authorize_against_iff tag tag-ne-nil first second 1 write (codes "input") (intent 1) refl refl

advance_epoch-fences_example :
    (authorize_against tag (intent 1) second ≡ err stale_epoch)
    × (new_operation_id tag second effect 1 ≡ ok (id_at 1))
unfolding program
advance_epoch-fences_example =
    advance_epoch-fences tag tag-ne-nil first second 1 write (codes "input") (intent 1) refl
      (omega arith) refl

new_operation_id-injective_example : (id_at 1 ≡ id_at 1) ↔ (
    (codes "run" ≡ codes "run")
    × (codes "a" ≡ codes "a")
    × (kind_text effect ≡ kind_text effect)
    × (◌≡◌ {A = ℕ} 1 1))
unfolding program
new_operation_id-injective_example =
    new_operation_id-injective tag tag-injective first second effect effect 1 1 (id_at 1) (id_at 1)
      refl refl

delegate-attenuates_example :
    (holds (read ∷ []) read ≡ holds (read ∷ []) read)
    × ((holds (read ∷ []) read && holds (write ∷ read ∷ []) read) ≡ holds (read ∷ []) read)
unfolding program
delegate-attenuates_example =
    delegate-attenuates (write ∷ read ∷ []) (read ∷ []) (read ∷ []) read refl
