-- ===== src/Execution/Fencing.antt =====
-- packages/execution/execution.go: epochs fence stale owners, and a recorded effect is not repeated.
use dev_plane.Prelude.{
  ℕ, ◌+◌, ◌≤◌, ◌⊎◌, true, false, ◌≡◌, ◌≢◌, refl, sym, ◌∙◌, ap, ◌↔◌, [], ◌∷◌, ◌++◌, none, some,
  Result, ok, err, arith, is_empty, inl, inr,
}
use dev_plane.Text.{Text, codes, text_eq, text_eq_refl, text_eq_iff}
use dev_plane.Execution.Delegation.{grant_eq_iff}
use dev_plane.Execution.Defs.{
  Error, Activation, OperationKind, effect, activation_mismatch, stale_epoch, receipt_mismatch,
  validate_activation, advance_epoch, operation_payload, known_kind, max_uint64, intent_conflict,
}
use dev_plane.Execution.Grants.{Grant}
use dev_plane.Execution.Effects.{
  EffectIntent, EffectReceipt, execute, replay_recorded_result, validate_receipt, new_operation_id,
  new_effect_intent, validate_intent, activation_of, authorize_against, new_effect_receipt,
  recover_effect, digest_bytes, merge_intent, intent_eq,
}

not_empty : (t : Text) → t ≢ [] → is_empty t ≡ false
not_empty [] h = absurd (h refl)
not_empty (c ∷ t) h = refl

known_effect : known_kind effect ≡ true
unfolding known_kind text_eq
known_effect = refl

ok_not_err :
    {A : Type 0} {a : A} {e : Error} {P : Type 0} → ◌≡◌ {A = Result Error A} (ok a) (err e) → P
ok_not_err h = cc

intent_eq_iff : (i j : EffectIntent) → (intent_eq i j ≡ true) ↔ (i ≡ j)
unfolding intent_eq
intent_eq_iff i j = ground (
  arith,
  text_eq_iff i.id j.id,
  text_eq_iff i.run_id j.run_id,
  text_eq_iff i.activation_id j.activation_id,
  grant_eq_iff i.grant j.grant,
  text_eq_iff i.input_digest j.input_digest,
)

next_differs : (n : ℕ) → n ≢ n + 1
next_differs n h = absurd (omega arith)

advance_epoch-eq :
    (a b : Activation)
    → advance_epoch a ≡ ok b
    → a.epoch ≤ max_uint64
    → (b ≡ record a { epoch = a.epoch + 1 }) × (validate_activation a ≡ ok tt)
unfolding advance_epoch
advance_epoch-eq a b h l = ground arith

validate_activation-next :
    (a : Activation)
    → validate_activation a ≡ ok tt
    → validate_activation (record a { epoch = a.epoch + 1 }) ≡ ok tt
unfolding validate_activation
validate_activation-next a v = ground arith

operation_payload-next :
    (a : Activation) (k : OperationKind) (n e : ℕ)
    → operation_payload (record a { epoch = e }) k n ≡ operation_payload a k n
unfolding operation_payload
operation_payload-next a k n e = refl

new_operation_id-next :
    (hash : Text → Text) (a : Activation) (n : ℕ)
    → validate_activation a ≡ ok tt
    → new_operation_id hash (record a { epoch = a.epoch + 1 }) effect n
      ≡ new_operation_id hash a effect n
unfolding new_operation_id
new_operation_id-next hash a n v =
    rw (v, validate_activation-next a v, operation_payload-next a effect n (a.epoch + 1))

advance_epoch-next :
    (hash : Text → Text) (a b : Activation)
    → advance_epoch a ≡ ok b
    → a.epoch ≤ max_uint64
    → (b ≡ record a { epoch = a.epoch + 1 })
      × (validate_activation b ≡ ok tt)
      × ((n : ℕ) → new_operation_id hash b effect n ≡ new_operation_id hash a effect n)
advance_epoch-next hash a b h l =
    let (e, v) = advance_epoch-eq a b h l in
    (
      e,
      ap validate_activation e ∙ validate_activation-next a v,
      λ n.
          ap (λ (x : Activation). new_operation_id hash x effect n) e
          ∙ new_operation_id-next hash a n v,
    )

module _ (hash : Text → Text) (hash-ne-nil : (t : Text) → hash t ≢ []) where
  -- an intent that was made is valid, and names the activation it was made under
  record Made (a : Activation) (ordinal : ℕ) (grant : Grant) (i : EffectIntent) : Type 0 where
    run_id : i.run_id ≡ a.run_id
    activation_id : i.activation_id ≡ a.id
    epoch : i.epoch ≡ a.epoch
    ordinal_kept : i.ordinal ≡ ordinal
    grant_kept : i.grant ≡ grant
    valid : validate_intent hash i ≡ ok tt
    owner : validate_activation a ≡ ok tt
    named : new_operation_id hash a effect ordinal ≡ ok i.id

  new_effect_intent-Made :
      (a : Activation) (ordinal : ℕ) (grant : Grant) (input : Text) (i : EffectIntent)
      → new_effect_intent hash a ordinal grant input ≡ ok i
      → Made a ordinal grant i
  unfolding new_effect_intent validate_intent digest_bytes
  new_effect_intent-Made a ordinal grant input i h = ground (
    arith,
    not_empty _ (hash-ne-nil (codes "dev-plane/effect-input/v1" ++ 0 ∷ input)),
    text_eq_refl i.id,
  )

  validate_intent-named :
      (j : EffectIntent) → validate_intent hash j ≡ ok tt → is_empty j.id ≡ false
  unfolding validate_intent new_operation_id
  validate_intent-named j v = ground (
    arith,
    text_eq_iff j.id (codes "dp1_" ++ hash (operation_payload (activation_of j) effect j.ordinal)),
  )

  authorize_against-cases :
      (i : EffectIntent) (c : Activation)
      → validate_intent hash i ≡ ok tt
      → validate_activation c ≡ ok tt
      → ((authorize_against hash i c ≡ ok tt)
          × (i.run_id ≡ c.run_id)
          × (i.activation_id ≡ c.id)
          × (i.epoch ≡ c.epoch))
        ⊎ ((authorize_against hash i c ≡ err stale_epoch)
            × (i.run_id ≡ c.run_id)
            × (i.activation_id ≡ c.id)
            × (i.epoch ≢ c.epoch))
        ⊎ ((authorize_against hash i c ≡ err activation_mismatch)
            × ((i.run_id ≢ c.run_id) ⊎ (i.activation_id ≢ c.id)))
  unfolding authorize_against
  authorize_against-cases i c v w =
      ground (arith, text_eq_iff i.run_id c.run_id, text_eq_iff i.activation_id c.id)

  -- An intent made under the activation `a` is accepted against a valid activation exactly when that
  -- is `a` itself: its run, its id and its epoch.
  pub authorize_against_iff :
      (a c : Activation) (ordinal : ℕ) (grant : Grant) (input : Text) (i : EffectIntent)
      → new_effect_intent hash a ordinal grant input ≡ ok i
      → validate_activation c ≡ ok tt
      → (authorize_against hash i c ≡ ok tt) ↔ (a ≡ c)
  authorize_against_iff a c ordinal grant input i h w =
      let k = new_effect_intent-Made a ordinal grant input i h in
      elim (authorize_against-cases i c k.valid w) [
        | inl (e, r, d, p) ↦ (λ _. ground (arith, k.run_id, k.activation_id, k.epoch), λ _. e)
        | inr (inl (e, r, d, p)) ↦ (
          λ q. ok_not_err (sym q ∙ e),
          λ q. absurd (p (k.epoch ∙ ap (λ (x : Activation). x.epoch) q)),
        )
        | inr (inr (e, p)) ↦ (
          λ q. ok_not_err (sym q ∙ e),
          λ q. absurd (
              ground (
                arith,
                k.run_id,
                k.activation_id,
                ap (λ (x : Activation). x.run_id) q,
                ap (λ (x : Activation). x.id) q,
              )),
        )
      ]

  -- When the epoch of an activation is advanced, an intent made before is refused as stale, and the
  -- operations keep their identities.
  pub advance_epoch-fences :
      (a b : Activation) (ordinal : ℕ) (grant : Grant) (input : Text) (i : EffectIntent)
      → advance_epoch a ≡ ok b
      → a.epoch ≤ max_uint64
      → new_effect_intent hash a ordinal grant input ≡ ok i
      → (authorize_against hash i b ≡ err stale_epoch)
        × (new_operation_id hash b effect ordinal ≡ ok i.id)
  unfolding advance_epoch
  advance_epoch-fences a b ordinal grant input i h l n =
      let k = new_effect_intent-Made a ordinal grant input i n in
      let (same, w, named) = advance_epoch-next hash a b h l in
      let later : i.epoch ≢ b.epoch =
        λ q. next_differs a.epoch (sym k.epoch ∙ q ∙ ap (λ (x : Activation). x.epoch) same) in
      (
        elim (authorize_against-cases i b k.valid w) [
          | inl (e, r, d, p) ↦ absurd (later p)
          | inr (inl (e, r, d, p)) ↦ e
          | inr (inr (e, p)) ↦ absurd (
              ground (
                arith,
                k.run_id,
                k.activation_id,
                ap (λ (x : Activation). x.run_id) same,
                ap (λ (x : Activation). x.id) same,
              ))
        ],
        named ordinal ∙ k.named,
      )

  -- What is recorded for an intent is replayed for it: without a receipt the effect is executed, with
  -- a receipt its result is replayed exactly if the receipt was made for an intent of that identity,
  -- and it is refused as a mismatch exactly if not.
  recover_effect-replays :
      (i j : EffectIntent) (provider reference output : Text) (r : EffectReceipt)
      → validate_intent hash i ≡ ok tt
      → new_effect_receipt hash j provider reference output ≡ ok r
      → (recover_effect hash i none ≡ ok execute)
        × ((recover_effect hash i (some r) ≡ ok replay_recorded_result) ↔ (j.id ≡ i.id))
        × ((recover_effect hash i (some r) ≡ err receipt_mismatch) ↔ (j.id ≢ i.id))
  unfolding recover_effect new_effect_receipt validate_receipt digest_bytes
  recover_effect-replays i j provider reference output r v n = ground (
    arith,
    text_eq_iff j.id i.id,
    not_empty _ (hash-ne-nil (codes "dev-plane/effect-output/v1" ++ 0 ∷ output)),
    validate_intent-named j,
  )

  -- Two valid intents merge, into the first, exactly if they are equal, and are refused as a conflict
  -- exactly if not.
  merge_intent_iff :
      (i j : EffectIntent)
      → validate_intent hash i ≡ ok tt
      → validate_intent hash j ≡ ok tt
      → ((merge_intent hash i j ≡ ok i) ↔ (i ≡ j))
        × ((merge_intent hash i j ≡ err intent_conflict) ↔ (i ≢ j))
  unfolding merge_intent
  merge_intent_iff i j v w = ground (arith, intent_eq_iff i j)
