-- ===== src/Capability/Decisions.antt =====
-- apps/api/internal/capability/kernel.go: the decisions of `Evaluate`.
use dev_plane.Prelude.{
  false, ◌||◌, ◌&&◌, ◌≡◌, ◌≢◌, ◌⊎◌, ◌↔◌, refl, ◌∙◌, ap, inl, inr, Option, none, some, [], ◌∷◌, ok,
  arith, Bool-cases, Option-cases, if◌then◌else◌,
}
use dev_plane.Prelude.Float.{Float}
use dev_plane.Text.{Text, codes, text_eq}
use dev_plane.Execution.{Grant, validate_grant}
use dev_plane.Policies.{Effect, allow, ask, deny, Value, evaluate}
use dev_plane.Capability.Defs.{
  Request, Decision, is_deny, is_high_risk_operation, audit_entry, authority_reason, budget_reason,
}
use dev_plane.Capability.Kernel.{
  Kernel, KernelError, Outcome, Minted, minted, no_grant, invalid_grant, is_ask, is_admin_effect,
  policy_request, lacks_rbac, rbac_denial, sandboxed, mint, final_decision, denial, conclude,
  over_budget, evaluate_request, capability_unknown,
}

Minted-cases :
    (m : Minted) → (m ≡ no_grant) ⊎ ((m ≡ invalid_grant) ⊎ ((g : Grant) × (m ≡ minted g)))
Minted-cases no_grant = inl refl
Minted-cases invalid_grant = inr (inl refl)
Minted-cases (minted g) = inr (inr (g, refl))

module _ {F : Type 0} where
  -- the operation, the resource and the revision of a request
  abbrev pub authority : Request F → Grant
  authority req = record {
    operation = req.operation;
    resource = req.resource;
    revision = req.revision;
  }

  -- What holds of every outcome of the kernel for a request.
  pub record IsSound (k : Kernel F) (req : Request F) (o : Outcome F) : Type 0 where
    -- approval is required exactly for `ask` and `admin_only`
    pub approval :
        o.decision.required_approval
        ≡ (is_ask o.decision.effect || is_admin_effect o.decision.effect)
    -- a grant is for the requested authority, well-formed, and never comes with a denial
    pub bound :
        (o.decision.requested_grant ≡ none)
        ⊎ ((o.decision.requested_grant ≡ some (authority req))
            × (is_deny o.decision.effect ≡ false)
            × (validate_grant (authority req) ≡ ok tt))
    -- an error comes with a denial
    pub closed : (o.error ≡ none) ⊎ (o.decision.effect ≡ deny)
    -- the decision is written to the audit log, once, as it is returned
    pub audited : o.audit ≡ (if k.has_audit_logger then audit_entry req o.decision ∷ [] else [])

  denial-IsSound :
      (k : Kernel F) (req : Request F) (d : Decision F) (e : Option KernelError)
      → d.effect ≡ deny
      → d.required_approval ≡ false
      → d.requested_grant ≡ none
      → IsSound k req (record {
        decision = d;
        error = e;
        audit = if k.has_audit_logger then audit_entry req d ∷ [] else [];
      })
  denial-IsSound k req d e p q r = record {
    approval = ground arith;
    bound = inl r;
    closed = inr p;
    audited = refl;
  }

  mint-minted :
      (req : Request F) (e : Effect) (g : Grant)
      → mint req e ≡ minted g
      → (is_deny e ≡ false)
        × (g ≡ record {
          operation = req.operation;
          resource = req.resource;
          revision = req.revision;
        })
        × (validate_grant g ≡ ok tt)
  unfolding mint
  mint-minted req e g h = ground arith

  final-IsSound :
      (k : Kernel F) (req : Request F) (e : Effect) (mg : Option Grant)
      → ((mg ≡ none) ⊎ ((g : Grant) × (mg ≡ some g) × (mint req e ≡ minted g)))
      → IsSound k req (record {
        decision = final_decision req e mg;
        error = none;
        audit = if k.has_audit_logger then audit_entry req (final_decision req e mg) ∷ [] else [];
      })
  unfolding final_decision
  final-IsSound k req e mg made = record {
    approval = refl;
    bound = elim made [
      | inl p ↦ inl p
      | inr (g, p, q) ↦ let m = mint-minted req e g q in inr (p ∙ ap some m.1, m.0, rw m.1 at m.2)
    ];
    closed = inl refl;
    audited = refl;
  }

  conclude-IsSound :
      (k : Kernel F) (req : Request F) (e : Effect) → IsSound k req (conclude k req e)
  unfolding conclude denial
  conclude-IsSound k req e =
      let e' = sandboxed req e in
      elim (Minted-cases (mint req e')) [
        | inl p ↦ rw (p, conclude) (final-IsSound k req e' none (inl refl))
        | inr (inl p) ↦
            rw (p, conclude)
              (denial-IsSound k req (denial authority_reason) (some capability_unknown) refl refl
                refl)
        | inr (inr (g, p)) ↦ rw (p, conclude) (final-IsSound k req e' (some g) (inr (g, refl, p)))
      ]

  rbac_denial-IsDenial :
      (req : Request F)
      → (rbac_denial req).effect ≡ deny
        × (rbac_denial req).required_approval ≡ false
        × (rbac_denial req).requested_grant ≡ none
  unfolding rbac_denial denial
  rbac_denial-IsDenial req = elim (Option-cases req.user) [
    | inl p ↦ rw p (refl, refl, refl)
    | inr (u, p) ↦ rw p (refl, refl, refl)
  ]

module _ {F : Type 0} where
  conclude-allows :
      (k : Kernel F) (req : Request F) (e : Effect)
      → ((conclude k req e).decision.effect ≡ allow) ↔ (
          (e ≡ allow)
          × ((text_eq req.sandbox_state (codes "isolated") && is_high_risk_operation req.operation)
              ≡ false)
          × (mint req allow ≢ invalid_grant))
  unfolding conclude denial sandboxed final_decision
  conclude-allows k req e = ground arith

module _ {F : Type 0} ⦃fl : Float F⦄ (sprint : Value F → Text) where
  -- Whatever a request is refused or passed for, the outcome of `Evaluate` is sound: approval is
  -- required exactly for `ask` and `admin_only`, a grant is well-formed, is the authority that was
  -- asked for and never comes with a denial, an error comes with a denial, and the audit log, if
  -- there is one, gets the returned decision, once.
  pub evaluate_request-IsSound :
      (k : Kernel F) (req : Request F) → IsSound k req (evaluate_request sprint k req)
  unfolding evaluate_request denial
  evaluate_request-IsSound k req = elim (Bool-cases (lacks_rbac req)) [
    | inl p ↦
        let d = rbac_denial-IsDenial req in
        rw p (denial-IsSound k req (rbac_denial req) none d.0 d.1 d.2)
    | inr p ↦ elim (Option-cases (over_budget k req)) [
      | inr (r, q) ↦
          rw (p, q) (denial-IsSound k req (denial (budget_reason r.reason)) none refl refl refl)
      | inl q ↦
          rw (p, q) (conclude-IsSound k req (evaluate sprint k.policies (policy_request req) ask))
    ]
  ]

  -- An operation is allowed exactly if its user does not lack the permission, its budget is not
  -- exceeded, the most restrictive policy says `allow`, it is no high-risk operation in an isolated
  -- sandbox, and its authority can be granted or names no operation or no resource.
  pub evaluate_request-allows :
      (k : Kernel F) (req : Request F)
      → ((evaluate_request sprint k req).decision.effect ≡ allow) ↔ (
          (lacks_rbac req ≡ false)
          × (over_budget k req ≡ none)
          × (evaluate sprint k.policies (policy_request req) ask ≡ allow)
          × ((text_eq req.sandbox_state (codes "isolated") && is_high_risk_operation req.operation)
              ≡ false)
          × (mint req allow ≢ invalid_grant))
  unfolding evaluate_request denial
  evaluate_request-allows k req =
      let e = evaluate sprint k.policies (policy_request req) ask in
      elim (Bool-cases (lacks_rbac req)) [
        | inl p ↦
            let d = (rbac_denial-IsDenial req).0 in rw p ((λ h. ground arith), (λ h. ground arith))
        | inr p ↦ elim (Option-cases (over_budget k req)) [
          | inr (r, q) ↦ rw (p, q) ((λ h. ground arith), (λ h. ground arith))
          | inl q ↦
              rw (p, q)
                (
                  (λ h. let c = (conclude-allows k req e).0 h in (refl, refl, c.0, c.1, c.2)),
                  (λ h. (conclude-allows k req e).1 (h.2, h.3, h.4)),
                )
        ]
      ]
