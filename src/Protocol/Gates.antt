-- ===== src/Protocol/Gates.antt =====
-- packages/repoprotocol/protocol.go: the gates that changed paths require.
use dev_plane.Prelude.{
  Bool, true, ◌||◌, ◌&&◌, not, ◌≡◌, refl, sym, ◌∙◌, List, [], ◌∷◌, ◌++◌, ok, arith, any, any-append,
  Bool-cases, inl, inr, >>=-eq-ok, Result, fail_if, and_true,
}
use dev_plane.Text.{
  Text, text_eq, mem_text, mem_text-append, text_eq_iff, Distinct, Distinct-append,
}
use dev_plane.Protocol.Paths.{path_matches}
use dev_plane.Protocol.Defs.{
  Config, RiskRule, Error, each, known_gate, unknown_gate, check_rule, validate_config,
  rule_matches, add_gates, gates_from, required_gates_for_paths,
}

add_gates-mem :
    (g : Text) (result gates : List Text)
    → mem_text g (add_gates result gates) ≡ (mem_text g result || mem_text g gates)
unfolding add_gates mem_text
add_gates-mem g result [] = ground arith
add_gates-mem g result (h ∷ gates) = elim (Bool-cases (mem_text h result)) [
  | inl old ↦ rw old (add_gates-mem g result gates ∙ ground (arith, text_eq_iff g h))
  | inr new ↦
      rw new (
        add_gates-mem g (result ++ h ∷ []) gates
        ∙ ground (arith, mem_text-append g result (h ∷ [])))
]

add_gates-Distinct :
    (result gates : List Text) → Distinct result → Distinct (add_gates result gates)
unfolding add_gates mem_text
add_gates-Distinct result [] d = d
add_gates-Distinct result (h ∷ gates) d = elim (Bool-cases (mem_text h result)) [
  | inl old ↦ rw old (add_gates-Distinct result gates d)
  | inr new ↦ rw new (
      add_gates-Distinct (result ++ h ∷ []) gates
        (Distinct-append result (h ∷ []) d (refl, tt) (new, tt)))
]

-- a rule that the changed paths match requires the gate
abbrev pub asks : Text → List Text → RiskRule → Bool
asks g changed rule = rule_matches rule changed && mem_text g rule.requires

gates_from-mem :
    (g : Text) (changed result : List Text) (rules : List RiskRule)
    → mem_text g (gates_from changed result rules)
      ≡ (mem_text g result || any (asks g changed) rules)
unfolding gates_from any
gates_from-mem g changed result [] = ground arith
gates_from-mem g changed result (rule ∷ rules) = elim (Bool-cases (rule_matches rule changed)) [
  | inl m ↦ rw m (
      gates_from-mem g changed (add_gates result rule.requires) rules
      ∙ ground (arith, add_gates-mem g result rule.requires))
  | inr m ↦ rw m (gates_from-mem g changed result rules)
]

gates_from-Distinct :
    (changed result : List Text) (rules : List RiskRule)
    → Distinct result
    → Distinct (gates_from changed result rules)
unfolding gates_from
gates_from-Distinct changed result [] d = d
gates_from-Distinct changed result (rule ∷ rules) d =
    elim (Bool-cases (rule_matches rule changed)) [
      | inl m ↦ rw m (
          gates_from-Distinct changed (add_gates result rule.requires) rules
            (add_gates-Distinct result rule.requires d))
      | inr m ↦ rw m (gates_from-Distinct changed result rules d)
    ]

-- The gates that changed paths require are, once each, those of the rules that the paths match.
pub required_gates_for_paths_lem :
    (c : Config) (changed : List Text) (g : Text)
    → Distinct (required_gates_for_paths c changed)
      × (mem_text g (required_gates_for_paths c changed) ≡ any (asks g changed) c.risk)
unfolding required_gates_for_paths any mem_text
required_gates_for_paths_lem c changed g =
    (gates_from-Distinct changed [] c.risk tt, gates_from-mem g changed [] c.risk)

any_mono :
    {A : Type 0} (p q : A → Bool)
    → ((x : A) → p x ≡ true → q x ≡ true)
    → (xs : List A) → any p xs ≡ true
    → any q xs ≡ true
unfolding any
any_mono p q le [] h = cc
any_mono p q le (x ∷ xs) h = ground (arith, le x, any_mono p q le xs)

rule_matches-append :
    (rule : RiskRule) (changed more : List Text)
    → rule_matches rule changed ≡ true
    → rule_matches rule (changed ++ more) ≡ true
unfolding rule_matches
rule_matches-append rule changed more h =
    any_mono (λ p. any (path_matches p) changed) (λ p. any (path_matches p) (changed ++ more))
      (λ p k. ground (arith, any-append (path_matches p) changed more)) rule.paths h

-- To change more paths never lifts a gate.
pub required_gates_for_paths_mono :
    (c : Config) (changed more : List Text) (g : Text)
    → mem_text g (required_gates_for_paths c changed) ≡ true
    → mem_text g (required_gates_for_paths c (changed ++ more)) ≡ true
required_gates_for_paths_mono c changed more g h =
    (required_gates_for_paths_lem c (changed ++ more) g).1
    ∙ any_mono (asks g changed) (asks g (changed ++ more))
        (λ rule k. ground (arith, rule_matches-append rule changed more)) c.risk
        (sym (required_gates_for_paths_lem c changed g).1 ∙ h)

each-mem :
    (check : Text → Result Error (Unit {0})) (g : Text) (gs : List Text)
    → each check gs ≡ ok tt
    → mem_text g gs ≡ true
    → check g ≡ ok tt
unfolding each mem_text
each-mem check g [] h m = cc
each-mem check g (x ∷ xs) h m =
    let (u, first, rest) = >>=-eq-ok (check x) (λ _. each check xs) h in
    elim (Bool-cases (text_eq g x)) [
      | inl e ↦ rw ((text_eq_iff g x).0 e) first
      | inr e ↦ each-mem check g xs rest (ground arith)
    ]

fail_if-known : (b : Bool) (e : Error) → fail_if (not b) e ≡ ok tt → b ≡ true
fail_if-known b e h = ground arith

rule-known :
    (c : Config) (rule : RiskRule) (g : Text)
    → check_rule c rule ≡ ok tt
    → mem_text g rule.requires ≡ true
    → known_gate c g ≡ true
unfolding check_rule
rule-known c rule g h m =
    let ask = λ (gate : Text). fail_if (not (known_gate c gate)) (unknown_gate gate) in
    let asked : each ask rule.requires ≡ ok tt = ground arith in
    fail_if-known (known_gate c g) (unknown_gate g) (each-mem ask g rule.requires asked m)

rules-known :
    (c : Config) (changed : List Text) (g : Text) (rules : List RiskRule)
    → each (check_rule c) rules ≡ ok tt
    → any (asks g changed) rules ≡ true
    → known_gate c g ≡ true
unfolding each any
rules-known c changed g [] h a = cc
rules-known c changed g (rule ∷ rules) h a =
    let (u, first, rest) = >>=-eq-ok (check_rule c rule) (λ _. each (check_rule c) rules) h in
    elim (Bool-cases (asks g changed rule)) [
      | inl e ↦ rule-known c rule g first (and_true _ _ e).1
      | inr e ↦ rules-known c changed g rules rest (ground arith)
    ]

config-rules : (c : Config) → validate_config c ≡ ok tt → each (check_rule c) c.risk ≡ ok tt
unfolding validate_config
config-rules c h = ground arith

-- In a valid configuration every gate that changed paths require is known: a review, an approval, or
-- a verification profile.
pub required_gates_for_paths-known :
    (c : Config) (changed : List Text) (g : Text)
    → validate_config c ≡ ok tt
    → mem_text g (required_gates_for_paths c changed) ≡ true
    → known_gate c g ≡ true
required_gates_for_paths-known c changed g valid m =
    rules-known c changed g c.risk (config-rules c valid)
      (sym (required_gates_for_paths_lem c changed g).1 ∙ m)
