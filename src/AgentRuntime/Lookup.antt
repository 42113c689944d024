-- ===== src/AgentRuntime/Lookup.antt =====
-- packages/agent-runtime/registry.go and protocol.go: what is registered is found, and does what it says.
use dev_plane.Prelude.{
  ℕ, ◌-◌, Bool, true, false, ◌||◌, ◌&&◌, ◌≡◌, refl, sym, ◌∙◌, ap, inl, inr, some, List, [], ◌∷◌,
  map, ok, >>=-eq-ok, ok-injective, fail_if, fail_if-eq-ok, arith, Bool-cases, All, any, is_empty,
  ◌==◌, leb, if◌then◌else◌, ==_iff,
}
use dev_plane.Text.{Text, text_eq, mem_text, Distinct}
use dev_plane.AgentRuntime.Capabilities.{
  Capability, CapabilitySet, in_set, set_bit, add_capabilities, new_capability_set, supports,
  supported, list_capabilities, all_capabilities, resume_thread, structured_output,
}
use dev_plane.AgentRuntime.Registry.{
  Provider, Registry, find_provider, is_some, normalize_provider_name, validate_capability_contract,
  register_provider, get_provider, provider_unnamed, already_registered,
}

add_capabilities-bit :
    (set : CapabilitySet) (cs : List Capability) (k : ℕ)
    → add_capabilities set cs k ≡ (set k || any (λ c. in_set c && k == c - 1) cs)
unfolding add_capabilities any
add_capabilities-bit set [] k = ground arith
add_capabilities-bit set (c ∷ cs) k = elim (Bool-cases (in_set c)) [
  | inl fits ↦ rw fits (add_capabilities-bit (set_bit set (c - 1)) cs k ∙ ground arith)
  | inr out ↦ rw out (add_capabilities-bit set cs k ∙ ground arith)
]

any_same :
    (c : Capability) (cs : List Capability)
    → in_set c ≡ true
    → any (λ d. in_set d && c - 1 == d - 1) cs ≡ any (λ d. c == d) cs
unfolding any
any_same c [] h = refl
any_same c (d ∷ cs) h = ground (arith, any_same c cs h)

-- A set of capabilities supports exactly those that it was made of, unless they are 0 or above 64.
pub supports-new_capability_set :
    (cs : List Capability) (c : Capability)
    → supports (new_capability_set cs) c ≡ (in_set c && any (λ d. c == d) cs)
unfolding supports new_capability_set
supports-new_capability_set cs c =
    ground (arith, add_capabilities-bit (λ k. false) cs (c - 1), any_same c cs)

same_support :
    (set : CapabilitySet) (c d : Capability) → (c == d) ≡ true → supports set c ≡ supports set d
same_support set c d e = ap (supports set) ((==_iff c d).0 e)

supported-any :
    (set : CapabilitySet) (c : Capability) (cs : List Capability)
    → any (λ d. c == d) (supported set cs) ≡ (supports set c && any (λ d. c == d) cs)
unfolding supported any
supported-any set c [] = ground arith
supported-any set c (d ∷ cs) = elim (Bool-cases (supports set d)) [
  | inl has ↦ rw has (ground (arith, supported-any set c cs, same_support set c d, has))
  | inr lacks ↦ rw lacks (ground (arith, supported-any set c cs, same_support set c d, lacks))
]

-- one of the constants, from `resume_thread` to `structured_output`
abbrev pub is_declared : Capability → Bool
is_declared c = leb resume_thread c && leb c structured_output

all_capabilities-is_declared : (c : Capability) → any (λ d. c == d) all_capabilities ≡ is_declared c
unfolding any
all_capabilities-is_declared c = ground arith

-- `List` on a set that was made of capabilities has exactly those of them that are declared, which are
-- the numbers from that of `resume_thread` to that of `structured_output`.
pub list_capabilities-new_capability_set :
    (cs : List Capability) (c : Capability)
    → any (λ d. c == d) (list_capabilities (new_capability_set cs))
      ≡ (any (λ d. c == d) cs && is_declared c)
unfolding list_capabilities
list_capabilities-new_capability_set cs c =
    supported-any (new_capability_set cs) c all_capabilities
    ∙ ground (arith, supports-new_capability_set cs c, all_capabilities-is_declared c)

module _ (to_lower : Text → Text) where
  -- every entry is named after its provider, which fulfils its contract, and the names differ
  abbrev pub IsSound : Registry → Type 0
  IsSound r =
      All
        (λ (e : Text × Provider).
          (e.0 ≡ normalize_provider_name to_lower e.1.name)
          × (validate_capability_contract to_lower e.1 ≡ ok tt))
        r
      × Distinct (map (λ (e : Text × Provider). e.0) r)

  find-mem :
      (name : Text) (r : Registry)
      → is_some (find_provider name r) ≡ mem_text name (map (λ (e : Text × Provider). e.0) r)
  unfolding find_provider mem_text
  find-mem name [] = refl
  find-mem name ((k, p) ∷ r) = elim (Bool-cases (text_eq name k)) [
    | inl e ↦ rw e refl
    | inr e ↦ rw e (find-mem name r)
  ]

  found_after :
      (p : Provider) (r : Registry) (name : Text)
      → get_provider to_lower (some ((normalize_provider_name to_lower p.name, p) ∷ r)) name ≡ (
          if text_eq
            (normalize_provider_name to_lower name)
            (normalize_provider_name to_lower p.name)
          then ok p
          else get_provider to_lower (some r) name)
  unfolding get_provider find_provider
  found_after p r name =
      elim (Bool-cases (
        text_eq (normalize_provider_name to_lower name)
          (normalize_provider_name to_lower p.name))) [
            | inl e ↦ rw (get_provider, find_provider, e) refl
            | inr e ↦ rw (get_provider, find_provider, e) refl
          ]

  -- A provider that `Register` takes is found by `Get` under every name with its normal form, and all
  -- other names are found as before; the registry stays sound.
  pub register_provider-get :
      (p : Provider) (r r' : Registry) (name : Text)
      → IsSound r
      → register_provider to_lower (some p) r ≡ ok r'
      → IsSound r'
        × (get_provider to_lower (some r') name ≡ (
            if text_eq
              (normalize_provider_name to_lower name)
              (normalize_provider_name to_lower p.name)
            then ok p
            else get_provider to_lower (some r) name))
  unfolding register_provider get_provider find_provider
  register_provider-get p r r' name sound h =
      let key = normalize_provider_name to_lower p.name in
      let (u, named, h1) = >>=-eq-ok (fail_if (is_empty key) provider_unnamed) _ h in
      let (v, contract, h2) = >>=-eq-ok (validate_capability_contract to_lower p) _ h1 in
      let (x, fresh, h3) =
        >>=-eq-ok (fail_if (is_some (find_provider key r)) (already_registered key)) _ h2 in
      let made = ok-injective h3 in
      rw (← made) (
        (((refl, contract), sound.0), (sym (find-mem key r) ∙ fail_if-eq-ok _ _ fresh, sound.1)),
        found_after p r name,
      )
