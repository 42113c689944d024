-- ===== src/AgentRuntime/Registry.antt =====
-- packages/agent-runtime/registry.go: providers behind normalized names.
use dev_plane.Prelude.{
  ℕ, Bool, true, false, ◌&&◌, not, Option, none, some, List, [], ◌∷◌, map, Result, ok, err, ◌>>◌,
  fail_if, is_empty, if◌then◌else◌,
}
use dev_plane.Text.{Text, text_eq, trim_space}
use dev_plane.AgentRuntime.Capabilities.{
  Capability, CapabilitySet, supports, resume_thread, interrupt_turn, steer_turn, rollback, compact,
  approval_requests, questions,
}
use dev_plane.AgentRuntime.Protocol.{
  Thread, CreateThreadRequest, ResumeThreadRequest, RunTurnRequest, ApprovalResponse, Event,
}

-- A provider with the optional interfaces that it implements. What a call returns may depend on the
-- number of the calls and clock readings before it, so that any sequence of replies is one. A nil
-- thread is `none`. A provider's stream is the list of its events; of an interface that nothing here
-- calls, only whether it is implemented is kept.
pub record Provider : Type 0 where
  pub name : Text
  pub capabilities : CapabilitySet
  pub create_thread : ℕ → CreateThreadRequest → Result Text (Option Thread)
  pub run_turn : ℕ → RunTurnRequest → Result Text (List Event)
  pub resume : Option (ℕ → ResumeThreadRequest → Result Text (Option Thread))
  pub respond_approval : Option (ℕ → ApprovalResponse → Option Text)
  pub interrupts : Bool
  pub steers : Bool
  pub rolls_back : Bool
  pub compacts : Bool
  pub answers : Bool

abbrev pub is_some : {A : Type 0} → Option A → Bool
is_some none = false
is_some (some a) = true

pub data RegistryError : Type 0 where
  nil_provider provider_unnamed : RegistryError
  provider_not_found already_registered : Text → RegistryError
  capability_contract : Text → Capability → RegistryError

-- the map of the registry, by normalized name
abbrev pub Registry : Type 0
Registry = List (Text × Provider)

abbrev pub new_registry : Registry
new_registry = []

unfoldable pub find_provider : Text → Registry → Option Provider
find_provider name [] = none
find_provider name ((key, p) ∷ rest) = if text_eq name key then some p else find_provider name rest

-- the table of `validateCapabilityContract`
unfoldable pub contract_checks : Provider → List (Capability × Bool)
contract_checks p =
    (resume_thread, is_some p.resume)
    ∷ (interrupt_turn, p.interrupts)
    ∷ (steer_turn, p.steers)
    ∷ (rollback, p.rolls_back)
    ∷ (compact, p.compacts)
    ∷ (approval_requests, is_some p.respond_approval)
    ∷ (questions, p.answers)
    ∷ []

unfoldable pub check_contracts :
    Text → CapabilitySet → List (Capability × Bool) → Result RegistryError (Unit {0})
unfolding supports
check_contracts name capabilities [] = ok tt
check_contracts name capabilities ((c, supported) ∷ checks) =
    fail_if (supports capabilities c && not supported) (capability_contract name c)
    >> check_contracts name capabilities checks

-- `strings.ToLower` is a parameter.
module _ (to_lower : Text → Text) where
  unfoldable pub normalize_provider_name : Text → Text
  normalize_provider_name name = to_lower (trim_space name)

  unfoldable pub validate_capability_contract : Provider → Result RegistryError (Unit {0})
  unfolding normalize_provider_name check_contracts contract_checks
  validate_capability_contract p =
      check_contracts (normalize_provider_name p.name) p.capabilities (contract_checks p)

  -- `Register`, with the registry that it leaves
  unfoldable pub register_provider : Option Provider → Registry → Result RegistryError Registry
  unfolding normalize_provider_name validate_capability_contract find_provider
  register_provider none r = err nil_provider
  register_provider (some p) r =
      let name = normalize_provider_name p.name in
      fail_if (is_empty name) provider_unnamed
      >> (validate_capability_contract p
          >> (fail_if (is_some (find_provider name r)) (already_registered name)
              >> ok ((name, p) ∷ r)))

  -- `Get`, also on a nil registry
  unfoldable pub get_provider : Option Registry → Text → Result RegistryError Provider
  unfolding normalize_provider_name find_provider
  get_provider none name = err (provider_not_found (normalize_provider_name name))
  get_provider (some r) name = elim (find_provider (normalize_provider_name name) r) [
    | some p ↦ ok p
    | none ↦ err (provider_not_found (normalize_provider_name name))
  ]

-- `Names`, with the sort as a parameter
unfoldable pub provider_names : (List Text → List Text) → Option Registry → List Text
provider_names sort none = []
provider_names sort (some r) = sort (map (λ e. e.0) r)
