-- ===== src/AgentRuntime/Capabilities.antt =====
-- packages/agent-runtime/protocol.go: the capabilities of providers.
use dev_plane.Prelude.{ℕ, ◌-◌, Bool, false, ◌||◌, ◌&&◌, List, [], ◌∷◌, leb, ◌==◌, if◌then◌else◌}
use dev_plane.Text.{Text, codes}

-- a capability is a number; the constants count from 1
abbrev pub Capability : Type 0
Capability = ℕ

abbrev pub resume_thread : Capability
resume_thread = 1

abbrev pub interrupt_turn : Capability
interrupt_turn = 2

abbrev pub steer_turn : Capability
steer_turn = 3

abbrev pub promptless_continuation : Capability
promptless_continuation = 4

abbrev pub model_switch : Capability
model_switch = 5

abbrev pub rollback : Capability
rollback = 6

abbrev pub compact : Capability
compact = 7

abbrev pub approval_requests : Capability
approval_requests = 8

abbrev pub questions : Capability
questions = 9

abbrev pub structured_output : Capability
structured_output = 10

-- `String` of a capability
unfoldable pub capability_text : Capability → Text
capability_text c =
    if c == resume_thread
    then codes "resume_thread"
    else if c == interrupt_turn
    then codes "interrupt_turn"
    else if c == steer_turn
    then codes "steer_turn"
    else if c == promptless_continuation
    then codes "promptless_continuation"
    else if c == model_switch
    then codes "model_switch"
    else if c == rollback
    then codes "rollback"
    else if c == compact
    then codes "compact"
    else if c == approval_requests
    then codes "approval_requests"
    else if c == questions
    then codes "questions"
    else if c == structured_output
    then codes "structured_output"
    else codes "unknown"

-- `uint64`, as its bits by position
abbrev pub CapabilitySet : Type 0
CapabilitySet = ℕ → Bool

-- 0, and not above 64
abbrev pub in_set : Capability → Bool
in_set c = leb 1 c && leb c 64

-- `set |= 1 << bit`
abbrev pub set_bit : CapabilitySet → ℕ → CapabilitySet
set_bit set bit k = set k || k == bit

unfoldable pub add_capabilities : CapabilitySet → List Capability → CapabilitySet
add_capabilities set [] = set
add_capabilities set (c ∷ cs) = add_capabilities (if in_set c then set_bit set (c - 1) else set) cs

unfoldable pub new_capability_set : List Capability → CapabilitySet
unfolding add_capabilities
new_capability_set cs = add_capabilities (λ k. false) cs

unfoldable pub supports : CapabilitySet → Capability → Bool
supports set c = in_set c && set (c - 1)

abbrev pub all_capabilities : List Capability
all_capabilities =
    resume_thread ∷ interrupt_turn ∷ steer_turn ∷ promptless_continuation ∷ model_switch ∷ rollback
    ∷ compact ∷ approval_requests ∷ questions ∷ structured_output ∷ []

-- the loop of `List`
unfoldable pub supported : CapabilitySet → List Capability → List Capability
unfolding supports
supported set [] = []
supported set (c ∷ cs) = let rest = supported set cs in if supports set c then c ∷ rest else rest

unfoldable pub list_capabilities : CapabilitySet → List Capability
unfolding supported
list_capabilities set = supported set all_capabilities
