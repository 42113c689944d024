-- ===== src/AgentRuntime/Examples.antt =====
-- packages/agent-runtime: tests, a store in memory, and the theorems at concrete inputs.
use dev_plane.Prelude.{
  Bool, false, ◌&&◌, ◌≡◌, refl, sym, ◌∙◌, ap, ◌⊎◌, inl, inr, Option, none, some, List, [], ◌∷◌, map,
  Result, ok, err, any, arith, Bool-cases, Option-cases, if◌then◌else◌, ◌==◌, length, leb, ◌+◌,
  ok-injective,
}
use dev_plane.Prelude.Int.{pos}
use dev_plane.Text.{Text, codes, text_eq, text_eq_iff, mem_text, trim_space}
use dev_plane.AgentRuntime.Capabilities.{
  new_capability_set, add_capabilities, supports, supported, list_capabilities, approval_requests,
  compact,
}
use dev_plane.AgentRuntime.Protocol.{
  Thread, ThreadStatus, Turn, TurnStatus, Item, ItemType, ItemStatus, ApprovalDecision,
  ApprovalResponse, Event, EventType, can_transition_turn_status,
}
use dev_plane.AgentRuntime.Registry.{
  Provider, Registry, register_provider, get_provider, find_provider, normalize_provider_name,
  validate_capability_contract, check_contracts, contract_checks, capability_contract,
}
use dev_plane.AgentRuntime.World.{Store, StoreLaws, World, AgentError}
use dev_plane.AgentRuntime.Manager.{Manager, first_value, status_eq}
use dev_plane.AgentRuntime.Record.{
  record_run, record_event, persist_event, persist_kind, start_turn, record_item, record_status,
  advance_turn,
}
use dev_plane.AgentRuntime.Approval.{
  respond_approval, answer_item, dispatch, send, owns, check_response,
}
use dev_plane.AgentRuntime.Dispatch.{Waiting, respond_approval-guards}
use dev_plane.AgentRuntime.Once.{respond_approval-once}
use dev_plane.AgentRuntime.Lookup.{
  IsSound, is_declared, register_provider-get, list_capabilities-new_capability_set,
}
use dev_plane.AgentRuntime.Recorded.{Recorded}

-- maps in memory
record Maps : Type 0 where
  threads : Text → Option Thread
  turns : Text → Option Turn
  items : Text → Option Item

unfoldable put_at : {A : Type 0} → Text → A → (Text → Option A) → Text → Option A
put_at key a f k = if text_eq k key then some a else f k

-- a record is found under its own id only
unfoldable get_at : {A : Type 0} → (A → Text) → (Text → Option A) → Text → Result Text A
get_at id f key = elim (f key) [
  | none ↦ err (codes "not found")
  | some a ↦ if text_eq (id a) key then ok a else err (codes "not found")
]

abbrev memory : Store Maps
memory = record {
  get_thread = λ s k. get_at (λ (t : Thread). t.id) s.threads k;
  get_turn = λ s k. get_at (λ (t : Turn). t.id) s.turns k;
  get_item = λ s k. get_at (λ (i : Item). i.id) s.items k;
  put_thread = λ s t. (none, record s { threads = put_at t.id t s.threads });
  put_turn = λ s t. (none, record s { turns = put_at t.id t s.turns });
  put_item = λ s i. (none, record s { items = put_at i.id i s.items });
}

get_at-id :
    {A : Type 0} (id : A → Text) (f : Text → Option A) (key : Text) (a : A)
    → get_at id f key ≡ ok a
    → id a ≡ key
unfolding get_at
get_at-id id f key a h = elim (Option-cases (f key)) [
  | inl none_ ↦ absurd (ground (arith, rw (get_at, none_) at h))
  | inr (b, there) ↦ elim (Bool-cases (text_eq (id b) key)) [
    | inl same ↦
        ap id (sym (ok-injective (rw (get_at, there, same) at h))) ∙ (text_eq_iff (id b) key).0 same
    | inr other ↦ absurd (ground (arith, rw (get_at, there, other) at h))
  ]
]

put_at-get_at :
    {A : Type 0} (id : A → Text) (f : Text → Option A) (key : Text) (old new : A)
    → get_at id f key ≡ ok old
    → id new ≡ id old
    → get_at id (put_at (id new) new f) key ≡ ok new
unfolding get_at put_at
put_at-get_at id f key old new h e =
    let k = e ∙ get_at-id id f key old h in
    rw (get_at, put_at, (text_eq_iff key (id new)).1 (sym k), (text_eq_iff (id new) key).1 k) refl

abbrev memory_laws : StoreLaws memory
memory_laws = record {
  item_kept = λ s key old new h e n. put_at-get_at (λ (i : Item). i.id) s.items key old new h e;
  turn_kept = λ s key old new h e n. put_at-get_at (λ (t : Turn). t.id) s.turns key old new h e;
  item-turn = λ s i key. refl;
  item-thread = λ s i key. refl;
  turn-item = λ s t key. refl;
  turn-thread = λ s t key. refl;
}

abbrev thread : Thread
thread = record {
  id = codes "t";
  workspace_id = codes "w";
  provider = codes "Codex";
  provider_thread_id = [];
  model = [];
  status = ThreadStatus.active;
  metadata = [];
  created_at = pos 1;
  updated_at = pos 1;
}

abbrev turn : Turn
turn = record {
  id = codes "u";
  thread_id = codes "t";
  provider_turn_id = codes "u";
  status = TurnStatus.paused_approval;
  metadata = [];
  started_at = some (pos 2);
  completed_at = none;
  created_at = pos 2;
  updated_at = pos 2;
}

abbrev item : Item
item = record {
  id = codes "i";
  thread_id = codes "t";
  turn_id = codes "u";
  provider_item_id = [];
  kind = ItemType.approval;
  status = ItemStatus.pending;
  role = [];
  name = [];
  payload = [];
  created_at = pos 3;
  updated_at = pos 3;
}

abbrev codex : Provider
codex = record {
  name = codes "codex";
  capabilities = new_capability_set (approval_requests ∷ []);
  create_thread = λ n r. ok none;
  run_turn = λ n r. ok [];
  resume = none;
  respond_approval = some (λ n r. none);
  interrupts = false;
  steers = false;
  rolls_back = false;
  compacts = false;
  answers = false;
}

-- `strings.ToLower` on the letters of ASCII
abbrev to_lower : Text → Text
to_lower t = map (λ c. if leb 65 c && leb c 90 then c + 32 else c) t

abbrev manager : Manager Maps
manager = record {
  registry = (codes "codex", codex) ∷ [];
  store = memory;
  sink = none;
  clock = λ n. pos (10 + n);
  to_lower = to_lower;
}

abbrev world : World Maps
world = record {
  held = record {
    threads = put_at (codes "t") thread (λ k. none);
    turns = put_at (codes "u") turn (λ k. none);
    items = put_at (codes "i") item (λ k. none);
  };
  answered = [];
  ticks = 0;
}

abbrev answer : ApprovalResponse
answer = record {
  thread_id = codes "t";
  turn_id = codes "u";
  item_id = codes "i";
  decision = ApprovalDecision.approved;
  note = [];
}

program : Unit {0}
unfolding put_at get_at text_eq trim_space new_capability_set add_capabilities supports supported
    list_capabilities can_transition_turn_status register_provider get_provider find_provider
    normalize_provider_name validate_capability_contract check_contracts contract_checks first_value
    status_eq record_run record_event persist_event persist_kind start_turn record_item
    record_status advance_turn respond_approval answer_item dispatch send owns check_response any
    mem_text
program = tt

abbrev later : World Maps
later = (respond_approval (some manager) answer world).1

accepted : respond_approval (some manager) answer world ≡ (ok tt, later)
unfolding program
accepted = refl

sent : later.answered ≡ answer ∷ []
unfolding program
sent = refl

respond_approval-guards_example :
    (later.answered ≡ []) ⊎ (Waiting manager answer world × (later.answered ≡ answer ∷ []))
respond_approval-guards_example = respond_approval-guards Maps manager answer world

respond_approval-once_example :
    respond_approval
      (some manager)
      (record answer { decision = ApprovalDecision.denied; note = codes "no" })
      later
    ≡ (ok tt, later)
respond_approval-once_example =
    respond_approval-once Maps manager answer world later ApprovalDecision.denied (codes "no")
      memory_laws refl accepted

abbrev event : EventType → TurnStatus → Event
event kind status = record {
  sequence = pos 1;
  kind = kind;
  thread_id = [];
  turn_id = codes "v";
  provider_turn_id = [];
  status = status;
  item = none;
  error = [];
  occurred_at = pos 5;
}

abbrev inputs : List (Event × Bool)
inputs =
    (event EventType.turn_started TurnStatus.running, false)
    ∷ (event EventType.turn_completed TurnStatus.completed, false)
    ∷ (event EventType.item_started TurnStatus.running, false)
    ∷ []

passed_two : length (record_run manager thread inputs none world).0.0 ≡ 2
unfolding program
passed_two = refl

-- a turn that is completed and runs again: a status event is not held against the transitions
completed_is_final : can_transition_turn_status TurnStatus.completed TurnStatus.running ≡ false
unfolding program
completed_is_final = refl

abbrev finished : Turn
finished = record turn { id = codes "v"; status = TurnStatus.completed }

abbrev status_after : Result AgentError (Option Turn) → Option TurnStatus
status_after (ok (some t)) = some t.status
status_after _ = none

reopens :
    status_after
      (record_event manager thread
        (some finished)
        (event EventType.turn_status TurnStatus.running)
        world).0
    ≡ some TurnStatus.running
unfolding program
reopens = refl

list_capabilities-new_capability_set_example :
    any (λ d. compact == d) (list_capabilities (new_capability_set (compact ∷ [])))
    ≡ (any (λ d. compact == d) (compact ∷ []) && is_declared compact)
list_capabilities-new_capability_set_example =
    list_capabilities-new_capability_set (compact ∷ []) compact

abbrev registry : Registry
registry = (codes "codex", codex) ∷ []

register_provider-get_example :
    IsSound to_lower registry
    × (get_provider to_lower (some registry) (codes " CODEX ") ≡ (
        if text_eq
          (normalize_provider_name to_lower (codes " CODEX "))
          (normalize_provider_name to_lower (codes "codex"))
        then ok codex
        else get_provider to_lower (some []) (codes " CODEX ")))
unfolding program
register_provider-get_example =
    register_provider-get to_lower codex [] registry (codes " CODEX ") (tt, tt) refl

refuses_empty_promise :
    register_provider to_lower (some (record codex { respond_approval = none })) []
    ≡ err (capability_contract (codes "codex") approval_requests)
unfolding program
refuses_empty_promise = refl
