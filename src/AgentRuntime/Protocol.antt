-- ===== src/AgentRuntime/Protocol.antt =====
-- packages/agent-runtime/protocol.go: capabilities, threads, turns, items and their statuses.
use dev_plane.Prelude.{Bool, true, false, ◌&&◌, not, Option, Result, ◌>>◌, fail_if, is_empty}
use dev_plane.Prelude.Int.{ℤ}
use dev_plane.Text.{Text, trim_space}

-- The strings with named values; `other` is any other string, the empty one included.
pub data ThreadStatus : Type 0 where
  active archived error : ThreadStatus
  other : Text → ThreadStatus

pub data TurnStatus : Type 0 where
  queued running paused_approval paused_input interrupted recovering : TurnStatus
  completed failed : TurnStatus
  other : Text → TurnStatus

pub data ItemType : Type 0 where
  message tool_call command file_change approval question artifact error : ItemType
  other : Text → ItemType

pub data ItemStatus : Type 0 where
  pending running completed failed cancelled : ItemStatus
  other : Text → ItemStatus

-- Raw JSON is a text. A time is in nanoseconds since Go's zero time.
pub record Thread : Type 0 where
  pub id : Text
  pub workspace_id : Text
  pub provider : Text
  pub provider_thread_id : Text
  pub model : Text
  pub status : ThreadStatus
  pub metadata : Text
  pub created_at : ℤ
  pub updated_at : ℤ

pub record Turn : Type 0 where
  pub id : Text
  pub thread_id : Text
  pub provider_turn_id : Text
  pub status : TurnStatus
  pub metadata : Text
  pub started_at : Option ℤ
  pub completed_at : Option ℤ
  pub created_at : ℤ
  pub updated_at : ℤ

pub record Item : Type 0 where
  pub id : Text
  pub thread_id : Text
  pub turn_id : Text
  pub provider_item_id : Text
  pub kind : ItemType
  pub status : ItemStatus
  pub role : Text
  pub name : Text
  pub payload : Text
  pub created_at : ℤ
  pub updated_at : ℤ

pub data InvalidError : Type 0 where
  no_id no_workspace no_provider no_thread no_turn no_input : InvalidError
  thread_status : ThreadStatus → InvalidError
  turn_status : TurnStatus → InvalidError
  item_type : ItemType → InvalidError
  item_status : ItemStatus → InvalidError

abbrev pub blank : Text → Bool
blank t = is_empty (trim_space t)

abbrev pub valid_thread_status : ThreadStatus → Bool
valid_thread_status (ThreadStatus.other t) = false
valid_thread_status _ = true

abbrev pub valid_turn_status : TurnStatus → Bool
valid_turn_status (TurnStatus.other t) = false
valid_turn_status _ = true

abbrev pub valid_item_type : ItemType → Bool
valid_item_type (ItemType.other t) = false
valid_item_type _ = true

abbrev pub valid_item_status : ItemStatus → Bool
valid_item_status (ItemStatus.other t) = false
valid_item_status _ = true

unfoldable pub validate_thread : Thread → Result InvalidError (Unit {0})
validate_thread t =
    fail_if (blank t.id) no_id
    >> (fail_if (blank t.workspace_id) no_workspace
        >> (fail_if (blank t.provider) no_provider
            >> fail_if (not (valid_thread_status t.status)) (thread_status t.status)))

unfoldable pub validate_turn : Turn → Result InvalidError (Unit {0})
validate_turn t =
    fail_if (blank t.id) no_id
    >> (fail_if (blank t.thread_id) no_thread
        >> fail_if (not (valid_turn_status t.status)) (turn_status t.status))

unfoldable pub validate_agent_item : Item → Result InvalidError (Unit {0})
validate_agent_item i =
    fail_if (blank i.id) no_id
    >> (fail_if (blank i.thread_id) no_thread
        >> (fail_if (blank i.turn_id) no_turn
            >> (fail_if (not (valid_item_type i.kind)) (item_type i.kind)
                >> fail_if (not (valid_item_status i.status)) (item_status i.status))))

pub record TurnInput : Type 0 where
  pub text : Text
  pub data_ : Text

unfoldable pub validate_input : TurnInput → Result InvalidError (Unit {0})
validate_input i = fail_if (blank i.text && is_empty i.data_) no_input

pub record CreateThreadRequest : Type 0 where
  pub workspace_id : Text
  pub model : Text
  pub instructions : Text
  pub metadata : Text

unfoldable pub validate_create : CreateThreadRequest → Result InvalidError (Unit {0})
validate_create r = fail_if (blank r.workspace_id) no_workspace

pub record RunTurnRequest : Type 0 where
  pub thread_id : Text
  pub provider_thread_id : Text
  pub input : TurnInput
  pub model : Text
  pub output_schema : Text
  pub metadata : Text

unfoldable pub validate_run : RunTurnRequest → Result InvalidError (Unit {0})
unfolding validate_input
validate_run r = fail_if (blank r.thread_id) no_thread >> validate_input r.input

pub record ResumeThreadRequest : Type 0 where
  pub thread_id : Text
  pub provider_thread_id : Text
  pub workspace_id : Text
  pub model : Text

unfoldable pub validate_resume : ResumeThreadRequest → Result InvalidError (Unit {0})
validate_resume r =
    fail_if (blank r.thread_id) no_thread >> fail_if (blank r.workspace_id) no_workspace

pub data ApprovalDecision : Type 0 where
  approved denied : ApprovalDecision
  other : Text → ApprovalDecision

pub record ApprovalResponse : Type 0 where
  pub thread_id : Text
  pub turn_id : Text
  pub item_id : Text
  pub decision : ApprovalDecision
  pub note : Text

pub data EventType : Type 0 where
  thread_created turn_started turn_status item_started item_completed item_failed : EventType
  turn_completed turn_failed : EventType
  other : Text → EventType

pub record Event : Type 0 where
  pub sequence : ℤ
  pub kind : EventType
  pub thread_id : Text
  pub turn_id : Text
  pub provider_turn_id : Text
  pub status : TurnStatus
  pub item : Option Item
  pub error : Text
  pub occurred_at : ℤ

-- `CanTransitionTurnStatus`, with the tests of `to` by the cases of `from`
unfoldable pub can_transition_turn_status : TurnStatus → TurnStatus → Bool
can_transition_turn_status TurnStatus.queued to = elim to [
  | running ↦ true
  | failed ↦ true
  | _ ↦ false
]
can_transition_turn_status TurnStatus.running to = elim to [
  | paused_approval ↦ true
  | paused_input ↦ true
  | interrupted ↦ true
  | recovering ↦ true
  | completed ↦ true
  | failed ↦ true
  | _ ↦ false
]
can_transition_turn_status TurnStatus.paused_approval to = elim to [
  | running ↦ true
  | interrupted ↦ true
  | failed ↦ true
  | _ ↦ false
]
can_transition_turn_status TurnStatus.paused_input to = elim to [
  | running ↦ true
  | interrupted ↦ true
  | failed ↦ true
  | _ ↦ false
]
can_transition_turn_status TurnStatus.interrupted to = elim to [
  | recovering ↦ true
  | failed ↦ true
  | _ ↦ false
]
can_transition_turn_status TurnStatus.recovering to = elim to [
  | running ↦ true
  | paused_approval ↦ true
  | paused_input ↦ true
  | completed ↦ true
  | failed ↦ true
  | _ ↦ false
]
can_transition_turn_status _ to = false

abbrev pub terminal_turn_status : TurnStatus → Bool
terminal_turn_status TurnStatus.completed = true
terminal_turn_status TurnStatus.failed = true
terminal_turn_status TurnStatus.interrupted = true
terminal_turn_status _ = false
