-- ===== src/Harness/Types.antt =====
-- The messages of internal/harness/protocol.go that start, continue and cancel a turn. A
-- `json.RawMessage` is its text, a signed integer an `ℤ`, and a `time.Time` the number of nanoseconds
-- since the zero time. The string types (ToolExecutionMode, BrokeredToolClass, FrameType, HealthStatus)
-- are texts, as their constants are.
use agent_runtime_foundry.Base.Map.{Map}
use agent_runtime_foundry.Base.{ℕ, String, Bool, true, false, not, Option, List, nat_eq, ◌==◌}

pub data ℤ : Type 0 where
  pos : ℕ → ℤ
  negsuc : ℕ → ℤ

abbrev pub is_negative : ℤ → Bool
is_negative (pos n) = false
is_negative (negsuc n) = true

abbrev pub is_zero : ℤ → Bool
is_zero (pos n) = n == 0
is_zero (negsuc n) = false

abbrev pub is_positive : ℤ → Bool
is_positive (pos n) = not (n == 0)
is_positive (negsuc n) = false

-- The errors, by what their texts say.
pub data HarnessError : Type 0 where
  required : String → HarnessError
  unsupported : String → String → HarnessError
  negative : String → HarnessError
  mismatch : String → String → String → HarnessError
  failed : String → HarnessError
  at_index : String → ℕ → HarnessError → HarnessError

pub record AuthIdentity : Type 0 where
  pub subject : String
  pub issuer : String
  pub username : String
  pub groups : List String
  pub roles : List String

pub record PolicyRef : Type 0 where
  pub namespace : String
  pub name : String

pub record TurnEnvVar : Type 0 where
  pub name : String
  pub value : String

pub record ContextRef : Type 0 where
  pub kind : String
  pub name : String
  pub seq : ℤ

pub record ToolDefinition : Type 0 where
  pub name : String
  pub description : String
  pub brokered_class : String
  pub parameters : String

pub record TurnInput : Type 0 where
  pub prompt : String
  pub context_refs : List ContextRef
  pub env : List TurnEnvVar
  pub tools : List ToolDefinition

pub record StartTurnRequest : Type 0 where
  pub version : String
  pub namespace : String
  pub task_name : String
  pub session_name : String
  pub runtime_session_id : String
  pub turn_id : String
  pub correlation_id : String
  pub deadline : ℤ
  pub auth_identity : AuthIdentity
  pub tool_policy_ref : Option PolicyRef
  pub approval_policy_ref : Option PolicyRef
  pub event_cursor : ℤ
  pub input : TurnInput
  pub tool_execution_mode : String
  pub metadata : Map String String

pub record StartTurnResponse : Type 0 where
  pub version : String
  pub accepted : Bool
  pub runtime_session_id : String
  pub turn_id : String
  pub correlation_id : String
  pub event_stream_path : String

pub record CancelTurnRequest : Type 0 where
  pub version : String
  pub namespace : String
  pub task_name : String
  pub session_name : String
  pub runtime_session_id : String
  pub turn_id : String
  pub correlation_id : String
  pub reason : String

pub record ErrorInfo : Type 0 where
  pub code : String
  pub message : String
  pub retryable : Bool

pub record ToolCallResult : Type 0 where
  pub version : String
  pub runtime_session_id : String
  pub turn_id : String
  pub tool_call_id : String
  pub idempotency_key : String
  pub approved : Bool
  pub output : String
  pub error : Option ErrorInfo

pub record ContinueTurnRequest : Type 0 where
  pub version : String
  pub namespace : String
  pub task_name : String
  pub session_name : String
  pub runtime_session_id : String
  pub turn_id : String
  pub correlation_id : String
  pub tool_results : List ToolCallResult
  pub metadata : Map String String

pub record ContinueTurnResponse : Type 0 where
  pub version : String
  pub accepted : Bool
  pub runtime_session_id : String
  pub turn_id : String
  pub correlation_id : String
  pub message : String
