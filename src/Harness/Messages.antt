-- ===== src/Harness/Messages.antt =====
-- The other messages of internal/harness/protocol.go: capabilities, health, event frames and tool
-- calls. The `data` of a payload is the text of its JSON object.
use agent_runtime_foundry.Base.Map.{Map}
use agent_runtime_foundry.Harness.Types.{ℤ, ErrorInfo, PolicyRef}
use agent_runtime_foundry.Base.{String, Bool, Option, List}

pub record CapabilitiesResponse : Type 0 where
  pub version : String
  pub protocol_version : String
  pub transport : String
  pub runtime_name : String
  pub runtime_version : String
  pub provider_kind : String
  pub tool_execution_modes : List String
  pub brokered_tool_classes : List String
  pub supports_cancel : Bool
  pub supports_runtime_sessions : Bool
  pub supports_continuation : Bool
  pub supports_artifacts : Bool
  pub supports_suspend : Bool
  pub supports_workspace_snapshot : Bool
  pub max_concurrent_turns : ℤ
  pub max_turn_seconds : ℤ
  pub max_output_bytes : ℤ
  pub metadata : Map String String

pub record HealthResponse : Type 0 where
  pub version : String
  pub status : String
  pub ready : Bool
  pub runtime_session_id : String
  pub message : String
  pub checked_at : ℤ
  pub metadata : Map String String

pub record ArtifactRef : Type 0 where
  pub filename : String
  pub content_type : String
  pub size : ℤ
  pub description : String

pub record TurnCompleted : Type 0 where
  pub result : String
  pub data_text : String
  pub artifacts : List ArtifactRef
  pub output_ref : String
  pub final_event_seq : ℤ
  pub retain_session : Bool

pub record TurnFailed : Type 0 where
  pub reason : String
  pub message : String
  pub result : String
  pub data_text : String
  pub artifacts : List ArtifactRef
  pub output_ref : String
  pub retryable : Bool

pub record HarnessEventFrame : Type 0 where
  pub version : String
  pub frame_type : String
  pub runtime_session_id : String
  pub turn_id : String
  pub correlation_id : String
  pub seq : ℤ
  pub created_at : ℤ
  pub severity : String
  pub summary : String
  pub content : String
  pub content_text : String
  pub tool_name : String
  pub tool_call_id : String
  pub approval_id : String
  pub completed : Option TurnCompleted
  pub failed : Option TurnFailed
  pub error : Option ErrorInfo
  pub metadata : Map String String

pub record ToolCallRequest : Type 0 where
  pub version : String
  pub runtime_session_id : String
  pub turn_id : String
  pub tool_call_id : String
  pub tool_name : String
  pub idempotency_key : String
  pub input : String
  pub requires_approval : Bool
  pub approval_policy_ref : Option PolicyRef
  pub metadata : Map String String
