-- ===== src/Harness/Tests.antt =====
-- Messages that the checks of internal/harness accept.
use agent_runtime_foundry.Base.Text.{append, trim_space, trim_left, trim_right, is_space}
use agent_runtime_foundry.Base.Map.{get, insert}
use agent_runtime_foundry.Harness.Types.{
  pos, StartTurnRequest, StartTurnResponse, ToolCallResult, ContinueTurnRequest,
}
use agent_runtime_foundry.Harness.Messages.{CapabilitiesResponse}
use agent_runtime_foundry.Harness.Checks.{
  blank, tool_request_idempotency_key, validate_version, contains_tool_execution_mode,
  is_known_tool_execution_mode, is_known_brokered_tool_class,
}
use agent_runtime_foundry.Harness.Validate.{
  validate_continue, validate_results, validate_continued, validate_tool_result,
  validate_accepted_turn,
}
use agent_runtime_foundry.Harness.ValidateMessages.{validate_capabilities}
use agent_runtime_foundry.Harness.Accepted.{ResultMatches, CallsDistinct, validate_continue-Matches}
use agent_runtime_foundry.Base.{
  String, ◌≡◌, refl, true, false, none, [], ◌∷◌, All, length, ◌==◌, nat_eq,
}

abbrev result : String → ToolCallResult
result call = record {
  version = "orka.harness.v1";
  runtime_session_id = "session";
  turn_id = "turn";
  tool_call_id = call;
  idempotency_key = tool_request_idempotency_key "session" "turn" call;
  approved = true;
  output = "42";
  error = none;
}

abbrev continuation : ContinueTurnRequest
continuation = record {
  version = "orka.harness.v1";
  namespace = "default";
  task_name = "task";
  session_name = "name";
  runtime_session_id = "session";
  turn_id = "turn";
  correlation_id = "correlation";
  tool_results = result "first" ∷ result "second" ∷ [];
  metadata = [];
}

continuation_valid : validate_continue continuation ≡ none
unfolding validate_continue validate_results validate_continued validate_tool_result blank
    tool_request_idempotency_key validate_version append trim_space trim_left trim_right is_space
    get insert
continuation_valid = refl

validate_continue-Matches_example :
    ((length continuation.tool_results == 0) ≡ false)
    × All (ResultMatches continuation) continuation.tool_results
    × CallsDistinct continuation.tool_results
validate_continue-Matches_example = validate_continue-Matches continuation continuation_valid

abbrev capabilities : CapabilitiesResponse
capabilities = record {
  version = "orka.harness.v1";
  protocol_version = "orka.harness.v1";
  transport = "http+sse";
  runtime_name = "foundry";
  runtime_version = "1";
  provider_kind = "remote";
  tool_execution_modes = "observed" ∷ "brokered" ∷ [];
  brokered_tool_classes = "read" ∷ [];
  supports_cancel = true;
  supports_runtime_sessions = true;
  supports_continuation = true;
  supports_artifacts = false;
  supports_suspend = false;
  supports_workspace_snapshot = false;
  max_concurrent_turns = pos 1;
  max_turn_seconds = pos 60;
  max_output_bytes = pos 1024;
  metadata = [];
}

capabilities_valid : validate_capabilities capabilities ≡ none
unfolding validate_capabilities blank validate_version trim_space trim_left trim_right is_space
    contains_tool_execution_mode is_known_tool_execution_mode is_known_brokered_tool_class
capabilities_valid = refl

abbrev turn_request : StartTurnRequest
turn_request = record {
  version = "orka.harness.v1";
  namespace = "default";
  task_name = "task";
  session_name = "name";
  runtime_session_id = "session";
  turn_id = "turn";
  correlation_id = "correlation";
  deadline = pos 1;
  auth_identity = record {
    subject = "someone";
    issuer = "";
    username = "";
    groups = [];
    roles = [];
  };
  tool_policy_ref = none;
  approval_policy_ref = none;
  event_cursor = pos 0;
  input = record { prompt = "hello"; context_refs = []; env = []; tools = [] };
  tool_execution_mode = "observed";
  metadata = [];
}

abbrev acceptance : StartTurnResponse
acceptance = record {
  version = "orka.harness.v1";
  accepted = true;
  runtime_session_id = "session";
  turn_id = "turn";
  correlation_id = "";
  event_stream_path = "";
}

acceptance_valid : validate_accepted_turn turn_request acceptance ≡ none
unfolding validate_accepted_turn
acceptance_valid = refl
