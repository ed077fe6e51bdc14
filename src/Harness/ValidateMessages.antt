-- ===== src/Harness/ValidateMessages.antt =====
-- The checks of the other messages of internal/harness/protocol.go: capabilities, health, event frames
-- and tool calls.
use agent_runtime_foundry.Base.Text.{trim_space}
use agent_runtime_foundry.Harness.Types.{
  HarnessError, required, unsupported, negative, failed, is_negative, is_positive, is_zero,
}
use agent_runtime_foundry.Harness.Messages.{
  CapabilitiesResponse, HealthResponse, HarnessEventFrame, ToolCallRequest,
}
use agent_runtime_foundry.Harness.Checks.{
  protocol_version, http_transport, fails, first_error, each_from, blank,
  is_known_tool_execution_mode, is_known_brokered_tool_class, contains_tool_execution_mode,
  is_known_health_status, validate_version, unnamed_policy,
}
use agent_runtime_foundry.Base.{
  not, ◌&&◌, Option, List, [], ◌∷◌, length, ◌==◌, nat_eq, string_eq, is_some,
}

-- CapabilitiesResponse.Validate
abbrev pub capabilities_checks : CapabilitiesResponse → List (Option HarnessError)
capabilities_checks r =
    let brokered = contains_tool_execution_mode r.tool_execution_modes "brokered" in
    validate_version r.version
    ∷ fails (not (trim_space r.protocol_version == protocol_version))
        (unsupported "protocol version" r.protocol_version)
    ∷ fails (not (trim_space r.transport == http_transport)) (unsupported "transport" r.transport)
    ∷ fails (blank r.runtime_name) (required "runtime name")
    ∷ fails (blank r.provider_kind) (required "provider kind")
    ∷ fails (length r.tool_execution_modes == 0) (required "at least one tool execution mode")
    ∷ each_from
        (λ i mode.
          fails (not (is_known_tool_execution_mode mode)) (unsupported "tool execution mode" mode))
        0 r.tool_execution_modes
    ∷ each_from
        (λ i class.
          fails (not (is_known_brokered_tool_class class))
            (unsupported "brokered tool class" class))
        0 r.brokered_tool_classes
    ∷ fails (not (length r.brokered_tool_classes == 0) && not brokered)
        (failed "brokeredToolClasses require tool execution mode")
    ∷ fails (brokered && length r.brokered_tool_classes == 0)
        (failed "brokered tool execution mode requires at least one brokeredToolClass")
    ∷ fails (brokered && not r.supports_continuation)
        (failed "brokered tool execution mode requires supportsContinuation")
    ∷ fails (is_negative r.max_concurrent_turns) (negative "max concurrent turns")
    ∷ fails (is_negative r.max_turn_seconds) (negative "max turn seconds")
    ∷ fails (is_negative r.max_output_bytes) (negative "max output bytes")
    ∷ []

unfoldable pub validate_capabilities : CapabilitiesResponse → Option HarnessError
validate_capabilities r = first_error (capabilities_checks r)

-- HealthResponse.Validate
unfoldable pub validate_health : HealthResponse → Option HarnessError
validate_health r = first_error (
    validate_version r.version
    ∷ fails (blank r.status) (required "health status")
    ∷ fails (not (is_known_health_status r.status)) (unsupported "health status" r.status)
    ∷ fails (is_zero r.checked_at) (required "checked at")
    ∷ [])

-- HarnessEventFrame.ValidateRequired
unfoldable pub validate_frame : HarnessEventFrame → Option HarnessError
validate_frame f = first_error (
    validate_version f.version
    ∷ fails (blank f.frame_type) (required "frame type")
    ∷ fails (blank f.runtime_session_id) (required "runtime session id")
    ∷ fails (blank f.turn_id) (required "turn id")
    ∷ fails (blank f.correlation_id) (required "correlation id")
    ∷ fails (not (is_positive f.seq)) (failed "frame seq must be positive")
    ∷ fails (f.frame_type == "TurnCompleted" && not (is_some f.completed))
        (required "turn completed payload")
    ∷ fails (f.frame_type == "TurnFailed" && not (is_some f.failed))
        (required "turn failed payload")
    ∷ [])

-- ToolCallRequest.Validate
unfoldable pub validate_tool_call : ToolCallRequest → Option HarnessError
unfolding unnamed_policy
validate_tool_call r = first_error (
    validate_version r.version
    ∷ fails (blank r.runtime_session_id) (required "runtime session id")
    ∷ fails (blank r.turn_id) (required "turn id")
    ∷ fails (blank r.tool_call_id) (required "tool call id")
    ∷ fails (blank r.tool_name) (required "tool name")
    ∷ fails (blank r.idempotency_key) (required "idempotency key")
    ∷ fails (unnamed_policy r.approval_policy_ref) (required "approval policy ref name")
    ∷ [])
