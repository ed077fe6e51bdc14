-- ===== src/Harness/Validate.antt =====
-- The checks of the messages that start, continue and cancel a turn (internal/harness/protocol.go), and
-- validateAcceptedTurn of accepted_turn.go. A check returns `none` where the source returns nil, and
-- else the first error of its list.
use agent_runtime_foundry.Base.Text.{trim_space}
use agent_runtime_foundry.Base.Map.{Map, get, insert}
use agent_runtime_foundry.Harness.Types.{
  HarnessError, required, unsupported, negative, mismatch, failed, at_index, TurnEnvVar, ContextRef,
  StartTurnRequest, StartTurnResponse, CancelTurnRequest, ToolCallResult, ContinueTurnRequest,
  ContinueTurnResponse, is_negative, is_zero,
}
use agent_runtime_foundry.Harness.Checks.{
  fails, first_error, wrapped, each_from, blank, is_known_tool_execution_mode,
  tool_request_idempotency_key, validate_version, validate_turn_path_segment,
  validate_tool_definition, is_valid_turn_env_name, unnamed_policy,
}
use agent_runtime_foundry.Base.{
  ℕ, ◌+◌, String, Bool, true, not, ◌&&◌, Option, none, List, [], ◌∷◌, length, ◌==◌, nat_eq,
  string_eq, is_some,
}

validate_env : ℕ → TurnEnvVar → Option HarnessError
validate_env i env = first_error (
    fails (blank env.name) (at_index "input env" i (required "name"))
    ∷ fails (not (is_valid_turn_env_name env.name))
        (at_index "input env" i (unsupported "name" env.name))
    ∷ [])

validate_context_ref : ℕ → ContextRef → Option HarnessError
validate_context_ref i ref = first_error (
    fails (blank ref.kind) (at_index "context ref" i (required "kind"))
    ∷ fails (blank ref.name) (at_index "context ref" i (required "name"))
    ∷ fails (is_negative ref.seq) (at_index "context ref" i (negative "seq"))
    ∷ [])

-- StartTurnRequest.Validate
unfoldable pub validate_start : (String → Bool) → StartTurnRequest → Option HarnessError
unfolding unnamed_policy validate_env validate_context_ref
validate_start json_valid r = first_error (
    validate_version r.version
    ∷ fails (blank r.namespace) (required "namespace")
    ∷ fails (blank r.task_name) (required "task name")
    ∷ fails (blank r.session_name) (required "session name")
    ∷ fails (blank r.runtime_session_id) (required "runtime session id")
    ∷ fails (blank r.turn_id) (required "turn id")
    ∷ validate_turn_path_segment r.turn_id
    ∷ fails (blank r.correlation_id) (required "correlation id")
    ∷ fails (is_zero r.deadline) (required "deadline")
    ∷ fails (blank r.auth_identity.subject && blank r.auth_identity.username)
        (required "auth identity subject or username")
    ∷ fails (is_negative r.event_cursor) (negative "event cursor")
    ∷ fails
        (not (r.tool_execution_mode == "")
          && not (is_known_tool_execution_mode r.tool_execution_mode))
        (unsupported "tool execution mode" r.tool_execution_mode)
    ∷ fails (unnamed_policy r.tool_policy_ref) (required "tool policy ref name")
    ∷ fails (unnamed_policy r.approval_policy_ref) (required "approval policy ref name")
    ∷ each_from validate_env 0 r.input.env
    ∷ each_from validate_context_ref 0 r.input.context_refs
    ∷ each_from
        (λ i tool. wrapped (at_index "input tool" i) (validate_tool_definition json_valid tool)) 0
        r.input.tools
    ∷ [])

-- CancelTurnRequest.Validate
unfoldable pub validate_cancel : CancelTurnRequest → Option HarnessError
validate_cancel r = first_error (
    validate_version r.version
    ∷ fails (blank r.namespace) (required "namespace")
    ∷ fails (blank r.task_name) (required "task name")
    ∷ fails (blank r.session_name) (required "session name")
    ∷ fails (blank r.runtime_session_id) (required "runtime session id")
    ∷ fails (blank r.turn_id) (required "turn id")
    ∷ fails (blank r.correlation_id) (required "correlation id")
    ∷ [])

-- ToolCallResult.Validate
unfoldable pub validate_tool_result : ToolCallResult → Option HarnessError
validate_tool_result r = first_error (
    validate_version r.version
    ∷ fails (blank r.runtime_session_id) (required "runtime session id")
    ∷ fails (blank r.turn_id) (required "turn id")
    ∷ fails (blank r.tool_call_id) (required "tool call id")
    ∷ fails (blank r.idempotency_key) (required "idempotency key")
    ∷ [])

-- The checks of one tool result against its request; `seen` has the trimmed call ids before it.
abbrev pub continued_checks :
    ContinueTurnRequest → Map String Bool → ℕ → ToolCallResult → List (Option HarnessError)
continued_checks r seen i result =
    let call = trim_space result.tool_call_id in
    wrapped (at_index "tool result" i) (validate_tool_result result)
    ∷ fails (not (result.runtime_session_id == r.runtime_session_id)) (
        at_index "tool result" i
          (mismatch "runtime session id" result.runtime_session_id r.runtime_session_id))
    ∷ fails (not (result.turn_id == r.turn_id))
        (at_index "tool result" i (mismatch "turn id" result.turn_id r.turn_id))
    ∷ fails (is_some (get call seen))
        (at_index "tool result" i (unsupported "duplicate tool call id" call))
    ∷ fails
        (not (
          result.idempotency_key
          == tool_request_idempotency_key r.runtime_session_id r.turn_id call))
        (at_index "tool result" i (
          mismatch "idempotency key" result.idempotency_key
            (tool_request_idempotency_key r.runtime_session_id r.turn_id call)))
    ∷ fails (result.output == "" && not (is_some result.error))
        (at_index "tool result" i (required "output or error"))
    ∷ []

unfoldable pub validate_continued :
    ContinueTurnRequest → Map String Bool → ℕ → ToolCallResult → Option HarnessError
validate_continued r seen i result = first_error (continued_checks r seen i result)

-- The loop over the tool results.
unfoldable pub validate_results :
    ContinueTurnRequest → Map String Bool → ℕ → List ToolCallResult → Option HarnessError
unfolding validate_continued
validate_results r seen i [] = none
validate_results r seen i (result ∷ rest) = first_error (
    validate_continued r seen i result
    ∷ validate_results r (insert (trim_space result.tool_call_id) true seen) (i + 1) rest
    ∷ [])

-- ContinueTurnRequest.Validate
abbrev pub continue_checks : ContinueTurnRequest → List (Option HarnessError)
continue_checks r =
    validate_version r.version
    ∷ fails (blank r.namespace) (required "namespace")
    ∷ fails (blank r.task_name) (required "task name")
    ∷ fails (blank r.session_name) (required "session name")
    ∷ fails (blank r.runtime_session_id) (required "runtime session id")
    ∷ fails (blank r.turn_id) (required "turn id")
    ∷ fails (blank r.correlation_id) (required "correlation id")
    ∷ fails (length r.tool_results == 0) (required "at least one tool result")
    ∷ validate_results r [] 0 r.tool_results
    ∷ []

unfoldable pub validate_continue : ContinueTurnRequest → Option HarnessError
validate_continue r = first_error (continue_checks r)

-- ContinueTurnResponse.ValidateFor
unfoldable pub validate_continued_for :
    ContinueTurnResponse → ContinueTurnRequest → Option HarnessError
validate_continued_for r request = first_error (
    validate_version r.version
    ∷ fails (not r.accepted) (failed "harness did not accept continuation")
    ∷ fails (not (r.runtime_session_id == request.runtime_session_id))
        (mismatch "runtime session" r.runtime_session_id request.runtime_session_id)
    ∷ fails (not (r.turn_id == request.turn_id)) (mismatch "turn" r.turn_id request.turn_id)
    ∷ fails (not (r.correlation_id == "") && not (r.correlation_id == request.correlation_id))
        (mismatch "correlation id" r.correlation_id request.correlation_id)
    ∷ [])

-- validateAcceptedTurn
unfoldable pub validate_accepted_turn : StartTurnRequest → StartTurnResponse → Option HarnessError
validate_accepted_turn request accepted = first_error (
    fails (not (accepted.runtime_session_id == request.runtime_session_id))
      (mismatch "runtime session" accepted.runtime_session_id request.runtime_session_id)
    ∷ fails (not (accepted.turn_id == request.turn_id))
        (mismatch "turn" accepted.turn_id request.turn_id)
    ∷ fails
        (not (accepted.correlation_id == "")
          && not (accepted.correlation_id == request.correlation_id))
        (mismatch "correlation id" accepted.correlation_id request.correlation_id)
    ∷ [])
