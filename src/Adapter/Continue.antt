-- ===== src/Adapter/Continue.antt =====
-- continueTurn and prepareContinuationLocked of internal/adapter/adapter.go: results of brokered tools
-- are buffered until every pending call has one, and then go to the provider in one request.
use Prim.Native.Nat.{Ordering}
use Prim.Native.String.{compare as compare_text}
use agent_runtime_foundry.Base.Map.{get, insert, delete, keys}
use agent_runtime_foundry.Foundry.Strings.{first_non_blank}
use agent_runtime_foundry.Foundry.Responses.{InputItem, InputField, RequestInput, ResponseRequest}
use agent_runtime_foundry.Harness.Types.{
  HarnessError, ErrorInfo, ToolCallResult, ContinueTurnRequest, StartTurnRequest,
}
use agent_runtime_foundry.Harness.Validate.{validate_continue}
use agent_runtime_foundry.Harness.Messages.{HarnessEventFrame}
use agent_runtime_foundry.Adapter.Types.{
  AdapterError, plain, limit, validation, AdapterConfig, AdapterPlatform, TurnState, Outcome, ◌>>=◌,
  unless,
}
use agent_runtime_foundry.Adapter.Tools.{provider_tool_schemas}
use agent_runtime_foundry.Adapter.Calls.{or_empty}
use agent_runtime_foundry.Adapter.Finish.{Ending, finish}
use agent_runtime_foundry.Adapter.Checks.{provider_safe_message}
use agent_runtime_foundry.Adapter.Stage.{
  StagedToolResult, validate_result_frames, stage_results, buffer_results, additional_bytes,
}
use agent_runtime_foundry.Adapter.Frames.{new_frame, append_frame, frame_capacity}
use agent_runtime_foundry.Base.{
  ℕ, ◌+◌, String, Bool, true, false, not, ◌&&◌, ◌||◌, Option, none, some, ◌⊎◌, inl, inr, not, inl,
  inr, List, [], ◌∷◌, any, ltb, ◌==◌, nat_eq, string_eq, if◌then◌else◌, length,
}

-- Go's order on strings.
unfoldable pub text_le : String → String → Bool
text_le s t = elim (compare_text s t) [ Ordering.gt ↦ false | _ ↦ true ]

unfoldable pub insert_sorted : String → List String → List String
insert_sorted s [] = s ∷ []
insert_sorted s (t ∷ l) = if text_le s t then s ∷ t ∷ l else t ∷ insert_sorted s l

-- slices.Sort
unfoldable pub sort : List String → List String
sort [] = []
sort (s ∷ l) = insert_sorted s (sort l)

-- The output of a result: its own, or its error as JSON. A call with no result has the empty one.
unfoldable pub result_output : AdapterPlatform → Option ToolCallResult → String
result_output p none = ""
result_output p (some result) = elim (result.error) [
  | none ↦ result.output
  | some e ↦ p.encode_error_info e
]

-- The fields of a result; a call with no result has the zero values.
unfoldable pub content_of : Option ToolCallResult → String
content_of none = ""
content_of (some result) = result.output

unfoldable pub error_of : Option ToolCallResult → Option ErrorInfo
error_of none = none
error_of (some result) = result.error

-- foundry.FunctionOutput, as it goes out.
abbrev pub function_output : String → String → InputItem
function_output call_id output = InputItem.object (
    ("type", InputField.text "function_call_output")
    ∷ ("call_id", InputField.text call_id)
    ∷ ("output", InputField.text output)
    ∷ [])

-- What a call hands on: nothing, the refusal of a request (`invalid` for one that fails its own
-- checks), an error that ends the turn, or a request
-- that a new goroutine sends.
pub data Handoff : Type 0 where
  nothing : Handoff
  invalid : HarnessError → Handoff
  refused : AdapterError → Handoff
  fault : AdapterError → Handoff
  dispatch : ResponseRequest → Handoff

module _ (p : AdapterPlatform) (c : AdapterConfig) (now : ℕ) where
  unfoldable pub result_frame : String → TurnState → HarnessEventFrame
  result_frame call_id t =
      record (new_frame t "ToolResultReceived" "brokered tool result received" now) {
        tool_name = or_empty (get call_id t.pending_tools);
        tool_call_id = call_id;
        content = content_of (get call_id t.buffered_results);
        error = error_of (get call_id t.buffered_results);
      }

  unfoldable pub note_emitted : String → TurnState → Outcome
  note_emitted call_id t = (none, record t { emitted_results = call_id ∷ t.emitted_results })

  -- One frame of prepareContinuationLocked, unless it was sent before.
  unfoldable pub emit_result : String → TurnState → Outcome
  emit_result call_id t =
      if any (λ emitted. emitted == call_id) t.emitted_results
      then (none, t)
      else do t' ← append_frame p c now (result_frame call_id t) t; note_emitted call_id t'

  unfoldable pub emit_results : List String → TurnState → Outcome
  emit_results [] t = (none, t)
  emit_results (call_id ∷ ids) t = do t' ← emit_result call_id t; emit_results ids t'

  unfoldable pub outputs_of : TurnState → List String → List InputItem
  outputs_of t [] = []
  outputs_of t (call_id ∷ ids) =
      function_output (or_empty (get call_id t.provider_call_ids))
        (result_output p (get call_id t.buffered_results))
      ∷ outputs_of t ids

  -- One round of the loop that moves the results to the submitted ones.
  unfoldable pub submit_result : String → TurnState → TurnState
  submit_result call_id t = record t {
    submitted_result_digests =
        insert call_id (or_empty (get call_id t.buffered_result_digests))
          t.submitted_result_digests;
    pending_tools = delete call_id t.pending_tools;
    pending_call_digests = delete call_id t.pending_call_digests;
    provider_call_ids = delete call_id t.provider_call_ids;
    buffered_results = delete call_id t.buffered_results;
    buffered_result_digests = delete call_id t.buffered_result_digests;
  }

  unfoldable pub submit_results : List String → TurnState → TurnState
  submit_results [] t = t
  submit_results (call_id ∷ ids) t = submit_results ids (submit_result call_id t)

  unfoldable pub previous_id : TurnState → String
  previous_id t = first_non_blank (t.response_id ∷ t.previous_response ∷ [])

  -- The request of a continuation.
  unfoldable pub continuation : TurnState → List String → ResponseRequest
  continuation t ids = record {
    input = RequestInput.list (outputs_of t ids);
    stream = false;
    store = false;
    previous_response_id = previous_id t;
    agent_session_id = t.agent_session_id;
    tools = provider_tool_schemas c t.request;
  }

  unfoldable pub send_results : List String → TurnState → TurnState
  send_results ids t = record (submit_results ids t) {
    waiting_for_tools = false;
    continuation_in_flight = true;
  }

  -- The end of prepareContinuationLocked: `t` has the frames of the results.
  unfoldable pub submit_all : List String → TurnState → Handoff × TurnState
  submit_all ids t =
      if previous_id t == ""
      then (fault (plain "foundry continuation is missing previous_response_id"), t)
      else (dispatch (continuation t ids), send_results ids t)

  unfoldable pub emit_and_submit : List String → TurnState → Handoff × TurnState
  emit_and_submit ids t =
      unless (emit_results ids t).0 (λ e. (fault e, (emit_results ids t).1))
        (submit_all ids (emit_results ids t).1)

  -- prepareContinuationLocked
  unfoldable pub prepare_continuation : TurnState → Handoff × TurnState
  prepare_continuation t =
      if t.continuation_in_flight
      then (fault (plain "foundry continuation is already in flight"), t)
      else unless (frame_capacity p c now t (length (keys t.pending_tools))) (λ e. (fault e, t))
          (emit_and_submit (sort (keys t.pending_tools)) t)

  -- A continuation that cannot be prepared ends the turn.
  unfoldable pub end_fault : (AdapterError → String) → Handoff × TurnState → Handoff × TurnState
  end_fault message (fault e, t) =
      (fault e, finish p c now (Ending.failed "foundry_continuation_failed" (message e) false) t)
  end_fault message (nothing, t) = (nothing, t)
  end_fault message (invalid e, t) = (invalid e, t)
  end_fault message (refused e, t) = (refused e, t)
  end_fault message (dispatch request, t) = (dispatch request, t)

  -- Whether every pending call has a buffered result, and the provider waits for them.
  unfoldable pub all_buffered : TurnState → Bool
  all_buffered t = not (
      length t.pending_tools == 0
      || ltb (length t.buffered_results) (length t.pending_tools)
      || not t.waiting_for_tools)

  -- The end of continueTurn, with the number of the new results.
  unfoldable pub continue_buffered : ℕ → TurnState → Handoff × TurnState
  continue_buffered count t =
      if t.completed || count == 0 || not (all_buffered t)
      then (nothing, t)
      else end_fault provider_safe_message (prepare_continuation t)

  unfoldable pub continue_staged : List StagedToolResult → TurnState → Handoff × TurnState
  continue_staged staged t =
      if ltb 0 c.max_brokered_turn_bytes
        && ltb c.max_brokered_turn_bytes (t.brokered_state_bytes + additional_bytes staged)
      then (refused (limit "brokered tool results cause turn state to exceed adapter limit"), t)
      else continue_buffered (length staged) (buffer_results staged t)

  unfoldable pub staged_or_refused :
      AdapterError ⊎ List StagedToolResult → TurnState → Handoff × TurnState
  staged_or_refused (inl e) t = (refused e, t)
  staged_or_refused (inr staged) t = continue_staged staged t

  -- What continueTurn does under the lock with the results of an accepted request.
  unfoldable pub continue_locked : List ToolCallResult → TurnState → Handoff × TurnState
  continue_locked results t = staged_or_refused (stage_results p t results) t

  -- Whether a request names the turn that it continues.
  unfoldable pub continue_matches : ContinueTurnRequest → StartTurnRequest → Bool
  continue_matches request started =
      request.runtime_session_id == started.runtime_session_id
      && request.turn_id == started.turn_id
      && request.correlation_id == started.correlation_id
      && request.namespace == started.namespace
      && request.task_name == started.task_name
      && request.session_name == started.session_name

  unfoldable pub continue_matching : ContinueTurnRequest → TurnState → Handoff × TurnState
  continue_matching request t =
      if not (continue_matches request t.request)
      then (refused (validation "continue request does not match started turn"), t)
      else unless (validate_result_frames p c.max_brokered_bytes request.tool_results)
          (λ e. (refused e, t)) (continue_locked request.tool_results t)

  unfoldable pub valid_or_refused :
      Option HarnessError → ContinueTurnRequest → TurnState → Handoff × TurnState
  valid_or_refused (some e) request t = (invalid e, t)
  valid_or_refused none request t = continue_matching request t

  -- continueTurn, for a turn that was found.
  unfoldable pub continue_turn : ContinueTurnRequest → TurnState → Handoff × TurnState
  continue_turn request t = valid_or_refused (validate_continue request) request t
