-- ===== src/Adapter/Lifecycle/Tests.antt =====
-- A turn with one brokered tool: it is made, calls the tool, and gets its result.
use agent_runtime_foundry.Base.Map.{get, insert, delete}
use agent_runtime_foundry.Base.Text.{
  size, utf8_size, utf8_char, append, bytes, trim_space, trim_left, trim_right, is_space,
  is_control, any_char, equal_fold, fold_char,
}
use agent_runtime_foundry.Foundry.Digest.{hex_encode, hex_digit}
use agent_runtime_foundry.Foundry.Strings.{
  function_name_valid, tool_name_char, rune_count, first_non_blank,
}
use agent_runtime_foundry.Foundry.Responses.{OutputItem, ResponseRequest, RequestInput}
use agent_runtime_foundry.Harness.Types.{
  StartTurnRequest, ToolCallResult, ContinueTurnRequest, ToolDefinition,
}
use agent_runtime_foundry.Harness.Checks.{blank, tool_request_idempotency_key, validate_version}
use agent_runtime_foundry.Harness.Validate.{
  validate_continue, validate_results, validate_continued, validate_tool_result,
}
use agent_runtime_foundry.Adapter.Types.{AdapterConfig, AdapterPlatform, TurnState, empty_request}
use agent_runtime_foundry.Adapter.Checks.{
  validate_call_id, validate_function_name, normalize_tool_arguments,
}
use agent_runtime_foundry.Adapter.Tools.{
  tool_allowed, tool_class, tool_class_supported, provider_tool_schemas,
}
use agent_runtime_foundry.Adapter.Requests.{new_turn, compact_request}
use agent_runtime_foundry.Adapter.Frames.{
  new_frame, add_frame, append_frame, append_checked, frame_capacity, started_frame,
  ensure_turn_started, ensure_terminal_started, set_started, flush_output, flush_pending,
  flush_best_effort,
}
use agent_runtime_foundry.Adapter.Finish.{
  Ending, seal, closed_request, may_retry, failure_frame, settle_output, append_failed,
  append_ending, finish,
}
use agent_runtime_foundry.Adapter.Calls.{
  orka_tool_call_id, function_call_fingerprint, check_call, call_frame, add_pending, call_limits,
  store_call, bound_call, expose_call, admit_call, call_conflict, new_call, seen_or_new,
  record_call, checked_call, record_function_call,
}
use agent_runtime_foundry.Adapter.Stage.{
  StagedToolResult, tool_result_fingerprint, validate_result_frames, stage_new, stage_result,
  stage_item, stage_round, stage_results, buffer_result, buffer_results,
}
use agent_runtime_foundry.Adapter.Continue.{
  Handoff, dispatch, function_output, sort, insert_sorted, text_le, content_of, error_of,
  result_output, result_frame, note_emitted, emit_result, emit_results, outputs_of, submit_result,
  submit_results, previous_id, continuation, send_results, submit_all, emit_and_submit,
  prepare_continuation, end_fault, all_buffered, continue_buffered, continue_staged,
  staged_or_refused, continue_locked, continue_matches, continue_matching, valid_or_refused,
  continue_turn,
}
use agent_runtime_foundry.Adapter.Run.{run_start}
use agent_runtime_foundry.Adapter.Sound.{
  is_retryable, Numbered, Ended, IsNonterminal, Prefix, OpenSound,
}
use agent_runtime_foundry.Adapter.Lifecycle.{TurnReaches, here, next, invoke, called}
use agent_runtime_foundry.Adapter.Lifecycle.Invariant.{new_turn-Sound}
use agent_runtime_foundry.Adapter.Lifecycle.History.{
  reached-Sound, reached-Ordered, reached-Bounded, reached-Matched, reached-Kept,
}
use agent_runtime_foundry.Adapter.Lifecycle.Dispatch.{Answered, continue_turn-Answered}
use agent_runtime_foundry.Adapter.Lifecycle.Failure.{MayRetry, finish-MayRetry}
use agent_runtime_foundry.Base.{
  any, ◌≤◌, ◌<◌, String, ◌≡◌, inr, refl, true, false, none, some, is_some, List, [], ◌∷◌, length,
  All, string_eq, nat_eq,
}

abbrev pub platform : AdapterPlatform
platform = record {
  frame_size = λ f. some 100;
  request_size = λ r. some 50;
  encode_request = λ r. some (1 ∷ []);
  encode_result = λ r. some (bytes r.output);
  encode_owner = λ a b c d. some (2 ∷ []);
  encode_ids = λ session turn call. 10 ∷ [];
  encode_error_info = λ e. e.message;
  marshal_error = "json: unsupported value";
  decode_string = λ s. none;
  json_valid = λ s. true;
  is_json_object = λ s. true;
  sha256 = λ d. d;
  quote = λ s. s;
  decimal = λ n. "65536";
  event_stream_path = λ id. some id;
}

abbrev pub config : AdapterConfig
config = record {
  agent_version = "";
  turn_timeout = 20;
  max_output_bytes = 1024;
  max_brokered_bytes = 65536;
  max_brokered_turn_bytes = 65536;
  max_brokered_calls = 8;
  max_events = 16;
  max_concurrent = 1;
  brokered_tool_classes = "read" ∷ [];
  tool_schema_mode = "provider-static";
}

abbrev pub lookup_tool : ToolDefinition
lookup_tool = record { name = "lookup"; description = ""; brokered_class = "read"; parameters = "" }

abbrev pub request : StartTurnRequest
request = record empty_request {
  version = "orka.harness.v1";
  namespace = "default";
  task_name = "task";
  session_name = "name";
  runtime_session_id = "session";
  turn_id = "turn";
  correlation_id = "correlation";
  tool_execution_mode = "brokered";
  input = record { prompt = "hello"; context_refs = []; env = []; tools = lookup_tool ∷ [] };
}

abbrev pub item : OutputItem
item = record {
  id = "item";
  type_name = "function_call";
  call_id = "call_1";
  name = "lookup";
  arguments = "{}";
  content = [];
}

abbrev pub fresh : TurnState
fresh = new_turn platform request 50 none

abbrev pub invoked : TurnState
invoked = run_start fresh

abbrev pub calling : TurnState
calling = (record_function_call platform config 5 item invoked).1

fresh-invoked : TurnReaches platform config fresh invoked
fresh-invoked = next here (invoke fresh)

pub fresh-calling : TurnReaches platform config fresh calling
fresh-calling = next fresh-invoked (called 5 item invoked)

fresh_open : fresh.completed ≡ false
unfolding new_turn
fresh_open = refl

-- The first frame and the call, in this order.
calling_frames : length calling.frames ≡ 2
unfolding new_turn compact_request run_start record_function_call checked_call check_call
    record_call call_conflict seen_or_new new_call ensure_turn_started append_checked frame_capacity
    append_frame add_frame set_started started_frame new_frame flush_output flush_pending admit_call
    expose_call bound_call call_limits store_call add_pending call_frame tool_allowed tool_class
    tool_class_supported validate_call_id validate_function_name function_name_valid tool_name_char
    normalize_tool_arguments rune_count any_char is_control size utf8_size utf8_char trim_space
    trim_left trim_right is_space orka_tool_call_id function_call_fingerprint hex_encode hex_digit
    append bytes get insert
calling_frames = refl

reached-Ordered_example :
    Numbered 0 calling.frames
    × Ended calling.frames
    × (calling.completed ≡ false → All IsNonterminal calling.frames)
reached-Ordered_example = reached-Ordered platform config request 50 none fresh-calling

reached-Bounded_example :
    (1 < config.max_events → length calling.frames ≤ config.max_events)
    × (size calling.text ≤ config.max_output_bytes)
    × (0 < config.max_brokered_calls → calling.brokered_call_count ≤ config.max_brokered_calls)
    × (0 < config.max_brokered_turn_bytes
        → calling.brokered_state_bytes ≤ config.max_brokered_turn_bytes)
reached-Bounded_example = reached-Bounded platform config request 50 none fresh-calling

reached-Matched_example :
    (is_some (get "foundry-0a" calling.pending_call_digests)
      ≡ is_some (get "foundry-0a" calling.pending_tools))
    × (is_some (get "foundry-0a" calling.provider_call_ids)
        ≡ is_some (get "foundry-0a" calling.pending_tools))
    × (is_some (get "foundry-0a" calling.buffered_result_digests)
        ≡ is_some (get "foundry-0a" calling.buffered_results))
    × (is_some (get "foundry-0a" calling.buffered_results) ≡ true
        → is_some (get "foundry-0a" calling.pending_tools) ≡ true)
    × (is_some (get "foundry-0a" calling.submitted_result_digests) ≡ true
        → is_some (get "foundry-0a" calling.pending_tools) ≡ false)
reached-Matched_example = reached-Matched platform config request 50 none fresh-calling "foundry-0a"

reached-Kept_example :
    Prefix invoked.frames calling.frames
    × ((k d : String)
        → get k invoked.submitted_result_digests ≡ some d
        → get k calling.submitted_result_digests ≡ some d)
    × (invoked.completed ≡ true → (calling.frames ≡ invoked.frames) × (calling.completed ≡ true))
reached-Kept_example =
    reached-Kept platform config request 50 none fresh-invoked (next here (called 5 item invoked))

-- The provider has answered and waits for the result of the call.
abbrev waiting : TurnState
waiting = record calling { waiting_for_tools = true; response_id = "resp_1" }

waiting_open : waiting.completed ≡ false
unfolding new_turn compact_request run_start record_function_call checked_call check_call
    record_call call_conflict seen_or_new new_call ensure_turn_started append_checked frame_capacity
    append_frame add_frame set_started started_frame new_frame flush_output flush_pending admit_call
    expose_call bound_call call_limits store_call add_pending call_frame tool_allowed tool_class
    tool_class_supported validate_call_id validate_function_name function_name_valid tool_name_char
    normalize_tool_arguments rune_count any_char is_control size utf8_size utf8_char trim_space
    trim_left trim_right is_space orka_tool_call_id function_call_fingerprint hex_encode hex_digit
    append bytes get insert
waiting_open = refl

abbrev tool_result : ToolCallResult
tool_result = record {
  version = "orka.harness.v1";
  runtime_session_id = "session";
  turn_id = "turn";
  tool_call_id = "foundry-0a";
  idempotency_key = "session:turn:foundry-0a";
  approved = true;
  output = "42";
  error = none;
}

abbrev continue_request : ContinueTurnRequest
continue_request = record {
  version = "orka.harness.v1";
  namespace = "default";
  task_name = "task";
  session_name = "name";
  runtime_session_id = "session";
  turn_id = "turn";
  correlation_id = "correlation";
  tool_results = tool_result ∷ [];
  metadata = [];
}

abbrev sent_request : ResponseRequest
sent_request = record {
  input = RequestInput.list (function_output "call_1" "42" ∷ []);
  stream = false;
  store = false;
  previous_response_id = "resp_1";
  agent_session_id = "";
  tools = [];
}

abbrev continued_turn : Handoff × TurnState
continued_turn = continue_turn platform config 7 continue_request waiting

-- The result goes out under the provider's id of the call.
continued_dispatch : continued_turn.0 ≡ dispatch sent_request
unfolding new_turn compact_request run_start record_function_call checked_call check_call
    record_call call_conflict seen_or_new new_call ensure_turn_started append_checked frame_capacity
    append_frame add_frame set_started started_frame new_frame flush_output flush_pending admit_call
    expose_call bound_call call_limits store_call add_pending call_frame tool_allowed tool_class
    tool_class_supported validate_call_id validate_function_name function_name_valid tool_name_char
    normalize_tool_arguments rune_count any_char is_control size utf8_size utf8_char trim_space
    trim_left trim_right is_space orka_tool_call_id function_call_fingerprint hex_encode hex_digit
    append bytes get insert delete continue_turn valid_or_refused validate_continue validate_results
    validate_continued validate_tool_result blank tool_request_idempotency_key validate_version
    continue_matching continue_matches validate_result_frames continue_locked staged_or_refused
    stage_results stage_round stage_item stage_result stage_new tool_result_fingerprint
    continue_staged buffer_results buffer_result continue_buffered all_buffered end_fault
    prepare_continuation emit_and_submit emit_results emit_result note_emitted result_frame
    content_of error_of submit_all previous_id continuation outputs_of result_output send_results
    submit_results submit_result first_non_blank sort insert_sorted text_le provider_tool_schemas
    equal_fold fold_char
continued_dispatch = refl

waiting-Sound : OpenSound config fresh waiting
waiting-Sound =
    let s = reached-Sound platform config request 50 none fresh-calling in
    (waiting_open, s.0, s.1, s.2)

continue_turn-Answered_example :
    (staged : List StagedToolResult) × (stage_results platform waiting continue_request.tool_results
      ≡ inr staged)
    × Answered (buffer_results staged waiting) continued_turn.1
continue_turn-Answered_example =
    continue_turn-Answered platform config 7 fresh waiting continue_request sent_request
      waiting-Sound continued_dispatch

abbrev failing : Ending
failing = Ending.failed "foundry_timeout" "Foundry response timed out" true

-- No invocation of the fresh turn is under way: its failure may be tried again.
failed_retryable : any is_retryable (finish platform config 9 failing fresh).frames ≡ true
unfolding new_turn compact_request finish settle_output ensure_terminal_started append_frame
    add_frame set_started started_frame new_frame flush_best_effort flush_output flush_pending
    frame_capacity size append_ending append_failed failure_frame may_retry seal closed_request
failed_retryable = refl

finish-MayRetry_example : MayRetry fresh
finish-MayRetry_example =
    finish-MayRetry platform config 9 failing fresh fresh
      (let s = new_turn-Sound platform config request 50 none in (fresh_open, s.0, s.1, s.2))
      failed_retryable
