-- ===== src/Adapter/Finish.antt =====
-- How a turn ends (internal/adapter/adapter.go): its last frame, and what finishTerminalLocked changes
-- in the turn. What it changes beside the turn (the tombstone, the runtime session, the turns that are
-- kept) is in Adapter/Retain.
use agent_runtime_foundry.Harness.Types.{StartTurnRequest, pos}
use agent_runtime_foundry.Harness.Messages.{HarnessEventFrame}
use agent_runtime_foundry.Adapter.Types.{
  AdapterError, AdapterConfig, AdapterPlatform, TurnState, default_state_retention,
}
use agent_runtime_foundry.Adapter.Frames.{
  new_frame, append_frame, ensure_terminal_started, flush_best_effort,
}
use agent_runtime_foundry.Base.{
  ℕ, ◌+◌, ◌-◌, String, Bool, true, false, not, ◌&&◌, ◌||◌, Option, none, some, [], ◌==◌, string_eq,
  if◌then◌else◌,
}

-- What a turn ends with.
pub data Ending : Type 0 where
  completed : Ending
  failed : String → String → Bool → Ending
  cancelled : Ending

-- `json.Marshal` with its error dropped: the size of the text, 0 where there is none.
abbrev pub or_zero : Option ℕ → ℕ
or_zero none = 0
or_zero (some n) = n

abbrev pub or_turn : Option AdapterError × TurnState → (TurnState → TurnState) → TurnState
or_turn (none, t) fallback = t
or_turn (some e, t) fallback = fallback t

module _ (p : AdapterPlatform) (c : AdapterConfig) (now : ℕ) where
  -- The request of a turn that is over.
  unfoldable pub closed_request : StartTurnRequest → StartTurnRequest
  closed_request request = record request {
    input = record (request.input) { tools = [] };
    tool_execution_mode = "";
  }

  -- The changes of finishTerminalLocked to the turn: it is over, and what only a running turn needs
  -- is dropped. A count of bytes below zero becomes zero.
  unfoldable pub seal : TurnState → TurnState
  seal t = if t.completed then t else record t {
    completed = true;
    cleanup_at = now + default_state_retention;
    output_flush_timer = false;
    pending_output = "";
    text = "";
    pending_tools = [];
    pending_call_digests = [];
    provider_call_ids = [];
    buffered_results = [];
    buffered_result_digests = [];
    emitted_results = [];
    request = closed_request t.request;
    retained_bytes =
        t.retained_bytes
        + or_zero (p.request_size (closed_request t.request))
        - or_zero (p.request_size t.request);
  }

  unfoldable pub failure_frame : String → String → Bool → TurnState → HarnessEventFrame
  failure_frame reason message retryable t =
      record (new_frame t "TurnFailed" "Foundry response failed" now) {
        failed = some (record {
          reason = reason;
          message = message;
          result = "";
          data_text = "";
          artifacts = [];
          output_ref = "";
          retryable = retryable;
        });
      }

  -- appendMinimalFailureLocked, in the one form that the callers use.
  unfoldable pub minimal_failure : String → TurnState → TurnState
  minimal_failure message t =
      (append_frame p c now (failure_frame "terminal_frame_too_large" message false t) t).1

  -- Whether a failure may be reported as retryable.
  unfoldable pub may_retry : TurnState → Bool → Bool
  may_retry t retryable =
      if t.current_invocation_uncertain
        || t.exposed_brokered_write
        || t.request.tool_execution_mode == "observed"
      then false
      else retryable

  unfoldable pub completed_frame : String → TurnState → HarnessEventFrame
  completed_frame result t = record (new_frame t "TurnCompleted" "Foundry response completed" now) {
    completed = some (record {
      result = result;
      data_text = "";
      artifacts = [];
      output_ref = "";
      final_event_seq = pos 0;
      retain_session = not (t.agent_session_id == "") || not (t.response_id == "");
    });
  }

  -- The turn's part of recordRuntimeSessionLocked.
  unfoldable pub record_response : Bool → TurnState → TurnState
  record_response commit t =
      if commit && not (t.response_id == "")
      then record t { previous_response = t.response_id }
      else t

  -- The frames that precede the last one, in each of the three functions below.
  unfoldable pub settle_output : TurnState → TurnState
  settle_output t = flush_best_effort p c now (ensure_terminal_started p c now t)

  unfoldable pub append_completed : String → TurnState → TurnState
  append_completed result t =
      or_turn (append_frame p c now (completed_frame result t) t)
        (minimal_failure "terminal response exceeded harness frame limit")

  unfoldable pub append_failed : String → String → Bool → TurnState → TurnState
  append_failed reason message retryable t =
      or_turn (append_frame p c now (failure_frame reason message retryable t) t)
        (minimal_failure "terminal failure exceeded harness frame limit")

  unfoldable pub append_cancelled : TurnState → TurnState
  append_cancelled t =
      or_turn (append_frame p c now (new_frame t "TurnCancelled" "turn cancelled" now) t)
        (minimal_failure "cancellation frame exceeded harness frame limit")

  -- The last frame of a turn.
  unfoldable pub append_ending : Ending → TurnState → TurnState
  append_ending completed t = append_completed t.text (record_response true t)
  append_ending (failed reason message retryable) t =
      append_failed reason message (may_retry t retryable) t
  append_ending cancelled t = append_cancelled t

  -- finishCompletedLocked, finishFailedLocked and finishCancelledLocked, in the turn.
  unfoldable pub finish : Ending → TurnState → TurnState
  finish ending t = seal (append_ending ending (settle_output t))
