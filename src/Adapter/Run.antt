-- ===== src/Adapter/Run.antt =====
-- runResponse of internal/adapter/adapter.go, in its sections under `a.mu`: the start of an invocation,
-- and what becomes of the turn when the provider has answered. The callbacks between them are
-- `on_created`, `on_text_delta` and `record_function_call`.
use agent_runtime_foundry.Base.Text.{trim_space}
use agent_runtime_foundry.Foundry.Responses.{ResponseRequest, StreamSummary}
use agent_runtime_foundry.Adapter.Types.{
  AdapterError, plain, limit, validation, provider_start, provider_http, deadline_exceeded, unless,
  cancelled, AdapterConfig, AdapterPlatform, TurnState, Outcome,
}
use agent_runtime_foundry.Adapter.Checks.{
  plain_error, validate_identifier, validate_stream_summary, to_lower, error_text,
  provider_safe_message, provider_failure_message, incomplete_failure_message,
  retryable_response_failure, retryable_provider_error, provider_session_checkpoint_invalid,
}
use agent_runtime_foundry.Adapter.Frames.{ensure_turn_started, flush_output}
use agent_runtime_foundry.Adapter.Finish.{Ending, finish}
use agent_runtime_foundry.Adapter.Continue.{Handoff, nothing, prepare_continuation, end_fault}
use agent_runtime_foundry.Base.{
  ℕ, suc, ◌-◌, String, Bool, true, false, not, ◌&&◌, ◌||◌, Option, none, some, ◌⊎◌, inl, inr, ◌==◌,
  nat_eq, string_eq, if◌then◌else◌, length,
}

-- One call of the provider: its request, and the ids that it was given.
pub record Invocation : Type 0 where
  pub request : ResponseRequest
  pub response_id : String
  pub session_id : String

unfoldable pub start_invocation : ResponseRequest → Invocation
start_invocation request = record {
  request = request;
  response_id = "";
  session_id = request.agent_session_id;
}

unfoldable pub changed : String → String → Bool
changed old new = not (new == "") && not (old == "") && not (old == new)

abbrev or_old : String → String → String
or_old old new = if new == "" then old else new

-- recordInvocationIDs: an id may not change within an invocation.
unfoldable pub record_ids : Invocation → String → String → AdapterError ⊎ Invocation
record_ids inv response_id session_id = elim (validate_identifier "response id" response_id) [
  | some e ↦ inl e
  | none ↦ elim (validate_identifier "agent session id" session_id) [
    | some e ↦ inl e
    | none ↦
        if changed inv.response_id response_id
        then inl (plain "foundry response id changed within one invocation")
        else if changed inv.session_id session_id
        then inl (plain "foundry agent session id changed within one invocation")
        else inr (record inv {
          response_id = or_old inv.response_id response_id;
          session_id = or_old inv.session_id session_id;
        })
  ]
]

-- The start of runResponse: a turn that is over takes no invocation.
unfoldable pub run_start : TurnState → TurnState
run_start t = if t.completed then t else record t {
  provider_in_flight = suc t.provider_in_flight;
  current_invocation_uncertain = true;
}

unfoldable pub terminal_status : StreamSummary → String
terminal_status summary = to_lower (trim_space summary.status)

-- What a completed response must have.
unfoldable pub completed_error : Invocation → Option AdapterError
completed_error inv =
    if inv.response_id == ""
    then plain_error "foundry completed response omitted its response id"
    else if inv.session_id == ""
    then plain_error "foundry completed response omitted its agent session id"
    else if not (inv.request.previous_response_id == "")
        && inv.response_id == inv.request.previous_response_id
    then plain_error "foundry completed response did not advance previous_response_id"
    else none

unfoldable pub finish_ids : StreamSummary → Invocation → AdapterError ⊎ Invocation
finish_ids summary inv =
    if terminal_status summary == "completed"
    then unless (completed_error inv) inl (inr inv)
    else inr inv

-- The checks of a summary, with the ids that it gives.
unfoldable pub check_summary : StreamSummary → Invocation → AdapterError ⊎ Invocation
check_summary summary inv = elim (validate_stream_summary summary) [
  | some e ↦ inl e
  | none ↦ elim (record_ids inv summary.response_id summary.agent_session_id) [
    | inl e ↦ inl e
    | inr inv' ↦ finish_ids summary inv'
  ]
]

-- errors.Is(err, context.DeadlineExceeded) and errors.Is(err, context.Canceled)
unfoldable pub is_deadline : AdapterError → Bool
is_deadline deadline_exceeded = true
is_deadline (provider_start e) = is_deadline e
is_deadline (plain text) = false
is_deadline (limit text) = false
is_deadline (validation text) = false
is_deadline (provider_http status text) = false
is_deadline cancelled = false

unfoldable pub is_cancelled : AdapterError → Bool
is_cancelled cancelled = true
is_cancelled (provider_start e) = is_cancelled e
is_cancelled (plain text) = false
is_cancelled (limit text) = false
is_cancelled (validation text) = false
is_cancelled (provider_http status text) = false
is_cancelled deadline_exceeded = false

-- What runResponse does beside the turn with the runtime session: nothing, its deletion, or a record
-- of the turn's checkpoint.
pub data SessionChange : Type 0 where
  leave forget remember : SessionChange

pub record RunEnd : Type 0 where
  pub turn : TurnState
  pub session : SessionChange
  pub handoff : Handoff

abbrev timeout_ending : Ending
timeout_ending = Ending.failed "foundry_timeout" "Foundry response timed out" true

module _ (p : AdapterPlatform) (c : AdapterConfig) (now : ℕ) where
  -- releaseProviderLocked, and the reset of the mark of a continuation.
  unfoldable pub release : TurnState → TurnState
  release t = record t {
    provider_in_flight = t.provider_in_flight - 1;
    continuation_in_flight = false;
  }

  unfoldable pub error_ending : Bool → AdapterError → Ending
  error_ending expired e =
      if expired || is_deadline e
      then timeout_ending
      else if is_cancelled e
      then Ending.cancelled
      else Ending.failed "foundry_response_failed" (provider_safe_message e)
          (retryable_provider_error e)

  -- The branch of runResponse with an error, for a turn that is released and not over.
  unfoldable pub run_error : Bool → AdapterError → Invocation → TurnState → RunEnd
  run_error expired e inv t =
      if provider_session_checkpoint_invalid e inv.request
      then record {
        turn =
            finish p c now (error_ending expired e)
              (record t { agent_session_id = ""; previous_response = "" });
        session = forget;
        handoff = nothing;
      }
      else record {
        turn = finish p c now (error_ending expired e) t;
        session = leave;
        handoff = nothing;
      }

  unfoldable pub end_with : SessionChange → Ending → TurnState → RunEnd
  end_with change ending t = record {
    turn = finish p c now ending t;
    session = change;
    handoff = nothing;
  }

  unfoldable pub continued : Handoff × TurnState → RunEnd
  continued prepared = record {
    turn = (end_fault p c now error_text prepared).1;
    session = remember;
    handoff = (end_fault p c now error_text prepared).0;
  }

  -- A completed response with pending tools: the turn waits, or goes on at once.
  unfoldable pub wait_for_tools : TurnState → RunEnd
  wait_for_tools t =
      if length t.buffered_results == length t.pending_tools
      then continued (prepare_continuation p c now t)
      else record { turn = t; session = remember; handoff = nothing }

  unfoldable pub status_ending : StreamSummary → Ending
  status_ending summary =
      if terminal_status summary == "failed"
      then Ending.failed "foundry_response_failed" (provider_failure_message summary.error)
          (retryable_response_failure summary.error)
      else if terminal_status summary == "incomplete"
      then Ending.failed "foundry_response_incomplete"
          (incomplete_failure_message summary.incomplete) false
      else if terminal_status summary == "cancelled" || terminal_status summary == "canceled"
      then Ending.cancelled
      else Ending.failed "foundry_response_invalid_terminal"
          "Foundry response ended without a supported terminal status" false

  -- The switch on the terminal status.
  unfoldable pub run_status : StreamSummary → TurnState → RunEnd
  run_status summary t =
      if terminal_status summary == "completed"
      then if length t.pending_tools == 0
        then end_with remember Ending.completed t
        else wait_for_tools (record t { waiting_for_tools = true })
      else end_with leave (status_ending summary) t

  -- An event limit that is met on the way ends the turn.
  unfoldable pub limit_ending : AdapterError → Ending
  limit_ending e = Ending.failed "foundry_event_limit" (error_text e) false

  unfoldable pub run_flushed : StreamSummary → Outcome → RunEnd
  run_flushed summary (none, t) = run_status summary t
  run_flushed summary (some e, t) =
      end_with leave (limit_ending e) (record t { pending_output = "" })

  unfoldable pub run_started : StreamSummary → Outcome → RunEnd
  run_started summary (none, t) = run_flushed summary (flush_output p c now t)
  run_started summary (some e, t) = end_with leave (limit_ending e) t

  unfoldable pub keep_ids : Invocation → TurnState → TurnState
  keep_ids inv t = record t {
    current_invocation_uncertain = false;
    response_id = or_old t.response_id inv.response_id;
    agent_session_id = or_old t.agent_session_id inv.session_id;
  }

  unfoldable pub run_answered : Bool → StreamSummary → Invocation → TurnState → RunEnd
  run_answered expired summary inv t =
      if expired
      then end_with leave timeout_ending (record t { current_invocation_uncertain = false })
      else run_started summary (ensure_turn_started p c now (keep_ids inv t))

  unfoldable pub run_checked :
      Bool → StreamSummary → Invocation → TurnState → AdapterError ⊎ Invocation → RunEnd
  run_checked expired summary inv t (inl e) = run_error expired e inv t
  run_checked expired summary inv t (inr inv') = run_answered expired summary inv' t

  -- The part of runResponse after the provider's answer, for a turn that is not over: `expired` says
  -- whether the turn's deadline has passed.
  unfoldable pub run_open : Bool → AdapterError ⊎ StreamSummary → Invocation → TurnState → RunEnd
  run_open expired (inl e) inv t = run_error expired e inv t
  run_open expired (inr summary) inv t =
      run_checked expired summary inv t (check_summary summary inv)

  -- The same for any turn: one that is over is only released.
  unfoldable pub run_end : Bool → AdapterError ⊎ StreamSummary → Invocation → TurnState → RunEnd
  run_end expired answer inv t =
      if t.completed
      then record { turn = release t; session = leave; handoff = nothing }
      else run_open expired answer inv (release t)

  -- The turn's part of recordRuntimeSessionLocked is in `finish` for a turn that completes; the firing
  -- of the timer of scheduleOutputFlushLocked:
  unfoldable pub flush_fired : Outcome → TurnState
  flush_fired (none, t) = t
  flush_fired (some e, t) = finish p c now (limit_ending e) (record t { pending_output = "" })

  unfoldable pub flush_timer : TurnState → TurnState
  flush_timer t =
      if t.completed
      then record t { output_flush_timer = false }
      else flush_fired (flush_output p c now t)

  -- watchDeadline, when the deadline has passed.
  unfoldable pub watch_deadline : TurnState → TurnState
  watch_deadline t = if t.completed then t else finish p c now timeout_ending t

  -- The turn's part of cancelTurn.
  unfoldable pub cancel_running : TurnState → TurnState
  cancel_running t = if t.completed then t else finish p c now Ending.cancelled t
