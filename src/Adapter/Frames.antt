-- ===== src/Adapter/Frames.antt =====
-- The frames of a turn (internal/adapter/adapter.go): how one is appended, within the limits on its
-- size and on their number, and how the pending output becomes one. `now` is the clock's reading.
pub mod After
use agent_runtime_foundry.Base.Text.{size, append}
use agent_runtime_foundry.Harness.Types.{ℤ, pos, negsuc}
use agent_runtime_foundry.Harness.Messages.{HarnessEventFrame}
use agent_runtime_foundry.Harness.Checks.{protocol_version}
use agent_runtime_foundry.Adapter.Types.{
  AdapterError, limit, AdapterConfig, AdapterPlatform, TurnState, Outcome, ◌>>=◌, unless,
  max_harness_frame_bytes,
}
use agent_runtime_foundry.Adapter.Checks.{plain_error}
use agent_runtime_foundry.Base.Map.{Map}
use agent_runtime_foundry.Base.{
  ℕ, zero, suc, ◌+◌, String, Bool, true, false, ◌&&◌, ◌||◌, Option, none, some, List, [], ◌∷◌, ◌++◌,
  ltb, leb, ◌==◌, nat_eq, string_eq, if◌then◌else◌, length,
}

-- foundryFrameMetadata
abbrev pub frame_metadata : Map String String
frame_metadata = ("backend", "foundry-hosted-responses") ∷ []

-- The frame that appendFrameLocked starts from.
unfoldable pub new_frame : TurnState → String → String → ℕ → HarnessEventFrame
new_frame t kind summary now = record {
  version = protocol_version;
  frame_type = kind;
  runtime_session_id = t.request.runtime_session_id;
  turn_id = t.request.turn_id;
  correlation_id = t.request.correlation_id;
  seq = pos (suc (length t.frames));
  created_at = pos now;
  severity = "";
  summary = summary;
  content = "";
  content_text = "";
  tool_name = "";
  tool_call_id = "";
  approval_id = "";
  completed = none;
  failed = none;
  error = none;
  metadata = frame_metadata;
}

module _ (p : AdapterPlatform) (c : AdapterConfig) (now : ℕ) where
  -- The end of appendFrameLocked, with the size of the encoded frame.
  unfoldable pub add_frame : HarnessEventFrame → TurnState → Option ℕ → Outcome
  add_frame frame t none = (plain_error p.marshal_error, t)
  add_frame frame t (some encoded) =
      if ltb max_harness_frame_bytes (encoded + 8)
      then (some (limit "harness frame exceeds adapter serialization limit"), t)
      else (
        none,
        record t { frames = t.frames ++ frame ∷ []; retained_bytes = t.retained_bytes + encoded },
      )

  -- appendFrameLocked, with a frame that `new_frame` began.
  unfoldable pub append_frame : HarnessEventFrame → TurnState → Outcome
  append_frame frame t = add_frame frame t (p.frame_size frame)

  -- ensureNonterminalFrameCapacityLocked: there is room for some frames and a terminal one.
  unfoldable pub frame_capacity : TurnState → ℕ → Option AdapterError
  frame_capacity t additional =
      if ltb 0 c.max_events && leb c.max_events (length t.frames + additional)
      then plain_error "foundry event count exceeds adapter limit"
      else none

  -- A nonterminal frame, with the check for room before it.
  unfoldable pub append_checked : HarnessEventFrame → TurnState → Outcome
  append_checked frame t = unless (frame_capacity t 1) (λ e. (some e, t)) (append_frame frame t)

  unfoldable pub started_frame : TurnState → HarnessEventFrame
  started_frame t = new_frame t "TurnStarted" "Foundry response started" now

  unfoldable pub set_started : TurnState → Outcome
  set_started t = (none, record t { started = true })

  -- ensureTurnStartedLocked
  unfoldable pub ensure_turn_started : TurnState → Outcome
  ensure_turn_started t =
      if t.started then (none, t) else do t' ← append_checked (started_frame t) t; set_started t'

  -- ensureTerminalTurnStartedLocked
  unfoldable pub ensure_terminal_started : TurnState → TurnState
  ensure_terminal_started t =
      if t.started then t else (do t' ← append_frame (started_frame t) t; set_started t').1

  unfoldable pub output_frame : TurnState → HarnessEventFrame
  output_frame t = record (new_frame t "RuntimeOutput" "Foundry output" now) {
    content_text = t.pending_output;
  }

  -- The part of flushOutputLocked that follows the stop of the timer.
  unfoldable pub flush_pending : TurnState → Outcome
  flush_pending t =
      if size t.pending_output == 0
      then (none, t)
      else unless (frame_capacity t 1) (λ e. (some e, t))
          (append_frame (output_frame t) (record t { pending_output = "" }))

  -- flushOutputLocked
  unfoldable pub flush_output : TurnState → Outcome
  flush_output t = flush_pending (record t { output_flush_timer = false })

  -- flushOutputBestEffortLocked
  unfoldable pub flush_best_effort : TurnState → TurnState
  flush_best_effort t =
      unless (flush_output t).0 (λ e. record ((flush_output t).1) { pending_output = "" })
        (flush_output t).1

  -- OnCreated: a response was created, for a turn that may be over.
  unfoldable pub on_created : String → TurnState → Outcome
  on_created agent_session_id t =
      if t.completed
      then (none, t)
      else if agent_session_id == ""
      then ensure_turn_started t
      else ensure_turn_started (record t { agent_session_id = agent_session_id })

  -- The end of OnTextDelta: the text grows, and a large enough output becomes a frame.
  unfoldable pub write_output : String → TurnState → Outcome
  write_output delta t =
      if leb 4096 (size t.pending_output + size delta)
      then flush_output
          (record t { text = append t.text delta; pending_output = append t.pending_output delta })
      else (
        none,
        record t {
          text = append t.text delta;
          pending_output = append t.pending_output delta;
          output_flush_timer = true;
        },
      )

  unfoldable pub write_text : String → TurnState → Outcome
  write_text delta t =
      if ltb c.max_output_bytes (size t.text + size delta)
      then (plain_error "foundry output exceeded adapter limit", t)
      else write_output delta t

  -- OnTextDelta
  unfoldable pub on_text_delta : String → TurnState → Outcome
  on_text_delta delta t =
      if t.completed then (none, t) else do t' ← ensure_turn_started t; write_text delta t'

-- turnStreamIdle
unfoldable pub turn_stream_idle : TurnState → Bool
turn_stream_idle t = t.completed || t.waiting_for_tools

unfoldable pub drop_frames : ℕ → List HarnessEventFrame → List HarnessEventFrame
drop_frames zero frames = frames
drop_frames (suc n) [] = []
drop_frames (suc n) (f ∷ frames) = drop_frames n frames

-- The number of frames that framesAfter skips.
unfoldable pub skipped : ℤ → ℕ → ℕ
skipped (pos n) count = if ltb n count then n else count
skipped (negsuc n) count = 0

-- framesAfter: the frames past a sequence number, and whether the turn is idle.
unfoldable pub frames_after : TurnState → ℤ → List HarnessEventFrame × Bool
frames_after t after_seq =
    (drop_frames (skipped after_seq (length t.frames)) t.frames, turn_stream_idle t)
