-- ===== src/Adapter/Calls.antt =====
-- recordFunctionCall of internal/adapter/adapter.go: a call of the provider becomes a pending tool of
-- the turn and a frame for Orka.
use agent_runtime_foundry.Base.Text.{size, append, bytes}
use agent_runtime_foundry.Base.Map.{get, insert}
use agent_runtime_foundry.Foundry.Digest.{hex_encode}
use agent_runtime_foundry.Foundry.Responses.{OutputItem}
use agent_runtime_foundry.Harness.Messages.{HarnessEventFrame}
use agent_runtime_foundry.Adapter.Types.{
  AdapterError, plain, AdapterConfig, AdapterPlatform, TurnState, Outcome, ◌>>=◌, unless,
}
use agent_runtime_foundry.Adapter.Checks.{
  plain_error, validate_call_id, validate_function_name, normalize_tool_arguments,
}
use agent_runtime_foundry.Adapter.Tools.{tool_allowed, tool_class}
use agent_runtime_foundry.Adapter.Frames.{
  new_frame, append_frame, frame_capacity, ensure_turn_started, flush_output,
}
use agent_runtime_foundry.Base.{
  ℕ, zero, suc, ◌+◌, String, Bool, not, ◌&&◌, ◌||◌, Option, none, some, ◌⊎◌, inl, inr, List, [],
  ◌∷◌, ◌++◌, ltb, leb, ◌==◌, nat_eq, string_eq, if◌then◌else◌, is_some,
}

abbrev pub take : ℕ → List ℕ → List ℕ
take zero l = []
take (suc n) [] = []
take (suc n) (x ∷ l) = x ∷ take n l

-- Go's `m[k]` on a map of texts.
abbrev pub or_empty : Option String → String
or_empty none = ""
or_empty (some text) = text

-- orkaToolCallID
unfoldable pub orka_tool_call_id : AdapterPlatform → String → String → String → String
orka_tool_call_id p runtime_session_id turn_id provider_call_id =
    append "foundry-"
      (hex_encode (take 16 (p.sha256 (p.encode_ids runtime_session_id turn_id provider_call_id))))

-- foundryFunctionCallFingerprint
unfoldable pub function_call_fingerprint : AdapterPlatform → String → String → String
function_call_fingerprint p name arguments =
    hex_encode (p.sha256 (bytes name ++ 0 ∷ bytes arguments))

-- A call whose id, name and arguments have passed their checks.
pub record FunctionCall : Type 0 where
  pub call_id : String
  pub provider_call_id : String
  pub name : String
  pub arguments : String
  pub call_digest : String

-- The checks that recordFunctionCall makes before it takes the lock.
unfoldable pub check_call : AdapterPlatform → TurnState → OutputItem → AdapterError ⊎ FunctionCall
check_call p t call = elim (validate_call_id call.call_id) [
  | some e ↦ inl e
  | none ↦ elim (validate_function_name call.name) [
    | some e ↦ inl e
    | none ↦ elim (normalize_tool_arguments p call.arguments) [
      | none ↦ inl (plain "foundry tool arguments are not valid JSON")
      | some arguments ↦ inr (record {
        call_id = orka_tool_call_id p t.request.runtime_session_id t.request.turn_id call.call_id;
        provider_call_id = call.call_id;
        name = call.name;
        arguments = arguments;
        call_digest = function_call_fingerprint p call.name arguments;
      })
    ]
  ]
]

-- The bytes of state that a call takes.
abbrev pub call_state_bytes : FunctionCall → ℕ
call_state_bytes call =
    size call.call_id + size call.provider_call_id + size call.name + size call.arguments

module _ (p : AdapterPlatform) (c : AdapterConfig) (now : ℕ) where
  unfoldable pub call_frame : FunctionCall → TurnState → HarnessEventFrame
  call_frame call t =
      record (new_frame t "ToolCallRequested" "Foundry requested brokered tool" now) {
        tool_name = call.name;
        tool_call_id = call.call_id;
        content = call.arguments;
      }

  -- The writes to the tables of a turn.
  unfoldable pub add_pending : FunctionCall → TurnState → TurnState
  add_pending call t = record t {
    brokered_call_count = suc t.brokered_call_count;
    brokered_state_bytes = t.brokered_state_bytes + call_state_bytes call;
    pending_tools = insert call.call_id call.name t.pending_tools;
    pending_call_digests = insert call.call_id call.call_digest t.pending_call_digests;
    provider_call_ids = insert call.call_id call.provider_call_id t.provider_call_ids;
  }

  -- The limits on the number and the size of the calls of a turn.
  unfoldable pub call_limits : FunctionCall → TurnState → Option AdapterError
  call_limits call t =
      if ltb 0 c.max_brokered_calls && leb c.max_brokered_calls t.brokered_call_count
      then plain_error "foundry brokered tool call count exceeds adapter limit"
      else if ltb 0 c.max_brokered_turn_bytes
          && ltb c.max_brokered_turn_bytes (t.brokered_state_bytes + call_state_bytes call)
      then plain_error "foundry brokered tool state exceeds adapter limit"
      else none

  unfoldable pub store_call : FunctionCall → TurnState → Outcome
  store_call call t = append_frame p c now (call_frame call t) (add_pending call t)

  unfoldable pub bound_call : FunctionCall → TurnState → Outcome
  bound_call call t = unless (call_limits call t) (λ e. (some e, t)) (store_call call t)

  -- A call of a writing tool is noted before the limits are read.
  unfoldable pub expose_call : FunctionCall → TurnState → Outcome
  expose_call call t = bound_call call (record t {
    exposed_brokered_write =
        tool_class t.request.input.tools call.name == "write" || t.exposed_brokered_write;
  })

  unfoldable pub admit_call : FunctionCall → TurnState → Outcome
  admit_call call t = unless (frame_capacity p c now t 1) (λ e. (some e, t)) (expose_call call t)

  -- The checks of a call against the turn: none where it is new.
  unfoldable pub call_conflict : FunctionCall → TurnState → Option AdapterError
  call_conflict call t =
      if not (t.request.tool_execution_mode == "brokered")
        || not (tool_allowed t.request.input.tools call.name)
      then plain_error (
          append "foundry requested tool "
            (append (p.quote call.name) " that was not supplied by Orka"))
      else if is_some (get call.call_id t.submitted_result_digests)
      then plain_error
          (append "foundry reused already submitted function call id " (p.quote call.call_id))
      else none

  -- Whether a pending call is the same one.
  unfoldable pub same_call : FunctionCall → String → TurnState → Bool
  same_call call name t =
      name == call.name
      && or_empty (get call.call_id t.pending_call_digests) == call.call_digest
      && or_empty (get call.call_id t.provider_call_ids) == call.provider_call_id

  unfoldable pub new_call : FunctionCall → TurnState → Outcome
  new_call call t = do
    t ← ensure_turn_started p c now t
    t ← flush_output p c now t
    admit_call call t

  -- A call is the repetition of a pending one, or new.
  unfoldable pub seen_or_new : FunctionCall → Option String → TurnState → Outcome
  seen_or_new call none t = new_call call t
  seen_or_new call (some name) t = if same_call call name t then (none, t) else (
    plain_error (
        append "foundry reused function call id "
          (append (p.quote call.provider_call_id) " with conflicting content")),
    t,
  )

  -- What recordFunctionCall does under the lock.
  unfoldable pub record_call : FunctionCall → TurnState → Outcome
  record_call call t =
      if t.completed
      then (none, t)
      else unless (call_conflict call t) (λ e. (some e, t))
          (seen_or_new call (get call.call_id t.pending_tools) t)

  unfoldable pub checked_call : AdapterError ⊎ FunctionCall → TurnState → Outcome
  checked_call (inl e) t = (some e, t)
  checked_call (inr call) t = record_call call t

  -- recordFunctionCall
  unfoldable pub record_function_call : OutputItem → TurnState → Outcome
  record_function_call item t = checked_call (check_call p t item) t
