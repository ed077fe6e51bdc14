-- ===== src/Adapter/Requests.antt =====
-- The requests of internal/adapter/adapter.go, before any state is touched: what is made of a start
-- request, its checks and fingerprints, the owner of a runtime session, and the new turn.
use agent_runtime_foundry.Base.Text.{size, append, trim_space, cut_prefix}
use agent_runtime_foundry.Foundry.Digest.{hex_encode}
use agent_runtime_foundry.Foundry.Limits.{max_prompt_bytes}
use agent_runtime_foundry.Harness.Types.{
  ℤ, pos, negsuc, StartTurnRequest, CancelTurnRequest, ToolDefinition,
}
use agent_runtime_foundry.Adapter.Types.{
  AdapterError, AdapterPlatform, RuntimeSessionState, TurnState, empty_turn,
  max_harness_identity_bytes,
}
use agent_runtime_foundry.Adapter.Checks.{plain_error}
use agent_runtime_foundry.Base.{
  ℕ, ◌+◌, ◌*◌, ◌^◌, String, Bool, true, false, not, ◌&&◌, Option, none, some, List, [], ◌∷◌, length,
  ltb, ◌==◌, nat_eq, string_eq, if◌then◌else◌, is_some,
}

-- prepareFoundryStartRequest: the mode has a value, and no environment is kept.
unfoldable pub prepare_start_request : StartTurnRequest → StartTurnRequest
prepare_start_request r = record r {
  tool_execution_mode = if r.tool_execution_mode == "" then "observed" else r.tool_execution_mode;
  input = record (r.input) { env = [] };
}

abbrev pub identity_fields : StartTurnRequest → List (String × String)
identity_fields r =
    ("namespace", r.namespace)
    ∷ ("task name", r.task_name)
    ∷ ("session name", r.session_name)
    ∷ ("runtime session id", r.runtime_session_id)
    ∷ ("turn id", r.turn_id)
    ∷ ("correlation id", r.correlation_id)
    ∷ []

-- The loop over the fields; the source visits them in no fixed order.
unfoldable pub identity_error : List (String × String) → Option AdapterError
identity_error [] = none
identity_error ((field, value) ∷ fields) =
    if ltb max_harness_identity_bytes (size value)
    then plain_error (append field " exceeds adapter identity limit")
    else identity_error fields

unfoldable pub tool_bytes : List ToolDefinition → ℕ
tool_bytes [] = 0
tool_bytes (d ∷ tools) = size d.name + size d.description + size d.parameters + tool_bytes tools

unfoldable pub size_error : StartTurnRequest → Option AdapterError
size_error r =
    if ltb max_prompt_bytes (size r.input.prompt)
    then plain_error "prompt exceeds adapter limit"
    else if ltb 256 (length r.input.tools)
    then plain_error "tool schema count exceeds adapter limit"
    else if ltb (2 * 2 ^ 20) (tool_bytes r.input.tools)
    then plain_error "tool schemas exceed adapter limit"
    else none

-- validateAdapterStartRequest
unfoldable pub validate_adapter_start : StartTurnRequest → Option AdapterError
validate_adapter_start r = elim (identity_error (identity_fields r)) [
  | some e ↦ some e
  | none ↦ size_error r
]

-- compactStartTurnRequest: what a turn keeps of its request.
unfoldable pub compact_request : StartTurnRequest → StartTurnRequest
compact_request r = record r {
  auth_identity = record { subject = ""; issuer = ""; username = ""; groups = []; roles = [] };
  tool_policy_ref = none;
  approval_policy_ref = none;
  input = record (r.input) { prompt = ""; context_refs = []; env = [] };
  metadata = [];
}

abbrev pub hex_digest : AdapterPlatform → Option (List ℕ) → String
hex_digest p none = ""
hex_digest p (some encoded) = hex_encode (p.sha256 encoded)

-- startTurnFingerprint: neither the deadline nor the cursor counts.
unfoldable pub start_fingerprint : AdapterPlatform → StartTurnRequest → String
start_fingerprint p r =
    hex_digest p (p.encode_request (record r { deadline = pos 0; event_cursor = pos 0 }))

-- runtimeSessionPrincipal
unfoldable pub session_principal : StartTurnRequest → String
session_principal r =
    let subject = trim_space r.auth_identity.subject in
    let namespace = trim_space r.namespace in
    if is_some (cut_prefix subject (append "task:" (append namespace "/")))
    then append "task-namespace:" namespace
    else if not (subject == "")
    then append "subject:" subject
    else append "user:" (trim_space r.auth_identity.username)

-- runtimeSessionOwnerFingerprint
unfoldable pub owner_fingerprint_of : AdapterPlatform → StartTurnRequest → String
owner_fingerprint_of p r =
    hex_digest p
      (p.encode_owner r.namespace r.session_name (session_principal r) r.auth_identity.issuer)

abbrev pub before : ℤ → ℕ → Bool
before (pos n) m = ltb n m
before (negsuc n) m = true

abbrev pub zero_time : ℤ → Bool
zero_time (pos n) = n == 0
zero_time (negsuc n) = false

-- foundryTurnDeadline: the requested deadline, if it is the earlier one.
unfoldable pub turn_deadline : ℕ → ℤ → ℕ → ℤ
turn_deadline now requested timeout =
    if not (zero_time requested) && before requested (now + timeout)
    then requested
    else pos (now + timeout)

-- cancelRequestMatchesTurn
unfoldable pub cancel_matches : CancelTurnRequest → StartTurnRequest → Bool
cancel_matches request started =
    request.namespace == started.namespace
    && request.task_name == started.task_name
    && request.session_name == started.session_name
    && request.runtime_session_id == started.runtime_session_id
    && request.turn_id == started.turn_id
    && request.correlation_id == started.correlation_id

abbrev pub session_agent : Option RuntimeSessionState → String
session_agent none = ""
session_agent (some session) = session.agent_session_id

abbrev pub session_previous : Option RuntimeSessionState → String
session_previous none = ""
session_previous (some session) = session.previous_response

-- The turnState that startTurn makes, with the cached ids of a runtime session.
unfoldable pub new_turn :
    AdapterPlatform → StartTurnRequest → ℕ → Option RuntimeSessionState → TurnState
new_turn p r bytes session = record empty_turn {
  request = compact_request r;
  request_fingerprint = start_fingerprint p r;
  owner_fingerprint = owner_fingerprint_of p r;
  retained_bytes = bytes;
  initializing = true;
  agent_session_id = session_agent session;
  previous_response = session_previous session;
}
