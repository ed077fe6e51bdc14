-- ===== src/Adapter/Types.antt =====
-- The state of internal/adapter/adapter.go and the limits of config.go. A time is a number of
-- nanoseconds, a channel, a mutex and a context have no field: the sections that run under `a.mu` are
-- the functions of the model, and whether a context is past its deadline is an argument of those that
-- ask. `text`, `pending_output` are the texts of the builders, and the maps that the end of a turn
-- sets to nil are empty there.
use agent_runtime_foundry.Base.Map.{Map}
use agent_runtime_foundry.Harness.Types.{StartTurnRequest, ToolCallResult, ErrorInfo, pos}
use agent_runtime_foundry.Harness.Messages.{HarnessEventFrame}
use agent_runtime_foundry.Base.{
  ℕ, ◌*◌, ◌^◌, ◌-◌, String, ◌≡◌, refl, Bool, false, Option, none, some, List, [],
}

-- The constants of config.go and adapter.go.
abbrev pub max_turn_tombstones : ℕ
max_turn_tombstones = 10000

abbrev pub default_state_retention : ℕ
default_state_retention = 600 * 10 ^ 9

abbrev pub default_tombstone_retention : ℕ
default_tombstone_retention = 86400 * 10 ^ 9

abbrev pub default_runtime_session_retention : ℕ
default_runtime_session_retention = 30 * 86400 * 10 ^ 9

abbrev pub max_runtime_sessions : ℕ
max_runtime_sessions = 10000

abbrev pub max_retained_turns : ℕ
max_retained_turns = 256

abbrev pub max_retained_turn_state_bytes : ℕ
max_retained_turn_state_bytes = 64 * 2 ^ 20

abbrev pub max_harness_identity_bytes : ℕ
max_harness_identity_bytes = 512

abbrev pub max_harness_frame_bytes : ℕ
max_harness_frame_bytes = 8 * 2 ^ 20 - 64 * 2 ^ 10

-- The errors: a plain one, adapterLimitError, adapterValidationError and providerStartError with
-- their texts, providerHTTPError with its status, and the two errors of a context.
pub data AdapterError : Type 0 where
  plain : String → AdapterError
  limit : String → AdapterError
  validation : String → AdapterError
  provider_start : AdapterError → AdapterError
  provider_http : ℕ → String → AdapterError
  deadline_exceeded : AdapterError
  cancelled : AdapterError

-- The part of `config` that a turn depends on.
pub record AdapterConfig : Type 0 where
  pub agent_version : String
  pub turn_timeout : ℕ
  pub max_output_bytes : ℕ
  pub max_brokered_bytes : ℕ
  pub max_brokered_turn_bytes : ℕ
  pub max_brokered_calls : ℕ
  pub max_events : ℕ
  pub max_concurrent : ℕ
  pub brokered_tool_classes : List String
  pub tool_schema_mode : String

-- The standard library, as the adapter uses it: encoding/json (`none` where it fails, and the text of
-- its error), crypto/sha256, the %q and %d of fmt, and the path of harness.EventStreamPath.
pub record AdapterPlatform : Type 0 where
  pub frame_size : HarnessEventFrame → Option ℕ
  pub request_size : StartTurnRequest → Option ℕ
  pub encode_request : StartTurnRequest → Option (List ℕ)
  pub encode_result : ToolCallResult → Option (List ℕ)
  pub encode_owner : String → String → String → String → Option (List ℕ)
  pub encode_ids : String → String → String → List ℕ
  pub encode_error_info : ErrorInfo → String
  pub marshal_error : String
  pub decode_string : String → Option String
  pub json_valid : String → Bool
  pub is_json_object : String → Bool
  pub sha256 : List ℕ → List ℕ
  pub quote : String → String
  pub decimal : ℕ → String
  pub event_stream_path : String → Option String

pub record RuntimeSessionState : Type 0 where
  pub owner_fingerprint : String
  pub agent_session_id : String
  pub previous_response : String
  pub last_seen : ℕ

pub record TurnTombstone : Type 0 where
  pub fingerprint : String
  pub expires_at : ℕ

pub record TurnState : Type 0 where
  pub request : StartTurnRequest
  pub request_fingerprint : String
  pub owner_fingerprint : String
  pub frames : List HarnessEventFrame
  pub retained_bytes : ℕ
  pub response_id : String
  pub agent_session_id : String
  pub previous_response : String
  pub text : String
  pub pending_tools : Map String String
  pub pending_call_digests : Map String String
  pub provider_call_ids : Map String String
  pub buffered_results : Map String ToolCallResult
  pub buffered_result_digests : Map String String
  pub submitted_result_digests : Map String String
  pub emitted_results : List String
  pub brokered_state_bytes : ℕ
  pub brokered_call_count : ℕ
  pub exposed_brokered_write : Bool
  pub completed : Bool
  pub provider_in_flight : ℕ
  pub current_invocation_uncertain : Bool
  pub pending_output : String
  pub output_flush_timer : Bool
  pub cleanup_at : ℕ
  pub waiting_for_tools : Bool
  pub continuation_in_flight : Bool
  pub started : Bool
  pub initializing : Bool
  pub init_error : Option AdapterError

abbrev pub empty_request : StartTurnRequest
empty_request = record {
  version = "";
  namespace = "";
  task_name = "";
  session_name = "";
  runtime_session_id = "";
  turn_id = "";
  correlation_id = "";
  deadline = pos 0;
  auth_identity = record { subject = ""; issuer = ""; username = ""; groups = []; roles = [] };
  tool_policy_ref = none;
  approval_policy_ref = none;
  event_cursor = pos 0;
  input = record { prompt = ""; context_refs = []; env = []; tools = [] };
  tool_execution_mode = "";
  metadata = [];
}

-- A `turnState` with no field set.
abbrev pub empty_turn : TurnState
empty_turn = record {
  request = empty_request;
  request_fingerprint = "";
  owner_fingerprint = "";
  frames = [];
  retained_bytes = 0;
  response_id = "";
  agent_session_id = "";
  previous_response = "";
  text = "";
  pending_tools = [];
  pending_call_digests = [];
  provider_call_ids = [];
  buffered_results = [];
  buffered_result_digests = [];
  submitted_result_digests = [];
  emitted_results = [];
  brokered_state_bytes = 0;
  brokered_call_count = 0;
  exposed_brokered_write = false;
  completed = false;
  provider_in_flight = 0;
  current_invocation_uncertain = false;
  pending_output = "";
  output_flush_timer = false;
  cleanup_at = 0;
  waiting_for_tools = false;
  continuation_in_flight = false;
  started = false;
  initializing = false;
  init_error = none;
}

-- A step of a turn that may fail: what it leaves behind, and its error. A turn keeps what was
-- changed before an error.
abbrev pub Outcome : Type 0
Outcome = Option AdapterError × TurnState

infixl 5 ◌>>=◌
abbrev pub ◌>>=◌ : Outcome → (TurnState → Outcome) → Outcome
(none, t) >>= next = next t
(some e, t) >>= next = (some e, t)

-- `if err != nil`: what follows an error, or else.
abbrev pub unless {ℓ} : {A : Type ℓ} → Option AdapterError → (AdapterError → A) → A → A
unless (some e) failure rest = failure e
unless none failure rest = rest

pub unless_elim {ℓ κ} :
    {A : Type ℓ} (P : A → Type κ) (failure : AdapterError → A) (rest : A) (o : Option AdapterError)
    → ((e : AdapterError) → o ≡ some e → P (failure e))
    → (o ≡ none → P rest)
    → P (unless o failure rest)
unless_elim P failure rest (some e) bad good = bad e refl
unless_elim P failure rest none bad good = good refl
