-- ===== src/Harness/Checks.antt =====
-- What the checks of internal/harness/protocol.go share: the errors of a list, the known words, the
-- canonical key of a tool call, and ValidateTurnPathSegment of turn_path.go. json.Valid is an argument.
use agent_runtime_foundry.Base.Text.{any_char, append, trim_space}
use agent_runtime_foundry.Harness.Types.{
  HarnessError, required, unsupported, failed, PolicyRef, ToolDefinition,
}
use agent_runtime_foundry.Base.{
  ℕ, ◌+◌, String, Bool, true, false, not, ◌&&◌, ◌||◌, Option, none, some, List, [], ◌∷◌, any, leb,
  ◌==◌, nat_eq, string_eq,
}

abbrev pub protocol_version : String
protocol_version = "orka.harness.v1"

abbrev pub http_transport : String
http_transport = "http+sse"

-- An error where the test holds, and the first error of two.
abbrev pub fails : Bool → HarnessError → Option HarnessError
fails true e = some e
fails false e = none

abbrev pub first_error : List (Option HarnessError) → Option HarnessError
first_error [] = none
first_error (some e ∷ rest) = some e
first_error (none ∷ rest) = first_error rest

abbrev pub wrapped : (HarnessError → HarnessError) → Option HarnessError → Option HarnessError
wrapped f none = none
wrapped f (some e) = some (f e)

-- The loop over a list with its index.
abbrev pub each_from {ℓ} :
    {A : Type ℓ} → (ℕ → A → Option HarnessError) → ℕ → List A → Option HarnessError
each_from check n [] = none
each_from check n (a ∷ rest) = first_error (check n a ∷ each_from check (n + 1) rest ∷ [])

unfoldable pub blank : String → Bool
blank value = trim_space value == ""

unfoldable pub is_known_frame_type : String → Bool
is_known_frame_type value =
    any (λ known. value == known)
      ("TurnStarted" ∷ "RuntimeOutput" ∷ "ToolCallRequested" ∷ "ToolResultReceived"
        ∷ "ApprovalRequested" ∷ "TurnCompleted" ∷ "TurnFailed" ∷ "TurnCancelled" ∷ "RuntimeLog"
        ∷ [])

unfoldable pub is_known_tool_execution_mode : String → Bool
is_known_tool_execution_mode value = value == "observed" || value == "brokered"

unfoldable pub is_known_brokered_tool_class : String → Bool
is_known_brokered_tool_class value = value == "read" || value == "write" || value == "coordination"

-- slices.Contains
unfoldable pub contains_tool_execution_mode : List String → String → Bool
contains_tool_execution_mode modes want = any (λ mode. mode == want) modes

unfoldable pub is_known_health_status : String → Bool
is_known_health_status value = value == "ok" || value == "degraded" || value == "unhealthy"

unfoldable pub tool_request_idempotency_key : String → String → String → String
tool_request_idempotency_key session turn call =
    append (trim_space session)
      (append ":" (append (trim_space turn) (append ":" (trim_space call))))

unfoldable pub validate_version : String → Option HarnessError
validate_version version = first_error (
    fails (trim_space version == "") (required "version")
    ∷ fails (not (trim_space version == protocol_version)) (unsupported "version" version)
    ∷ [])

unfoldable pub validate_turn_path_segment : String → Option HarnessError
validate_turn_path_segment raw =
    let value = trim_space raw in
    first_error (
      fails (value == "") (required "turn id")
      ∷ fails
          (not (value == raw)
            || value == "."
            || value == ".."
            || any_char (λ c. c == b'/') value
            || any_char (λ c. c == 0x5c) value)
          (failed "turn id must be a single safe path segment")
      ∷ [])

unfoldable pub validate_tool_definition : (String → Bool) → ToolDefinition → Option HarnessError
validate_tool_definition json_valid t = first_error (
    fails (blank t.name) (required "name")
    ∷ fails (not (t.brokered_class == "") && not (is_known_brokered_tool_class t.brokered_class))
        (unsupported "brokered class" t.brokered_class)
    ∷ fails (not (t.parameters == "") && not (json_valid t.parameters))
        (failed "parameters must be valid JSON")
    ∷ [])

abbrev env_first_char : ℕ → Bool
env_first_char c = c == b'_' || (leb b'A' c && leb c b'Z') || (leb b'a' c && leb c b'z')

abbrev env_char : ℕ → Bool
env_char c = env_first_char c || (leb b'0' c && leb c b'9')

abbrev env_name : String → Bool
env_name String.[] = false
env_name (String.◌∷◌ c s) =
    env_first_char (Prim.Native.Char.code c) && not (any_char (λ d. not (env_char d)) s)

unfoldable pub is_valid_turn_env_name : String → Bool
is_valid_turn_env_name name = env_name (trim_space name)

unfoldable pub unnamed_policy : Option PolicyRef → Bool
unnamed_policy none = false
unnamed_policy (some ref) = blank ref.name
