-- ===== src/Adapter/Checks.antt =====
-- The checks of internal/foundry/tools.go with the texts of their errors, and the functions of
-- package strings that the adapter's messages need.
use Prim.Native.Char.{Char, code}
use agent_runtime_foundry.Base.Text.{
  size, is_control, is_space, any_char, trim_space, append, cut_prefix,
}
use agent_runtime_foundry.Foundry.Limits.{max_identifier_bytes}
use agent_runtime_foundry.Foundry.Strings.{rune_count, function_name_valid, first_non_blank}
use agent_runtime_foundry.Foundry.Responses.{
  ResponseRequest, ResponseError, Incomplete, StreamSummary,
}
use agent_runtime_foundry.Adapter.Types.{
  AdapterError, plain, limit, validation, provider_start, provider_http, deadline_exceeded,
  cancelled, AdapterPlatform,
}
use agent_runtime_foundry.Base.{
  ℕ, zero, suc, ◌-◌, String, any, Bool, false, not, ◌&&◌, ◌||◌, Option, none, some, [], ◌∷◌, ltb,
  leb, ◌==◌, nat_eq, string_eq, if◌then◌else◌, is_some,
}

abbrev pub plain_error : String → Option AdapterError
plain_error text = some (plain text)

-- ValidateIdentifier
unfoldable pub validate_identifier : String → String → Option AdapterError
validate_identifier label value =
    if value == ""
    then none
    else if ltb max_identifier_bytes (size value)
    then plain_error (append "foundry " (append label " exceeds adapter limit"))
    else if any_char (λ c. is_space c || is_control c) value
    then plain_error (append "foundry " (append label " contains unsafe characters"))
    else none

-- ValidateCallID
unfoldable pub validate_call_id : String → Option AdapterError
validate_call_id call_id =
    if call_id == ""
    then plain_error "foundry function call omitted call_id"
    else if ltb 64 (rune_count call_id)
    then plain_error "foundry function call id exceeds 64 characters"
    else if any_char is_control call_id
    then plain_error "foundry function call id contains control characters"
    else none

-- ValidateFunctionName
unfoldable pub validate_function_name : String → Option AdapterError
validate_function_name name =
    if function_name_valid name then none else plain_error "foundry function call name is invalid"

-- NormalizeToolArguments: the arguments, or none where they are not valid JSON.
unfoldable pub normalize_tool_arguments : AdapterPlatform → String → Option String
normalize_tool_arguments p raw = if size raw == 0 then some "{}" else elim (p.decode_string raw) [
  | none ↦ if p.json_valid raw then some raw else none
  | some encoded ↦
      if not (trim_space encoded == "") && p.json_valid (trim_space encoded)
      then some (trim_space encoded)
      else none
]

-- The character at a position; past the end, `z`.
letter : String → ℕ → Char
letter String.[] n = "z"
letter (String.◌∷◌ c s) zero = c
letter (String.◌∷◌ c s) (suc n) = letter s n

-- unicode.ToLower, up to the characters that lower to an ASCII letter.
unfoldable pub lower_char : Char → Char
unfolding letter
lower_char c =
    if leb b'A' (code c) && leb (code c) b'Z'
    then letter "abcdefghijklmnopqrstuvwxyz" (code c - b'A')
    else if code c == 0x130
    then "i"
    else if code c == 0x212a
    then "k"
    else c

-- strings.ToLower, for a result that is compared with ASCII texts.
unfoldable pub to_lower : String → String
unfolding lower_char
to_lower String.[] = String.[]
to_lower (String.◌∷◌ c s) = String.◌∷◌ (lower_char c) (to_lower s)

-- strings.Contains
unfoldable pub contains : String → String → Bool
unfolding cut_prefix
contains String.[] part = is_some (cut_prefix String.[] part)
contains (String.◌∷◌ c s) part = is_some (cut_prefix (String.◌∷◌ c s) part) || contains s part

-- Error(), for each error.
unfoldable pub error_text : AdapterError → String
error_text (plain text) = text
error_text (limit text) = text
error_text (validation text) = text
error_text (provider_start e) = error_text e
error_text (provider_http status text) = text
error_text deadline_exceeded = "context deadline exceeded"
error_text cancelled = "context canceled"

-- errors.As for a providerHTTPError: its status and text.
unfoldable pub provider_status : AdapterError → Option (ℕ × String)
provider_status (plain text) = none
provider_status (limit text) = none
provider_status (validation text) = none
provider_status (provider_start e) = provider_status e
provider_status (provider_http status text) = some (status, text)
provider_status deadline_exceeded = none
provider_status cancelled = none

safe_text : String → Bool
unfolding contains to_lower
safe_text message =
    contains (to_lower message) "adapter limit"
    || contains (to_lower message) "invalid json"
    || contains (to_lower message) "without a terminal"
    || contains (to_lower message) "not supplied by orka"
    || contains (to_lower message) "requested tool"

capital_foundry : String → String
capital_foundry message = elim (cut_prefix message "foundry ") [
  | none ↦ message
  | some remainder ↦ append "Foundry " remainder
]

-- providerSafeMessage
unfoldable pub provider_safe_message : AdapterError → String
unfolding error_text provider_status safe_text capital_foundry
provider_safe_message e = elim (provider_status e) [
  | some (status, text) ↦ text
  | none ↦
      if safe_text (error_text e) then capital_foundry (error_text e) else "Foundry request failed"
]

failure_with : String → String → String
failure_with message code = append message (append " (" (append code ")"))

-- providerFailureMessage
unfoldable pub provider_failure_message : Option ResponseError → String
unfolding failure_with first_non_blank
provider_failure_message none = "Foundry response failed"
provider_failure_message (some e) =
    if first_non_blank (e.code ∷ e.type_name ∷ []) == ""
    then "Foundry response failed"
    else failure_with "Foundry response failed" (first_non_blank (e.code ∷ e.type_name ∷ []))

-- incompleteFailureMessage
unfoldable pub incomplete_failure_message : Option Incomplete → String
unfolding failure_with
incomplete_failure_message none = "Foundry response was incomplete"
incomplete_failure_message (some incomplete) =
    if trim_space incomplete.reason == ""
    then "Foundry response was incomplete"
    else failure_with "Foundry response was incomplete" (trim_space incomplete.reason)

-- retryableResponseFailure
unfoldable pub retryable_response_failure : Option ResponseError → Bool
unfolding to_lower first_non_blank
retryable_response_failure none = false
retryable_response_failure (some e) =
    any (λ code. to_lower (first_non_blank (e.code ∷ e.type_name ∷ [])) == code)
      ("server_error" ∷ "too_many_requests" ∷ "rate_limit_exceeded" ∷ "no_capacity" ∷ "timeout"
        ∷ "temporarily_unavailable" ∷ [])

-- retryableProviderError
unfoldable pub retryable_provider_error : AdapterError → Bool
unfolding provider_status
retryable_provider_error e = elim (provider_status e) [
  | none ↦ false
  | some (status, text) ↦ status == 408 || status == 429 || leb 500 status
]

-- providerSessionCheckpointInvalid: with a checkpoint in the request, the provider says not found or
-- gone.
unfoldable pub provider_session_checkpoint_invalid : AdapterError → ResponseRequest → Bool
unfolding provider_status
provider_session_checkpoint_invalid e request =
    if request.agent_session_id == "" && request.previous_response_id == ""
    then false
    else elim (provider_status e) [
      | none ↦ false
      | some (status, text) ↦ status == 404 || status == 410
    ]

-- validateFoundryStreamSummary
unfoldable pub validate_stream_summary : StreamSummary → Option AdapterError
unfolding validate_identifier
validate_stream_summary summary = elim (validate_identifier "response id" summary.response_id) [
  | some e ↦ some e
  | none ↦ validate_identifier "agent session id" summary.agent_session_id
]
