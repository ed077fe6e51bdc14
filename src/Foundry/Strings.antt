-- ===== src/Foundry/Strings.antt =====
-- The string checks of internal/foundry: SafeString and FirstNonBlank (config.go), ValidateIdentifier,
-- ValidateCallID and ValidateFunctionName (tools.go).
use agent_runtime_foundry.Base.Text.{size, is_control, is_space, any_char, trim_space}
use agent_runtime_foundry.Foundry.Limits.{max_identifier_bytes}
use agent_runtime_foundry.Base.{
  ℕ, suc, String, Bool, true, false, not, ◌&&◌, ◌||◌, List, [], ◌∷◌, ltb, leb, ◌==◌, nat_eq,
  string_eq, if◌then◌else◌,
}

unfoldable pub safe_string : String → ℕ → Bool
unfolding size any_char is_control
safe_string value limit =
    if value == "" || ltb limit (size value) then false else not (any_char is_control value)

-- ValidateIdentifier returns no error: the empty value, or a short one with no space and no control.
unfoldable pub identifier_valid : String → Bool
unfolding size any_char is_control is_space
identifier_valid value =
    if value == ""
    then true
    else if ltb max_identifier_bytes (size value)
    then false
    else not (any_char (λ c. is_space c || is_control c) value)

-- The number of characters, as `len([]rune(callID))` counts them.
unfoldable pub rune_count : String → ℕ
rune_count String.[] = 0
rune_count (String.◌∷◌ c s) = suc (rune_count s)

-- ValidateCallID returns no error.
unfoldable pub call_id_valid : String → Bool
unfolding rune_count any_char is_control
call_id_valid call_id =
    if call_id == ""
    then false
    else if ltb 64 (rune_count call_id)
    then false
    else not (any_char is_control call_id)

-- toolNameRE, `^[A-Za-z0-9_-]+$`, at one character.
unfoldable pub tool_name_char : ℕ → Bool
tool_name_char c =
    (leb b'A' c && leb c b'Z')
    || (leb b'a' c && leb c b'z')
    || (leb b'0' c && leb c b'9')
    || c == b'_'
    || c == b'-'

-- ValidateFunctionName returns no error.
unfoldable pub function_name_valid : String → Bool
unfolding size any_char tool_name_char
function_name_valid name =
    if size name == 0 || ltb 128 (size name)
    then false
    else not (any_char (λ c. not (tool_name_char c)) name)

-- FirstNonBlank: the first value that is not blank, trimmed.
unfoldable pub first_non_blank : List String → String
unfolding trim_space
first_non_blank [] = ""
first_non_blank (value ∷ values) =
    let rest = first_non_blank values in if trim_space value == "" then rest else trim_space value
