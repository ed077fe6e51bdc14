-- ===== src/Foundry/Limits.antt =====
-- internal/foundry/limits.go
use Prim.Native.Nat.{ℕ, ◌*◌, ◌^◌}

abbrev pub max_prompt_bytes : ℕ
max_prompt_bytes = 4 * 2 ^ 20

abbrev pub max_identifier_bytes : ℕ
max_identifier_bytes = 4 * 2 ^ 10

abbrev pub default_max_output_bytes : ℕ
default_max_output_bytes = 2 ^ 20

abbrev pub default_max_stream_bytes : ℕ
default_max_stream_bytes = 16 * 2 ^ 20

abbrev pub default_max_event_bytes : ℕ
default_max_event_bytes = 8 * 2 ^ 20

abbrev pub default_max_brokered_bytes : ℕ
default_max_brokered_bytes = 4 * 2 ^ 20

abbrev pub default_max_brokered_calls : ℕ
default_max_brokered_calls = 256

abbrev pub default_max_events : ℕ
default_max_events = 4096

abbrev pub max_agent_config_bytes : ℕ
max_agent_config_bytes = 64 * 2 ^ 10
