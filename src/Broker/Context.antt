-- ===== src/Broker/Context.antt =====
-- brokerParseContext of internal/broker/protocol.go. The request is its path, the values of the
-- context header and the body.
use agent_runtime_foundry.Base.Text.{size}
use agent_runtime_foundry.Foundry.Digest.{digest, digest_valid}
use agent_runtime_foundry.Foundry.Strings.{safe_string}
use agent_runtime_foundry.Broker.Types.{
  BrokerContext, BrokerPath, responses, renew, settle, retire, status, Result, ok, err, invalid,
  closed, ◌>>=◌, ◌>>◌, refuse,
}
use agent_runtime_foundry.Broker.Platform.{Platform, owner_valid}
use agent_runtime_foundry.Base.{
  ℕ, ◌+◌, ◌*◌, ◌^◌, String, Bool, true, false, not, ◌&&◌, ◌||◌, none, some, List, [], ◌∷◌, ltb, leb,
  ◌==◌, nat_eq, string_eq, if◌then◌else◌,
}

abbrev pub broker_protocol : String
broker_protocol = "orka.foundry.broker.v1"

abbrev broker_max_context : ℕ
broker_max_context = 16 * 2 ^ 10

-- time.Minute, in nanoseconds.
abbrev minute : ℕ
minute = 60000000000

abbrev pub is_responses : BrokerPath → Bool
is_responses responses = true
is_responses _ = false

abbrev pub is_settle : BrokerPath → Bool
is_settle settle = true
is_settle _ = false

abbrev pub is_renew : BrokerPath → Bool
is_renew renew = true
is_renew _ = false

abbrev pub is_retire : BrokerPath → Bool
is_retire retire = true
is_retire _ = false

abbrev pub needs_prompt : BrokerPath → Bool
needs_prompt retire = false
needs_prompt status = false
needs_prompt _ = true

abbrev pub needs_live_lease : BrokerPath → Bool
needs_live_lease responses = true
needs_live_lease renew = true
needs_live_lease _ = false

-- The one header value, and the bytes that it stands for.
unfoldable pub header_bytes : Platform → List String → Result (List ℕ)
unfolding size
header_bytes p (value ∷ []) = do
  refuse (size value == 0 || ltb broker_max_context (size value)) invalid
  elim (p.decode_base64 value) [
    | none ↦ err invalid
    | some raw ↦ if p.encode_base64 raw == value then ok raw else err invalid
  ]
header_bytes p _ = err invalid

-- The checks of every context.
unfoldable pub common_valid : Platform → List ℕ → String → BrokerContext → Bool
common_valid p body config_digest c =
    c.protocol == broker_protocol
    && owner_valid c.owner
    && c.agent_configuration_digest == config_digest
    && digest_valid config_digest
    && safe_string c.operation_id 512
    && c.body_sha256 == digest (p.sha256 body)

-- The checks of the prompt's fields, where the path needs them.
unfoldable pub prompt_fields_valid : BrokerContext → Bool
prompt_fields_valid c =
    safe_string c.task_uid 512
    && not (c.task_attempt == 0)
    && safe_string c.prompt_id 512
    && digest_valid c.prompt_request_digest
    && not (c.lease_generation == 0)

-- `needsPrompt`: the fields, then the lease, which a response or a renewal needs live.
unfoldable pub check_prompt : Platform → BrokerPath → BrokerContext → ℕ → Result (Unit {0})
check_prompt p path c now = elim (p.parse_time c.lease_expires_at) [
  | none ↦ err invalid
  | some expiry ↦ do
    refuse (not (prompt_fields_valid c)) invalid
    refuse (needs_live_lease path && (leb expiry now || ltb (now + 5 * minute) expiry)) closed
    ok tt
]

unfoldable pub prompt_fields_absent : BrokerContext → Bool
prompt_fields_absent c =
    c.task_uid == ""
    && c.task_attempt == 0
    && c.prompt_id == ""
    && c.prompt_request_digest == ""
    && c.lease_generation == 0
    && c.lease_expires_at == ""

-- The checks of a decoded context, in the order of the source.
unfoldable pub check_context :
    Platform → BrokerPath → List ℕ → String → ℕ → BrokerContext → Result (Unit {0})
check_context p path body config_digest now c = do
  refuse (not (common_valid p body config_digest c)) invalid
  if needs_prompt path
      then check_prompt p path c now
      else refuse (not (prompt_fields_absent c)) invalid
  refuse
      (if is_responses path then c.invocation_sequence == 0 else not (c.invocation_sequence == 0))
      invalid

-- brokerParseContext
unfoldable pub parse_context :
    Platform → BrokerPath → List String → List ℕ → String → ℕ → Result (BrokerContext × String)
unfolding header_bytes
parse_context p path values body config_digest now = do
  raw ← header_bytes p values
  elim (p.unmarshal_context raw) [
    | none ↦ err invalid
    | some c ↦ do check_context p path body config_digest now c; ok (c, digest (p.sha256 raw))
  ]
