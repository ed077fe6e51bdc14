-- ===== src/Broker/Platform.antt =====
-- What the broker takes from outside the repository, and what it computes from it: the digests that
-- name owners, prompts, operations and proofs (foundry.JSONDigest at the broker's structs), and the
-- checks of an owner and of an alias.
use agent_runtime_foundry.Base.Text.{bytes, cut_prefix}
use agent_runtime_foundry.Foundry.Digest.{digest, digest_valid}
use agent_runtime_foundry.Foundry.Strings.{safe_string}
use agent_runtime_foundry.Broker.Types.{BrokerOwner, BrokerContext, BrokerPath, path_text}
use agent_runtime_foundry.Base.{
  ℕ, String, Bool, false, ◌&&◌, Option, none, some, List, ltb, ◌==◌, nat_eq, string_eq,
}

-- The standard library and google/uuid, as the broker uses them.
pub record Platform : Type 0 where
  -- crypto/sha256
  pub sha256 : List ℕ → List ℕ
  -- encoding/json at the structs that the broker digests
  pub marshal_owner : BrokerOwner → List ℕ
  pub marshal_prompt : String → ℕ → String → String → List ℕ
  pub marshal_operation : String → BrokerContext → List ℕ
  pub marshal_settlement : String → String → String → String → String → List ℕ
  pub marshal_retirement : String → String → String → String → List ℕ
  -- encoding/base64 (RawURLEncoding.Strict), and strictjson.Decode into a context
  pub decode_base64 : String → Option (List ℕ)
  pub encode_base64 : List ℕ → String
  pub unmarshal_context : List ℕ → Option BrokerContext
  -- time.Parse and Time.Format at RFC3339Nano, and the zero Time
  pub parse_time : String → Option ℕ
  pub format_time : ℕ → String
  pub zero_time : ℕ
  -- uuid.Parse followed by String
  pub parse_uuid : String → Option String

unfoldable pub owner_key : Platform → BrokerOwner → String
owner_key p o = digest (p.sha256 (p.marshal_owner o))

-- brokerContext.promptKey
unfoldable pub prompt_key : Platform → BrokerContext → String
prompt_key p c =
    digest
      (p.sha256 (p.marshal_prompt c.task_uid c.task_attempt c.prompt_id c.prompt_request_digest))

-- brokerOperationDigest
unfoldable pub operation_digest : Platform → BrokerPath → BrokerContext → String
operation_digest p path c = digest (p.sha256 (p.marshal_operation (path_text path) c))

unfoldable pub text_digest : Platform → String → String
text_digest p s = digest (p.sha256 (bytes s))

-- brokerOwner.valid
unfoldable pub owner_valid : BrokerOwner → Bool
owner_valid o =
    safe_string o.runtime_instance_id 512
    && safe_string o.supervisor_boot_id 512
    && ltb 0 o.controller_epoch
    && safe_string o.runtime_pool_uid 512
    && ltb 0 o.runtime_pool_generation
    && safe_string o.runtime_session_uid 512
    && ltb 0 o.runtime_session_generation
    && digest_valid o.runtime_profile_digest
    && o.profile_digest_schema_version == 1

unfoldable pub uuid_canonical : Platform → String → Bool
uuid_canonical p id = elim (p.parse_uuid id) [ none ↦ false | some text ↦ text == id ]

-- brokerAliasValid
unfoldable pub alias_valid : Platform → String → String → Bool
unfolding uuid_canonical
alias_valid p value prefix = elim (cut_prefix value prefix) [
  | none ↦ false
  | some id ↦ uuid_canonical p id
]
