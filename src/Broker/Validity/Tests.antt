-- ===== src/Broker/Validity/Tests.antt =====
-- A ledger with one session and one settled prompt, which the recovery check accepts.
use agent_runtime_foundry.Base.Map.{get}
use agent_runtime_foundry.Base.Text.{size, utf8_size, any_char, is_control, append, cut_prefix}
use agent_runtime_foundry.Foundry.Digest.{
  digest, digest_valid, hex_encode, hex_digit, is_hex, all_hex,
}
use agent_runtime_foundry.Foundry.Strings.{safe_string}
use agent_runtime_foundry.Broker.Types.{
  BrokerOwner, BrokerContext, BrokerPrompt, BrokerSession, BrokerLedger, CreateState,
}
use agent_runtime_foundry.Broker.Platform.{owner_key, prompt_key, owner_valid}
use agent_runtime_foundry.Broker.Sound.{LedgerSound}
use agent_runtime_foundry.Broker.Validity.{
  known_operation, identity_valid, same_owner, lease_valid, flags_valid, invocations_valid,
  prompt_valid, prompts_valid, creation_valid, retirement_valid, session_fields_valid, all_linked,
  session_valid, entry_valid, ledger_valid,
}
use agent_runtime_foundry.Broker.Validity.Recovery.{ledger_valid-Sound}
use agent_runtime_foundry.Broker.Tests.{platform, owner, context}
use agent_runtime_foundry.Base.{String, ◌≡◌, refl, true, false, [], ◌∷◌, string_eq}

abbrev zeros : String
zeros = "sha256:0000000000000000000000000000000000000000000000000000000000000000"

abbrev known_owner : BrokerOwner
known_owner = record owner { runtime_profile_digest = zeros }

abbrev known_context : BrokerContext
known_context = record (context "operation") {
  owner = known_owner;
  prompt_request_digest = zeros;
  body_sha256 = zeros;
}

abbrev settled_prompt : BrokerPrompt
settled_prompt = record {
  identity = known_context;
  lease_generation = 1;
  lease_expires_at = 100;
  closing = true;
  settled = true;
  proof_digest = zeros;
  last_sequence = 0;
  last_alias = "";
  invocations = [];
}

abbrev known_session : BrokerSession
known_session = record {
  owner = known_owner;
  remote_id = "";
  create_state = CreateState.none;
  retiring = false;
  retired = false;
  proof_digest = "";
  current_prompt = prompt_key platform known_context;
  prompts = (prompt_key platform known_context, settled_prompt) ∷ [];
  responses = [];
  operations = ("operation", zeros) ∷ [];
}

abbrev stored_ledger : BrokerLedger
stored_ledger = record {
  version = 1;
  config_digest = "config";
  principal_digest = "";
  sessions = (owner_key platform known_owner, known_session) ∷ [];
}

stored_ledger_valid : ledger_valid platform "config" stored_ledger ≡ true
unfolding ledger_valid entry_valid session_valid session_fields_valid all_linked prompts_valid
    prompt_valid identity_valid same_owner lease_valid flags_valid invocations_valid known_operation
    creation_valid retirement_valid owner_valid owner_key prompt_key digest digest_valid hex_encode
    hex_digit is_hex all_hex safe_string size utf8_size any_char is_control get append cut_prefix
stored_ledger_valid = refl

ledger_valid-Sound_example : LedgerSound stored_ledger
ledger_valid-Sound_example = ledger_valid-Sound platform "config" stored_ledger stored_ledger_valid
