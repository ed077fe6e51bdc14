-- ===== src/Broker/Validity.antt =====
-- brokerLedgerValid of internal/broker/store_validation.go: the checks of a ledger that is read from
-- disk. The source's `linked` map, which each check of an invocation extends, is passed along; `none` is
-- the source's false. A nil map or a nil entry, which only a damaged file has, is not distinguished from
-- an empty one.
pub mod Recovery
pub mod Tests
use agent_runtime_foundry.Base.Map.{Map, get, insert}
use agent_runtime_foundry.Foundry.Digest.{digest_valid}
use agent_runtime_foundry.Foundry.Strings.{safe_string, identifier_valid}
use agent_runtime_foundry.Broker.Types.{
  BrokerOwner, BrokerInvocation, BrokerPrompt, BrokerResponseId, BrokerSession, BrokerLedger,
  CreateState, InvocationState,
}
use agent_runtime_foundry.Broker.Platform.{
  Platform, owner_key, prompt_key, owner_valid, uuid_canonical, alias_valid,
}
use agent_runtime_foundry.Broker.Context.{broker_protocol}
use agent_runtime_foundry.Broker.Ledger.{broker_retirement_operation_limit}
use agent_runtime_foundry.Base.{
  ℕ, String, Bool, true, false, not, ◌&&◌, ◌||◌, Option, none, some, List, [], ◌∷◌, all, length,
  ltb, leb, ◌==◌, nat_eq, string_eq, if◌then◌else◌, is_some,
}

-- `operations[id] != ""`
unfoldable pub known_operation : Map String String → String → Bool
known_operation operations id = elim (get id operations) [
  | none ↦ false
  | some digest ↦ not (digest == "")
]

abbrev is_completed : InvocationState → Bool
is_completed InvocationState.completed = true
is_completed _ = false

-- The switch over the state of an invocation.
unfoldable pub state_valid : BrokerPrompt → BrokerInvocation → Bool
state_valid prompt invocation =
    let unsent =
      invocation.response_id == "" && invocation.response_alias == "" && not prompt.settled in
    elim invocation.state [
      | InvocationState.reserved ↦ unsent
      | InvocationState.intent ↦ unsent
      | InvocationState.rejected ↦ unsent
      | InvocationState.uncertain ↦ unsent
      | InvocationState.accepted ↦ not (invocation.response_id == "") && not prompt.settled
      | InvocationState.completed ↦ not (invocation.response_id == "")
      | InvocationState.settled ↦ prompt.settled
      | InvocationState.unknown _ ↦ false
    ]

call_valid : Platform → String × String → Bool
call_valid p (alias, remote) = alias_valid p alias "fc_" && identifier_valid remote

-- The link of a response and its calls.
unfoldable pub link_valid : Platform → String → BrokerInvocation → BrokerResponseId → Bool
unfolding call_valid
link_valid p key invocation link =
    alias_valid p invocation.response_alias "fr_"
    && identifier_valid link.remote_id
    && link.remote_id == invocation.response_id
    && link.prompt_key == key
    && (if is_completed invocation.state then link.completed else not link.completed)
    && (if link.has_functions then ltb 0 (length link.call_ids) else length link.call_ids == 0)
    && (link.completed || length link.call_ids == 0)
    && all (call_valid p) link.call_ids

-- brokerInvocationValid
unfoldable pub invocation_valid :
    Platform
    → BrokerSession
    → String
    → BrokerPrompt
    → ℕ
    → BrokerInvocation
    → Map String Bool
    → Option (Map String Bool)
invocation_valid p session key prompt sequence invocation linked =
    if not (invocation.sequence == sequence)
      || sequence == 0
      || not (digest_valid invocation.body_digest)
      || not (safe_string invocation.operation_id 512)
      || not (known_operation session.operations invocation.operation_id)
      || not (state_valid prompt invocation)
    then none
    else if invocation.response_id == ""
    then (if invocation.response_alias == "" then some linked else none)
    else elim (get invocation.response_alias session.responses) [
      | none ↦ none
      | some link ↦
          if is_some (get invocation.response_alias linked)
            || not (link_valid p key invocation link)
          then none
          else some (insert invocation.response_alias true linked)
    ]

-- The loop over the invocations: what is linked, the last sequence, the last completed one and its alias.
pub record Walk : Type 0 where
  pub linked : Map String Bool
  pub last : ℕ
  pub last_completed : ℕ
  pub last_alias : String

step : ℕ → BrokerInvocation → Map String Bool → Walk → Walk
step sequence invocation linked walk =
    let newer = is_completed invocation.state && ltb walk.last_completed sequence in
    record {
      linked = linked;
      last = if ltb walk.last sequence then sequence else walk.last;
      last_completed = if newer then sequence else walk.last_completed;
      last_alias = if newer then invocation.response_alias else walk.last_alias;
    }

unfoldable pub invocations_valid :
    Platform → BrokerSession → String → BrokerPrompt → Map ℕ BrokerInvocation → Walk → Option Walk
unfolding step
invocations_valid p session key prompt [] walk = some walk
invocations_valid p session key prompt ((sequence, invocation) ∷ rest) walk =
    elim (invocation_valid p session key prompt sequence invocation walk.linked) [
      | none ↦ none
      | some linked ↦
          invocations_valid p session key prompt rest (step sequence invocation linked walk)
    ]

-- Go's == on owners.
unfoldable pub same_owner : BrokerOwner → BrokerOwner → Bool
same_owner a b =
    a.runtime_instance_id == b.runtime_instance_id
    && a.supervisor_boot_id == b.supervisor_boot_id
    && a.controller_epoch == b.controller_epoch
    && a.runtime_pool_uid == b.runtime_pool_uid
    && a.runtime_pool_generation == b.runtime_pool_generation
    && a.runtime_session_uid == b.runtime_session_uid
    && a.runtime_session_generation == b.runtime_session_generation
    && a.runtime_profile_digest == b.runtime_profile_digest
    && a.profile_digest_schema_version == b.profile_digest_schema_version

-- The identity of a prompt.
unfoldable pub identity_valid : Platform → String → BrokerSession → String → BrokerPrompt → Bool
identity_valid p config_digest session key prompt =
    let c = prompt.identity in
    prompt_key p c == key
    && same_owner c.owner session.owner
    && c.protocol == broker_protocol
    && c.agent_configuration_digest == config_digest
    && safe_string c.task_uid 512
    && not (c.task_attempt == 0)
    && safe_string c.prompt_id 512
    && digest_valid c.prompt_request_digest
    && digest_valid c.body_sha256
    && known_operation session.operations c.operation_id
    && not (c.lease_generation == 0)
    && leb c.lease_generation prompt.lease_generation

-- The lease of a prompt.
unfoldable pub lease_valid : Platform → BrokerPrompt → Bool
lease_valid p prompt = elim (p.parse_time prompt.identity.lease_expires_at) [
  | none ↦ false
  | some expiry ↦ leb expiry prompt.lease_expires_at && not (prompt.lease_expires_at == p.zero_time)
]

-- The flags of a prompt.
unfoldable pub flags_valid : BrokerSession → String → BrokerPrompt → Bool
flags_valid session key prompt =
    (if prompt.settled
      then prompt.closing && digest_valid prompt.proof_digest
      else prompt.proof_digest == "" && not session.retired && key == session.current_prompt)
    && (not session.retiring || prompt.closing)

-- The last two checks of a prompt, of its walk.
walk_valid : BrokerPrompt → Option Walk → Option (Map String Bool)
walk_valid prompt none = none
walk_valid prompt (some walk) =
    if prompt.last_sequence == walk.last && prompt.last_alias == walk.last_alias
    then some walk.linked
    else none

-- brokerPromptValid
unfoldable pub prompt_valid :
    Platform
    → String
    → BrokerSession
    → String
    → BrokerPrompt
    → Map String Bool
    → Option (Map String Bool)
unfolding walk_valid
prompt_valid p config_digest session key prompt linked =
    if not (identity_valid p config_digest session key prompt)
      || not (lease_valid p prompt)
      || not (flags_valid session key prompt)
    then none
    else walk_valid prompt (
        invocations_valid p session key prompt prompt.invocations
          (record { linked = linked; last = 0; last_completed = 0; last_alias = "" }))

-- The loop over the prompts.
unfoldable pub prompts_valid :
    Platform
    → String
    → BrokerSession
    → Map String BrokerPrompt
    → Map String Bool
    → Option (Map String Bool)
prompts_valid p config_digest session [] linked = some linked
prompts_valid p config_digest session ((key, prompt) ∷ rest) linked =
    elim (prompt_valid p config_digest session key prompt linked) [
      | none ↦ none
      | some linked' ↦ prompts_valid p config_digest session rest linked'
    ]

-- The switch over the creation, and the check of the retirement.
unfoldable pub creation_valid : Platform → BrokerSession → Bool
creation_valid p session = elim session.create_state [
  | CreateState.none ↦ session.remote_id == "" && length session.responses == 0
  | CreateState.unknown _ ↦ false
  | _ ↦ uuid_canonical p session.remote_id
]

abbrev is_deleted : CreateState → Bool
is_deleted CreateState.deleted = true
is_deleted _ = false

abbrev is_none : CreateState → Bool
is_none CreateState.none = true
is_none _ = false

unfoldable pub retirement_valid : BrokerSession → Bool
retirement_valid session =
    if session.retired
    then session.retiring
      && (is_none session.create_state || is_deleted session.create_state)
      && digest_valid session.proof_digest
    else not (is_deleted session.create_state) && session.proof_digest == ""

operation_valid : String × String → Bool
operation_valid (id, digest) = safe_string id 512 && digest_valid digest

-- The checks of a session before those of its prompts.
unfoldable pub session_fields_valid : Platform → String → BrokerSession → Bool
unfolding operation_valid
session_fields_valid p key session =
    owner_valid session.owner
    && key == owner_key p session.owner
    && leb (length session.prompts) 4096
    && leb (length session.operations) broker_retirement_operation_limit
    && creation_valid p session
    && retirement_valid session
    && (if length session.prompts == 0
        then session.current_prompt == ""
        else is_some (get session.current_prompt session.prompts)
          && not (session.current_prompt == ""))
    && all operation_valid session.operations

unfoldable pub all_linked : BrokerSession → Option (Map String Bool) → Bool
all_linked session none = false
all_linked session (some linked) = length linked == length session.responses

-- brokerSessionValid
unfoldable pub session_valid : Platform → String → String → BrokerSession → Bool
unfolding all_linked
session_valid p config_digest key session =
    session_fields_valid p key session
    && all_linked session (prompts_valid p config_digest session session.prompts [])

unfoldable pub entry_valid : Platform → String → String → String × BrokerSession → Bool
entry_valid p config_digest principal (key, session) =
    session_valid p config_digest key session && (session.remote_id == "" || not (principal == ""))

-- brokerLedgerValid
unfoldable pub ledger_valid : Platform → String → BrokerLedger → Bool
unfolding entry_valid
ledger_valid p config_digest ledger =
    ledger.version == 1
    && ledger.config_digest == config_digest
    && leb (length ledger.sessions) 4096
    && (ledger.principal_digest == "" || digest_valid ledger.principal_digest)
    && all (entry_valid p config_digest ledger.principal_digest) ledger.sessions
