-- ===== src/Broker/View.antt =====
-- controlResponseLocked and canAcknowledgeCreateRenewalLocked of internal/broker/broker.go: what the
-- broker tells the supervisor about an owner and a prompt.
pub mod Counted
pub mod Honest
use agent_runtime_foundry.Base.Map.{Map, get}
use agent_runtime_foundry.Broker.Types.{
  BrokerContext, BrokerInvocation, BrokerPrompt, BrokerSession, CreateState, InvocationState,
}
use agent_runtime_foundry.Broker.Platform.{Platform, owner_key, prompt_key}
use agent_runtime_foundry.Broker.Context.{broker_protocol}
use agent_runtime_foundry.Broker.Process.{Process, BrokerActive}
use agent_runtime_foundry.Base.{
  ℕ, ◌+◌, ◌%◌, ◌^◌, String, Bool, true, false, not, ◌&&◌, ◌||◌, Option, none, some, [], ◌∷◌, length,
  ltb, ◌==◌, nat_eq, string_eq, if◌then◌else◌,
}

pub record BrokerControlResponse : Type 0 where
  pub protocol : String
  pub owner_digest : String
  pub operation_id : String
  pub context_sha256 : String
  pub state : String
  pub settlement_proven : Bool
  pub retirement_proven : Bool
  pub active_invocations : ℕ
  pub ambiguous_invocations : ℕ
  pub create_pending : Bool
  pub remote_session_created : Bool
  pub lease_generation : ℕ
  pub lease_expires_at : String
  pub proof_digest : String

-- uint32 increment.
abbrev u32_inc : ℕ → ℕ
u32_inc n = (n + 1) % 2 ^ 32

unfoldable pub add_active : BrokerControlResponse → BrokerControlResponse
add_active r = record r { active_invocations = u32_inc r.active_invocations }

unfoldable pub add_ambiguous : BrokerControlResponse → BrokerControlResponse
add_ambiguous r = record r { ambiguous_invocations = u32_inc r.ambiguous_invocations }

-- The owner's live request is for the prompt.
unfoldable pub active_prompt : Option BrokerActive → String → Bool
active_prompt none key = false
active_prompt (some a) key = a.prompt == key

-- The switch over an invocation's state.
unfoldable pub count_invocation :
    Option BrokerActive
    → String
    → BrokerPrompt
    → BrokerInvocation
    → BrokerControlResponse
    → BrokerControlResponse
unfolding add_active add_ambiguous
count_invocation active key prompt invocation r = elim invocation.state [
  | InvocationState.uncertain ↦ add_ambiguous r
  | InvocationState.intent ↦
      if active_prompt active key && invocation.sequence == prompt.last_sequence
      then add_active r
      else add_ambiguous r
  | InvocationState.accepted ↦ if prompt.settled then r else add_active r
  | InvocationState.reserved ↦ if prompt.settled then r else add_active r
  | _ ↦ r
]

unfoldable pub count_invocations :
    Option BrokerActive
    → String
    → BrokerPrompt
    → Map ℕ BrokerInvocation
    → BrokerControlResponse
    → BrokerControlResponse
count_invocations active key prompt [] r = r
count_invocations active key prompt ((n, invocation) ∷ rest) r =
    count_invocations active key prompt rest (count_invocation active key prompt invocation r)

-- The fields that a named prompt sets.
unfoldable pub show_prompt : Platform → BrokerPrompt → BrokerControlResponse → BrokerControlResponse
show_prompt p prompt r = record r {
  lease_generation = prompt.lease_generation;
  lease_expires_at = p.format_time prompt.lease_expires_at;
  settlement_proven = prompt.settled;
  state = if prompt.settled then "settled" else if prompt.closing then "settling" else r.state;
  proof_digest = if prompt.settled then prompt.proof_digest else r.proof_digest;
}

-- The loop over the prompts.
unfoldable pub show_prompts :
    Platform
    → BrokerContext
    → Option BrokerActive
    → Map String BrokerPrompt
    → BrokerControlResponse
    → BrokerControlResponse
show_prompts p c active [] r = r
show_prompts p c active ((key, prompt) ∷ rest) r =
    let named = not (c.prompt_id == "") in
    let shown = if named then show_prompt p prompt r else r in
    show_prompts p c active rest (
      if named && not (key == prompt_key p c)
      then r
      else count_invocations active key prompt prompt.invocations shown)

abbrev pub is_intent : CreateState → Bool
is_intent CreateState.intent = true
is_intent _ = false

abbrev is_created : CreateState → Bool
is_created CreateState.known = true
is_created CreateState.deleted = true
is_created _ = false

-- The fields that the session sets.
unfoldable pub show_session : BrokerSession → BrokerControlResponse → BrokerControlResponse
show_session session r = record r {
  create_pending = is_intent session.create_state;
  remote_session_created = is_created session.create_state;
  retirement_proven = session.retired;
  state = if session.retired then "retired" else if session.retiring then "retiring" else r.state;
  settlement_proven = if session.retired then true else r.settlement_proven;
  proof_digest = if session.retired then session.proof_digest else r.proof_digest;
}

-- The last step: a pending creation or an ambiguous invocation takes every proof back.
unfoldable pub block_response : BrokerControlResponse → BrokerControlResponse
block_response r =
    if r.create_pending || ltb 0 r.ambiguous_invocations
    then record r {
      state = "blocked";
      settlement_proven = false;
      retirement_proven = false;
      proof_digest = "";
    }
    else r

unfoldable pub initial_response : Platform → BrokerContext → String → BrokerControlResponse
initial_response p c context_digest = record {
  protocol = broker_protocol;
  owner_digest = owner_key p c.owner;
  operation_id = c.operation_id;
  context_sha256 = context_digest;
  state = "open";
  settlement_proven = false;
  retirement_proven = false;
  active_invocations = 0;
  ambiguous_invocations = 0;
  create_pending = false;
  remote_session_created = false;
  lease_generation = 0;
  lease_expires_at = "";
  proof_digest = "";
}

-- controlResponseLocked
unfoldable pub control_response :
    Platform → BrokerContext → String → Process → BrokerControlResponse
unfolding initial_response
control_response p c context_digest b =
    let r = initial_response p c context_digest in
    elim (get (owner_key p c.owner) b.ledger.sessions) [
      | none ↦ r
      | some session ↦ block_response (
          show_prompts p c (get (owner_key p c.owner) b.active) session.prompts
            (show_session session r))
    ]

-- The invocation that a pending creation serves is still reserved.
last_reserved : Option BrokerInvocation → Bool
last_reserved none = false
last_reserved (some invocation) = elim invocation.state [
  | InvocationState.reserved ↦ true
  | _ ↦ false
]

-- The checks of the prompt in canAcknowledgeCreateRenewalLocked.
renewed_prompt : Platform → BrokerContext → ℕ → Option BrokerPrompt → Bool
renewed_prompt p c now none = false
renewed_prompt p c now (some prompt) = elim (p.parse_time c.lease_expires_at) [
  | none ↦ false
  | some expires ↦
      not prompt.closing
      && not prompt.settled
      && prompt.lease_generation == c.lease_generation
      && prompt.lease_expires_at == expires
      && ltb now prompt.lease_expires_at
      && length prompt.invocations == 1
      && last_reserved (get prompt.last_sequence prompt.invocations)
]

renewed_session : Platform → BrokerContext → ℕ → Option BrokerActive → BrokerSession → Bool
renewed_session p c now active session =
    is_intent session.create_state
    && not session.retiring
    && not session.retired
    && session.current_prompt == prompt_key p c
    && renewed_prompt p c now (get (prompt_key p c) session.prompts)
    && active_prompt active (prompt_key p c)

-- canAcknowledgeCreateRenewalLocked
unfoldable pub can_acknowledge_create_renewal :
    Platform → BrokerContext → ℕ → BrokerControlResponse → Process → Bool
unfolding renewed_session renewed_prompt last_reserved
can_acknowledge_create_renewal p c now r b =
    not b.stopped
    && not b.storage_error
    && r.state == "blocked"
    && r.create_pending
    && r.ambiguous_invocations == 0
    && r.active_invocations == 1
    && r.lease_generation == c.lease_generation
    && elim (get (owner_key p c.owner) b.ledger.sessions) [
      | none ↦ false
      | some session ↦ renewed_session p c now (get (owner_key p c.owner) b.active) session
    ]
