-- ===== src/Broker/Reconcile.antt =====
-- The cleanup of internal/broker/broker.go: the sweep of expired leases, and reconcile, which closes
-- owners on evidence from the provider. reconcile reads the ledger, asks the provider with the mutex
-- free, and then commits; the two locked parts are `reconcile_plan` and `reconcile_change`.
pub mod Settlement
use agent_runtime_foundry.Base.Map.{Map, get, insert, map_values}
use agent_runtime_foundry.Foundry.Digest.{digest}
use agent_runtime_foundry.Broker.Types.{
  Result, ok, err, pending, ◌>>=◌, ◌>>◌, refuse, deref, BrokerInvocation, BrokerPrompt,
  BrokerSession, BrokerLedger, CreateState, InvocationState,
}
use agent_runtime_foundry.Broker.Platform.{Platform, text_digest}
use agent_runtime_foundry.Broker.Process.{Process}
use agent_runtime_foundry.Base.{
  ℕ, String, Bool, true, false, not, ◌&&◌, ◌||◌, Option, none, some, List, [], ◌∷◌, any, all, leb,
  ◌==◌, nat_eq, string_eq, if◌then◌else◌, is_some,
}

-- The loop of newLifecycleBroker over the prompts of a ledger that was on disk: a restarted broker
-- resumes nothing.
unfoldable pub close_unsettled : BrokerPrompt → BrokerPrompt
close_unsettled prompt = if prompt.settled then prompt else record prompt { closing = true }

unfoldable pub restart_session : BrokerSession → BrokerSession
restart_session session = record session { prompts = map_values close_unsettled session.prompts }

unfoldable pub restart_change : BrokerLedger → Result BrokerLedger
restart_change next = ok (record next { sessions = map_values restart_session next.sessions })

unfoldable pub expire_prompt : ℕ → BrokerPrompt → BrokerPrompt
expire_prompt now prompt =
    if leb prompt.lease_expires_at now then record prompt { closing = true } else prompt

unfoldable pub expire_session : ℕ → BrokerSession → BrokerSession
expire_session now session = record session {
  prompts = map_values (expire_prompt now) session.prompts;
}

-- The function that sweep hands to its commit.
unfoldable pub expire_change : ℕ → BrokerLedger → Result BrokerLedger
expire_change now next =
    ok (record next { sessions = map_values (expire_session now) next.sessions })

-- An invocation that can add no remote work once its request is gone.
unfoldable pub is_quiet : InvocationState → Bool
is_quiet InvocationState.completed = true
is_quiet InvocationState.reserved = true
is_quiet InvocationState.rejected = true
is_quiet _ = false

-- An invocation whose acceptance by the provider is unknown.
unfoldable pub is_ambiguous_invocation : BrokerInvocation → Bool
is_ambiguous_invocation invocation = elim invocation.state [
  | InvocationState.uncertain ↦ true
  | InvocationState.intent ↦ invocation.response_id == ""
  | _ ↦ false
]

unfoldable pub needs_settlement : BrokerPrompt → Bool
needs_settlement prompt = prompt.closing && not prompt.settled

abbrev pub slot_closing : Option BrokerPrompt → Bool
slot_closing none = false
slot_closing (some prompt) = prompt.closing && not prompt.settled

-- The keys of the closing prompts, in the order of the walk: each key has the value that the map
-- gives it.
unfoldable pub closing_keys : Map String BrokerPrompt → Map String BrokerPrompt → List String
closing_keys prompts [] = []
closing_keys prompts ((key, _) ∷ rest) =
    let later = closing_keys prompts rest in
    if slot_closing (get key prompts) then key ∷ later else later

entry_ambiguous : ℕ × BrokerInvocation → Bool
entry_ambiguous (n, invocation) = is_ambiguous_invocation invocation

entry_quiet : ℕ × BrokerInvocation → Bool
entry_quiet (n, invocation) = is_quiet invocation.state

prompt_ambiguous : String × BrokerPrompt → Bool
unfolding entry_ambiguous
prompt_ambiguous (key, prompt) = any entry_ambiguous prompt.invocations

unfoldable pub session_ambiguous : BrokerSession → Bool
unfolding prompt_ambiguous
session_ambiguous session = any prompt_ambiguous session.prompts

prompt_quiescent : String × BrokerPrompt → Bool
unfolding entry_quiet
prompt_quiescent (key, prompt) = not (needs_settlement prompt) || all entry_quiet prompt.invocations

unfoldable pub session_quiescent : BrokerSession → Bool
unfolding prompt_quiescent
session_quiescent session = all prompt_quiescent session.prompts

-- What reconcile captures under the mutex.
pub record Plan : Type 0 where
  pub closing : List String
  pub ambiguous : Bool
  pub quiescent : Bool
  pub remote_id : String
  pub create_state : CreateState
  pub retiring : Bool

unfoldable pub session_plan : BrokerSession → Plan
session_plan session = record {
  closing = closing_keys session.prompts session.prompts;
  ambiguous = session_ambiguous session;
  quiescent = session_quiescent session;
  remote_id = session.remote_id;
  create_state = session.create_state;
  retiring = session.retiring;
}

-- The first locked part. Nothing is planned for an owner that is unknown, retired or active.
unfoldable pub reconcile_plan : String → Process → Option Plan
reconcile_plan key b = elim (get key b.ledger.sessions) [
  | none ↦ none
  | some session ↦
      if session.retired || is_some (get key b.active) then none else some (session_plan session)
]

-- What the plan asks of the provider.
pub data Evidence : Type 0 where
  never_created remote_delete remote_responses_quiescent remote_stop : Evidence

unfoldable pub kind_text : Evidence → String
kind_text never_created = "never-created"
kind_text remote_delete = "remote-delete-204-get-404"
kind_text remote_responses_quiescent = "remote-responses-quiescent"
kind_text remote_stop = "remote-stop-idle"

abbrev nonempty {ℓ} : {A : Type ℓ} → List A → Bool
nonempty [] = false
nonempty (_ ∷ _) = true

-- The evidence for a session that is known to exist.
unfoldable pub known_evidence : Plan → Evidence
known_evidence plan =
    if plan.retiring && not plan.ambiguous
    then remote_delete
    else if plan.quiescent && not plan.ambiguous && nonempty plan.closing
    then remote_responses_quiescent
    else remote_stop

-- The decision between the two locked parts: `none` where reconcile returns without the provider.
unfoldable pub plan_evidence : Plan → Option Evidence
plan_evidence plan =
    if not (nonempty plan.closing) && not plan.retiring then none else elim plan.create_state [
      | CreateState.intent ↦ none
      | CreateState.known ↦ some (known_evidence plan)
      | _ ↦ some never_created
    ]

-- The answers of remoteSessionDelete and remoteSessionStop. `provider_agrees e` is whether the
-- action that the evidence needs had no error.
needs_provider : Evidence → Bool
needs_provider remote_delete = true
needs_provider remote_stop = true
needs_provider _ = false

-- Whether reconcile goes on to its commit.
unfoldable pub may_commit : Plan → Evidence → Bool → Bool
unfolding needs_provider
may_commit plan evidence agrees = (not (needs_provider evidence) || agrees) && not plan.ambiguous

unfoldable pub settle_invocation : BrokerInvocation → BrokerInvocation
settle_invocation invocation = elim invocation.state [
  | InvocationState.completed ↦ invocation
  | _ ↦ record invocation { state = InvocationState.settled }
]

unfoldable pub settle_prompt : String → BrokerPrompt → BrokerPrompt
settle_prompt proof prompt = record prompt {
  settled = true;
  proof_digest = proof;
  invocations = map_values settle_invocation prompt.invocations;
}

unfoldable pub settlement_proof : Platform → String → String → Plan → Evidence → ℕ → String
settlement_proof p key prompt_key plan evidence now = digest (
    p.sha256 (
      p.marshal_settlement key prompt_key (text_digest p plan.remote_id) (kind_text evidence)
        (p.format_time now)))

retirement_proof : Platform → String → Plan → Evidence → ℕ → String
retirement_proof p key plan evidence now = digest (
    p.sha256 (
      p.marshal_retirement key (text_digest p plan.remote_id) (kind_text evidence)
        (p.format_time now)))

-- The loop over the captured keys.
unfoldable pub settle_prompts :
    Platform
    → String
    → Plan
    → Evidence
    → ℕ
    → List String
    → Map String BrokerPrompt
    → Result (Map String BrokerPrompt)
unfolding settlement_proof
settle_prompts p key plan evidence now [] prompts = ok prompts
settle_prompts p key plan evidence now (k ∷ ks) prompts = do
  prompt ← deref (get k prompts)
  settle_prompts p key plan evidence now ks
      (insert k (settle_prompt (settlement_proof p key k plan evidence now) prompt) prompts)

entry_settled : String × BrokerPrompt → Bool
entry_settled (key, prompt) = prompt.settled

unfoldable pub all_settled : Map String BrokerPrompt → Bool
unfolding entry_settled
all_settled prompts = all entry_settled prompts

abbrev pub deleted_state : CreateState → CreateState → CreateState
deleted_state CreateState.known old = CreateState.deleted
deleted_state _ old = old

-- The end of a retirement, once all the prompts are settled.
unfoldable pub retire_settled :
    Platform → String → Plan → Evidence → ℕ → BrokerSession → Result BrokerSession
unfolding retirement_proof
retire_settled p key plan evidence now session =
    if not plan.retiring
    then ok session
    else if not (all_settled session.prompts)
    then err pending
    else ok (record session {
      create_state = deleted_state plan.create_state session.create_state;
      retired = true;
      proof_digest = retirement_proof p key plan evidence now;
    })

-- The function that reconcile hands to its commit. `active` is whether the owner has a live request.
unfoldable pub reconcile_change :
    Platform → String → Plan → Evidence → ℕ → Bool → BrokerLedger → Result BrokerLedger
reconcile_change p key plan evidence now active next = do
  refuse active pending
  session ← deref (get key next.sessions)
  prompts ← settle_prompts p key plan evidence now plan.closing session.prompts
  session' ← retire_settled p key plan evidence now (record session { prompts = prompts })
  ok (record next { sessions = insert key session' next.sessions })
