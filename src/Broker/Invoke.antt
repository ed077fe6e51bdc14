-- ===== src/Broker/Invoke.antt =====
-- The ledger changes of invoke, finishInvocation and closePrompt in internal/broker/responses.go, and
-- of pinPrincipal in remote.go: the session's creation, the invocation's submission and its end.
use agent_runtime_foundry.Base.Map.{get, insert, delete}
use agent_runtime_foundry.Broker.Types.{
  BrokerContext, BrokerError, Result, ok, err, conflict, closed, ambiguous, unsent, storage, ◌>>=◌,
  ◌>>◌, refuse, deref, BrokerInvocation, BrokerPrompt, BrokerSession, BrokerLedger, CreateState,
  InvocationState,
}
use agent_runtime_foundry.Broker.Platform.{Platform, owner_key, prompt_key}
use agent_runtime_foundry.Broker.Ledger.{put_session, put_prompt}
use agent_runtime_foundry.Broker.Process.{Codec, Process, SaveOutcome, commit_capacity}
use agent_runtime_foundry.Broker.Control.{cancel_owner}
use agent_runtime_foundry.Base.{
  ℕ, String, Bool, true, false, not, ◌||◌, Option, none, some, leb, ◌==◌, nat_eq, string_eq,
  if◌then◌else◌,
}

-- The session, the prompt and the invocation of a context.
unfoldable pub find_session : Platform → BrokerContext → BrokerLedger → Result BrokerSession
find_session p c next = deref (get (owner_key p c.owner) next.sessions)

unfoldable pub find_prompt : Platform → BrokerContext → BrokerSession → Result BrokerPrompt
find_prompt p c session = deref (get (prompt_key p c) session.prompts)

unfoldable pub find_invocation : BrokerContext → BrokerPrompt → Result BrokerInvocation
find_invocation c prompt = deref (get c.invocation_sequence prompt.invocations)

unfoldable pub put_invocation : BrokerContext → BrokerInvocation → BrokerPrompt → BrokerPrompt
put_invocation c invocation prompt = record prompt {
  invocations = insert c.invocation_sequence invocation prompt.invocations;
}

-- The authority of a prompt at a point of no return: `ended` is whether a context that bounds the
-- request has ended.
unfoldable pub authority : BrokerSession → BrokerPrompt → Bool → ℕ → Result (Unit {0})
authority session prompt ended now =
    refuse (session.retiring || prompt.closing || ended || leb prompt.lease_expires_at now) closed

-- The durable intent to create the remote session `remote_id`.
unfoldable pub intend_create :
    Platform → BrokerContext → Bool → ℕ → String → BrokerLedger → Result BrokerLedger
intend_create p c ended now remote_id next = do
  session ← find_session p c next
  prompt ← find_prompt p c session
  authority session prompt ended now
  ok (
      put_session p c (record session { remote_id = remote_id; create_state = CreateState.intent })
        next)

-- What is recorded when the creation has ended and was not ambiguous.
unfoldable pub settle_create : Platform → BrokerContext → Bool → BrokerLedger → Result BrokerLedger
settle_create p c created next = do
  session ← find_session p c next
  ok (
      put_session p c
        (if created
          then record session { create_state = CreateState.known }
          else record session { remote_id = ""; create_state = CreateState.none })
        next)

-- The durable intent to submit the invocation.
unfoldable pub intend_invocation :
    Platform → BrokerContext → Bool → ℕ → BrokerLedger → Result BrokerLedger
intend_invocation p c ended now next = do
  session ← find_session p c next
  prompt ← find_prompt p c session
  authority session prompt ended now
  invocation ← find_invocation c prompt
  ok (
      put_session p c
        (put_prompt p c
          (put_invocation c (record invocation { state = InvocationState.intent }) prompt) session)
        next)

-- A complete rejection of the submitted request.
unfoldable pub reject_invocation : Platform → BrokerContext → BrokerLedger → Result BrokerLedger
reject_invocation p c next = do
  session ← find_session p c next
  prompt ← find_prompt p c session
  invocation ← find_invocation c prompt
  ok (
      put_session p c
        (put_prompt p c
          (put_invocation c (record invocation { state = InvocationState.rejected }) prompt)
          session)
        next)

-- errors.Is(err, errBrokerAmbiguous)
unfoldable pub is_ambiguous : BrokerError → Bool
is_ambiguous ambiguous = true
is_ambiguous (unsent e) = is_ambiguous e
is_ambiguous _ = false

-- The state of an invocation that ended with an error.
unfoldable pub failed_state : BrokerError → InvocationState → InvocationState
failed_state e InvocationState.reserved = InvocationState.rejected
failed_state e InvocationState.intent =
    if is_ambiguous e then InvocationState.uncertain else InvocationState.rejected
failed_state e state = state

-- The function that finishInvocation hands to its commit.
unfoldable pub finish_change :
    Platform → BrokerContext → Option BrokerError → BrokerLedger → Result BrokerLedger
finish_change p c none next = do
  session ← find_session p c next
  prompt ← find_prompt p c session
  ok next
finish_change p c (some e) next = do
  session ← find_session p c next
  prompt ← find_prompt p c session
  invocation ← find_invocation c prompt
  ok (
      put_session p c
        (put_prompt p c
          (put_invocation c (record invocation { state = failed_state e invocation.state })
            (record prompt { closing = true }))
          session)
        next)

remove_active : Platform → BrokerContext → Result (Unit {0}) × Process → Process
remove_active p c (r, b) = record b { active = delete (owner_key p c.owner) b.active }

-- finishInvocation, but for the cleanup that it starts.
unfoldable pub finish_invocation :
    Platform → Codec → SaveOutcome → BrokerContext → Option BrokerError → Process → Process
unfolding remove_active
finish_invocation p codec outcome c failure b =
    remove_active p c (commit_capacity codec outcome false (finish_change p c failure) b)

close_entry : String → String → Option BrokerSession → Option BrokerSession
close_entry key prompt_key none = none
close_entry key prompt_key (some session) = elim (get prompt_key session.prompts) [
  | none ↦ none
  | some prompt ↦ some (record session {
    prompts = insert prompt_key (record prompt { closing = true }) session.prompts;
  })
]

-- The function that closePrompt hands to its commit.
unfoldable pub close_change : String → String → BrokerLedger → Result BrokerLedger
unfolding close_entry
close_change key prompt_key next = elim (close_entry key prompt_key (get key next.sessions)) [
  | none ↦ ok next
  | some session ↦ ok (record next { sessions = insert key session next.sessions })
]

-- closePrompt, but for the cleanup that it starts.
unfoldable pub close_prompt : Codec → SaveOutcome → String → String → Process → Process
close_prompt codec outcome key prompt b =
    if b.stopped
    then b
    else cancel_owner key (λ a. a.prompt == prompt)
        (commit_capacity codec outcome false (close_change key prompt) b).1

-- The function that pinPrincipal hands to its commit.
unfoldable pub pin_change : String → BrokerLedger → Result BrokerLedger
pin_change digest next = ok (record next { principal_digest = digest })

-- pinPrincipal, for the digest of a token's claims.
unfoldable pub pin_principal : Codec → SaveOutcome → String → Process → Result (Unit {0}) × Process
pin_principal codec outcome claims b =
    if b.ledger.principal_digest == claims
    then (if b.storage_error then err storage else ok tt, b)
    else if not (b.ledger.principal_digest == "")
    then (err conflict, b)
    else commit_capacity codec outcome false (pin_change claims) b
