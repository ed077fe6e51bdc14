-- ===== src/Broker/Control.antt =====
-- control of internal/broker/broker.go: the renewal, settlement and retirement requests.
use agent_runtime_foundry.Base.Map.{Map, get, insert, map_values}
use agent_runtime_foundry.Broker.Types.{
  BrokerContext, BrokerPath, settle, retire, Result, ok, err, conflict, closed, ◌>>=◌, ◌>>◌, refuse,
  BrokerPrompt, BrokerSession, BrokerLedger,
}
use agent_runtime_foundry.Broker.Platform.{Platform, owner_key, prompt_key}
use agent_runtime_foundry.Broker.Context.{is_settle, is_renew, is_retire}
use agent_runtime_foundry.Broker.Ledger.{
  ensure_session, put_session, ensure_prompt, put_prompt, record_operation,
}
use agent_runtime_foundry.Broker.Process.{
  Codec, Process, BrokerActive, SaveOutcome, commit_capacity,
}
use agent_runtime_foundry.Base.{
  ℕ, ◌+◌, ◌%◌, ◌^◌, String, Bool, true, false, not, ◌&&◌, ◌||◌, none, some, ltb, leb, ◌==◌, nat_eq,
  string_eq, if◌then◌else◌, is_some,
}

-- uint64 addition.
abbrev pub u64 : ℕ → ℕ
u64 n = n % 2 ^ 64

unfoldable pub start_closing : BrokerPrompt → BrokerPrompt
start_closing prompt = record prompt { closing = true }

-- Every prompt of a session starts to close.
unfoldable pub close_prompts : Map String BrokerPrompt → Map String BrokerPrompt
unfolding start_closing
close_prompts = map_values start_closing

unfoldable pub retire_session : BrokerSession → BrokerSession
unfolding close_prompts
retire_session session = record session { retiring = true; prompts = close_prompts session.prompts }

-- The zero time that `expires, _ := time.Parse(...)` leaves on an error.
unfoldable pub time_or_zero : Platform → String → ℕ
time_or_zero p text = elim (p.parse_time text) [ none ↦ p.zero_time | some t ↦ t ]

-- A renewal of a prompt that the session has.
unfoldable pub renew_prompt : Platform → BrokerContext → ℕ → BrokerPrompt → Result BrokerPrompt
renew_prompt p c now prompt =
    let expires = time_or_zero p c.lease_expires_at in
    if prompt.closing || prompt.settled
    then err closed
    else if prompt.identity.operation_id == c.operation_id
        && prompt.last_sequence == 0
        && prompt.lease_generation == c.lease_generation
    then ok prompt
    else if not (c.lease_generation == u64 (prompt.lease_generation + 1))
        || leb prompt.lease_expires_at now
        || ltb expires prompt.lease_expires_at
    then err conflict
    else ok (record prompt { lease_generation = c.lease_generation; lease_expires_at = expires })

-- What a settlement or a renewal does to its prompt.
unfoldable pub control_prompt :
    Platform
    → BrokerPath
    → BrokerContext
    → ℕ
    → Bool
    → BrokerSession × BrokerPrompt
    → Result BrokerSession
unfolding start_closing
control_prompt p settle c now duplicate (session, prompt) =
    ok (put_prompt p c (start_closing prompt) session)
control_prompt p path c now true (session, prompt) = ok session
control_prompt p path c now false (session, prompt) = do
  renewed ← renew_prompt p c now prompt
  ok (put_prompt p c renewed session)

-- What the request does to the session, once its operation is recorded.
unfoldable pub control_session :
    Platform → BrokerPath → BrokerContext → ℕ → BrokerSession × Bool → Result BrokerSession
unfolding retire_session
control_session p retire c now (session, duplicate) = ok (retire_session session)
control_session p path c now (session, duplicate) = do
  refuse ((session.retiring || session.retired) && is_renew path) closed
  found ← ensure_prompt p session c
  control_prompt p path c now duplicate found

-- The function that `control` hands to its commit.
unfoldable pub control_change :
    Platform → BrokerPath → BrokerContext → ℕ → BrokerLedger → Result BrokerLedger
control_change p path c now next = do
  session ← ensure_session p next c
  recorded ← record_operation p session path c
  changed ← control_session p path c now recorded
  ok (put_session p c changed next)

-- Whether the request must leave the owners' reserve free.
unfoldable pub control_ordinary : Platform → BrokerPath → BrokerContext → BrokerLedger → Bool
control_ordinary p path c ledger =
    is_renew path || elim (get (owner_key p c.owner) ledger.sessions) [
      | none ↦ true
      | some session ↦ is_settle path && not (is_some (get (prompt_key p c) session.prompts))
    ]

-- The cancel function of an owner's live request, if the test holds of it.
unfoldable pub cancel_owner : String → (BrokerActive → Bool) → Process → Process
cancel_owner key test b = elim (get key b.active) [
  | none ↦ b
  | some a ↦
      if test a
      then record b { active = insert key (record a { cancelled = true }) b.active }
      else b
]

control_cancel :
    Platform
    → BrokerPath
    → BrokerContext
    → Result (Unit {0}) × Process
    → Result (Unit {0}) × Process
control_cancel p path c (err e, b) = (err e, b)
control_cancel p path c (ok _, b) = (
  ok tt,
  if is_settle path || is_retire path
      then cancel_owner (owner_key p c.owner) (λ a. is_retire path || a.prompt == prompt_key p c) b
      else b,
)

-- control
unfoldable pub control :
    Platform
    → Codec
    → SaveOutcome
    → BrokerPath
    → BrokerContext
    → ℕ
    → Process
    → Result (Unit {0}) × Process
unfolding control_cancel
control p codec outcome path c now b = control_cancel p path c (
    commit_capacity codec outcome (control_ordinary p path c b.ledger) (control_change p path c now)
      b)
