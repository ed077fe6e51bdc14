-- ===== src/Broker/Ledger.antt =====
-- The ledger operations of internal/broker/broker.go that the requests share: brokerEnsureSession,
-- brokerEnsurePrompt and brokerRecordOperation. The source changes a private copy of the ledger in
-- place and drops it on an error; here each function returns the changed session.
use agent_runtime_foundry.Base.Map.{get, insert}
use agent_runtime_foundry.Broker.Types.{
  BrokerOwner, BrokerContext, BrokerPath, settle, retire, Result, ok, err, invalid, conflict,
  closed, storage, ◌>>◌, refuse, BrokerPrompt, BrokerSession, BrokerLedger, CreateState,
}
use agent_runtime_foundry.Broker.Platform.{Platform, owner_key, prompt_key, operation_digest}
use agent_runtime_foundry.Base.{
  ℕ, ◌+◌, String, Bool, true, false, not, ◌&&◌, ◌||◌, Option, none, some, [], length, any, leb,
  ◌==◌, nat_eq, string_eq, if◌then◌else◌,
}

abbrev pub broker_operation_limit : ℕ
broker_operation_limit = 16384

abbrev pub broker_settlement_operation_limit : ℕ
broker_settlement_operation_limit = broker_operation_limit + 1

abbrev pub broker_retirement_operation_limit : ℕ
broker_retirement_operation_limit = broker_settlement_operation_limit + 1

abbrev pub operation_limit : BrokerPath → ℕ
operation_limit settle = broker_settlement_operation_limit
operation_limit retire = broker_retirement_operation_limit
operation_limit _ = broker_operation_limit

abbrev pub new_session : BrokerOwner → BrokerSession
new_session owner = record {
  owner = owner;
  remote_id = "";
  create_state = CreateState.none;
  retiring = false;
  retired = false;
  proof_digest = "";
  current_prompt = "";
  prompts = [];
  responses = [];
  operations = [];
}

-- brokerEnsureSession, but for the write of a new session: `put_session` makes it.
unfoldable pub ensure_session : Platform → BrokerLedger → BrokerContext → Result BrokerSession
ensure_session p next c = elim (get (owner_key p c.owner) next.sessions) [
  | some session ↦ ok session
  | none ↦ if leb 4096 (length next.sessions) then err storage else ok (new_session c.owner)
]

unfoldable pub put_session : Platform → BrokerContext → BrokerSession → BrokerLedger → BrokerLedger
put_session p c session next = record next {
  sessions = insert (owner_key p c.owner) session next.sessions;
}

-- Another prompt of the session has the prompt id, or the task and its attempt.
same_prompt : BrokerContext → String × BrokerPrompt → Bool
same_prompt c (key, prompt) =
    prompt.identity.prompt_id == c.prompt_id
    || (prompt.identity.task_uid == c.task_uid && prompt.identity.task_attempt == c.task_attempt)

-- `session.Prompts[session.CurrentPrompt]` is there and not settled.
abbrev pub unsettled : Option BrokerPrompt → Bool
unsettled none = false
unsettled (some prompt) = not prompt.settled

unfoldable pub new_prompt : BrokerContext → ℕ → BrokerPrompt
new_prompt c expires = record {
  identity = c;
  lease_generation = c.lease_generation;
  lease_expires_at = expires;
  closing = false;
  settled = false;
  proof_digest = "";
  last_sequence = 0;
  last_alias = "";
  invocations = [];
}

-- The part of brokerEnsurePrompt for a key that the session does not have.
unfoldable pub add_prompt :
    Platform → BrokerSession → BrokerContext → Result (BrokerSession × BrokerPrompt)
unfolding same_prompt
add_prompt p session c = do
  refuse (session.retiring || session.retired) closed
  refuse (any (same_prompt c) session.prompts) conflict
  refuse (unsettled (get session.current_prompt session.prompts)) conflict
  refuse (leb 4096 (length session.prompts)) storage
  elim (p.parse_time c.lease_expires_at) [
    | none ↦ err invalid
    | some expires ↦ ok (
      record session {
        prompts = insert (prompt_key p c) (new_prompt c expires) session.prompts;
        current_prompt = prompt_key p c;
      },
      new_prompt c expires,
    )
  ]

-- brokerEnsurePrompt
unfoldable pub ensure_prompt :
    Platform → BrokerSession → BrokerContext → Result (BrokerSession × BrokerPrompt)
ensure_prompt p session c = elim (get (prompt_key p c) session.prompts) [
  | some prompt ↦ ok (session, prompt)
  | none ↦ add_prompt p session c
]

unfoldable pub put_prompt : Platform → BrokerContext → BrokerPrompt → BrokerSession → BrokerSession
put_prompt p c prompt session = record session {
  prompts = insert (prompt_key p c) prompt session.prompts;
}

-- brokerRecordOperation: whether the operation was there already, or its first record.
unfoldable pub record_operation :
    Platform → BrokerSession → BrokerPath → BrokerContext → Result (BrokerSession × Bool)
record_operation p session path c = elim (get c.operation_id session.operations) [
  | some previous ↦
      if previous == operation_digest p path c then ok (session, true) else err conflict
  | none ↦
      if leb (operation_limit path) (length session.operations)
      then err storage
      else ok (
        record session {
          operations = insert c.operation_id (operation_digest p path c) session.operations;
        },
        false,
      )
]
