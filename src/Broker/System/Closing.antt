-- ===== src/Broker/System/Closing.antt =====
-- A prompt that closes gets no more work: the commits of internal/broker that admit it, let it be sent
-- or release its output ask for it. What was sent for it before may still end.
use agent_runtime_foundry.Base.Map.{get}
use agent_runtime_foundry.Foundry.Responses.{Response, ResponseRequest, StreamSummary}
use agent_runtime_foundry.Broker.Types.{
  BrokerContext, responses, ok, conflict, closed, BrokerPrompt, BrokerSession, BrokerLedger,
  bind-ok, refuse-ok, deref-ok,
}
use agent_runtime_foundry.Broker.Platform.{Platform, owner_key, prompt_key}
use agent_runtime_foundry.Broker.Ledger.{ensure_session, ensure_prompt, record_operation}
use agent_runtime_foundry.Broker.Reserve.{Outputs, reserve_checks, reserve_change}
use agent_runtime_foundry.Broker.Invoke.{
  find_session, find_prompt, find_invocation, authority, intend_create, intend_invocation,
}
use agent_runtime_foundry.Broker.Response.{complete_change}
use agent_runtime_foundry.Broker.Progress.{LedgerKept}
use agent_runtime_foundry.Broker.Progress.Requests.{
  ensure_session_there, ensure_prompt_there, record_operation-Kept,
}
use agent_runtime_foundry.Broker.System.{System, Reaches}
use agent_runtime_foundry.Broker.System.Invariant.{reachable-Kept}
use agent_runtime_foundry.Base.{
  ℕ, String, ◌≡◌, ◌≢◌, ◌∙◌, sym, subst, Bool, true, false, ◌||◌, some, some-injective, arith, leb,
  nat_eq, string_eq,
}

-- The ledger has a closing prompt for a context.
abbrev pub Closing : Platform → BrokerContext → BrokerLedger → Type 0
Closing p c l =
    (s : BrokerSession) × (get (owner_key p c.owner) l.sessions ≡ some s)
    × (prompt : BrokerPrompt) × (get (prompt_key p c) s.prompts ≡ some prompt)
    × (prompt.closing ≡ true)

Closing-Kept :
    (p : Platform) (c : BrokerContext) (l l' : BrokerLedger)
    → LedgerKept l l'
    → Closing p c l
    → Closing p c l'
Closing-Kept p c l l' kept (s, there, prompt, has, closes) =
    let (s', there', forward) = kept (owner_key p c.owner) s there in
    let (prompt', has', on) = forward.prompts_kept (prompt_key p c) prompt has in
    (s', there', prompt', has', on.closing_kept closes)

-- The prompt that a change finds is the closing one.
found_closing :
    (p : Platform) (c : BrokerContext) (l : BrokerLedger) (s : BrokerSession)
    (prompt : BrokerPrompt)
    → Closing p c l
    → find_session p c l ≡ ok s
    → find_prompt p c s ≡ ok prompt
    → prompt.closing ≡ true
unfolding find_session find_prompt
found_closing p c l s prompt (s0, there, old, has, closes) e1 e2 =
    let same : s0 ≡ s = some-injective _ _ (sym there ∙ deref-ok _ e1) in
    let has' : get (prompt_key p c) s.prompts ≡ some old =
      subst (λ t. get (prompt_key p c) t.prompts ≡ some old) same has in
    let same' : old ≡ prompt = some-injective _ _ (sym has' ∙ deref-ok _ e2) in
    subst (λ q. q.closing ≡ true) same' closes

authority_open :
    (s : BrokerSession) (prompt : BrokerPrompt) (ended : Bool) (now : ℕ) (u : Unit {0})
    → authority s prompt ended now ≡ ok u
    → prompt.closing ≡ false
unfolding authority
authority_open s prompt ended now u e = ground arith

checks_open :
    (p : Platform) (c : BrokerContext) (now : ℕ) (request : ResponseRequest) (prompt : BrokerPrompt)
    (u : Unit {0})
    → reserve_checks p c now request prompt ≡ ok u
    → prompt.closing ≡ false
unfolding reserve_checks
checks_open p c now request prompt u e = ground arith

clash : {b : Bool} → b ≡ true → b ≡ false → ⊥
clash h k = cc

completion_open :
    (prompt : BrokerPrompt) (late : Bool)
    → (prompt.closing || late) ≡ false
    → prompt.closing ≡ false
completion_open prompt late h = ground arith

module _ (p : Platform) (c : BrokerContext) (l : BrokerLedger) (closing : Closing p c l) where
  create_refused :
      (ended : Bool) (now : ℕ) (id : String) (after : BrokerLedger)
      → intend_create p c ended now id l ≢ ok after
  unfolding intend_create
  create_refused ended now id after e =
      let (s, found, e1) = bind-ok (find_session p c l) _ e in
      let (prompt, there, e2) = bind-ok (find_prompt p c s) _ e1 in
      let (allowed, held, e3) = bind-ok (authority s prompt ended now) _ e2 in
      clash (found_closing p c l s prompt closing found there)
        (authority_open s prompt ended now allowed held)

  submit_refused :
      (ended : Bool) (now : ℕ) (after : BrokerLedger) → intend_invocation p c ended now l ≢ ok after
  unfolding intend_invocation
  submit_refused ended now after e =
      let (s, found, e1) = bind-ok (find_session p c l) _ e in
      let (prompt, there, e2) = bind-ok (find_prompt p c s) _ e1 in
      let (allowed, held, e3) = bind-ok (authority s prompt ended now) _ e2 in
      clash (found_closing p c l s prompt closing found there)
        (authority_open s prompt ended now allowed held)

  complete_refused :
      (now : ℕ) (uuids : ℕ → String) (summary : StreamSummary) (result : BrokerLedger × Response)
      → complete_change p c now uuids summary l ≢ ok result
  unfolding complete_change
  complete_refused now uuids summary result e =
      let (s, found, e1) = bind-ok (find_session p c l) _ e in
      let (prompt, there, e2) = bind-ok (find_prompt p c s) _ e1 in
      let (invocation, here, e3) = bind-ok (find_invocation c prompt) _ e2 in
      let (named, e4) = refuse-ok _ conflict _ e3 in
      let (live, e5) = refuse-ok (prompt.closing || leb prompt.lease_expires_at now) closed _ e4 in
      clash (found_closing p c l s prompt closing found there)
        (completion_open prompt (leb prompt.lease_expires_at now) live)

  reserve_refused :
      (outputs : Outputs) (now : ℕ) (request : ResponseRequest)
      (result : BrokerLedger × ResponseRequest)
      → reserve_change p outputs c now request l ≢ ok result
  unfolding reserve_change
  reserve_refused outputs now request result e =
      let (s0, at, old, has, closes) = closing in
      let (s, found, e1) = bind-ok (ensure_session p l c) _ e in
      let (active, e2) = refuse-ok _ closed _ e1 in
      let ((s', duplicate), recorded, e3) = bind-ok (record_operation p s responses c) _ e2 in
      let (first, e4) = refuse-ok _ conflict _ e3 in
      let ((s'', prompt), there, e5) = bind-ok (ensure_prompt p s' c) _ e4 in
      let (checked, done, e6) = bind-ok (reserve_checks p c now request prompt) _ e5 in
      let same : s0 ≡ s = ensure_session_there p l c s s0 found at in
      let has' : get (prompt_key p c) s.prompts ≡ some old =
        subst (λ t. get (prompt_key p c) t.prompts ≡ some old) same has in
      let (old', has'', on) =
        (record_operation-Kept p s s' responses c duplicate recorded).prompts_kept (prompt_key p c)
          old has' in
      let is_prompt : old' ≡ prompt = (ensure_prompt_there p c s' s'' prompt old' there has'').1 in
      clash (subst (λ q. q.closing ≡ true) is_prompt (on.closing_kept closes))
        (checks_open p c now request prompt checked done)

-- What a closing prompt refuses: another response, a new intent to create the remote session, a new
-- intent to submit an invocation, and the release of a completed response.
pub record Refused (p : Platform) (c : BrokerContext) (l : BrokerLedger) : Type 0 where
  pub no_reserve :
      (outputs : Outputs) (now : ℕ) (request : ResponseRequest)
      (result : BrokerLedger × ResponseRequest)
      → reserve_change p outputs c now request l ≢ ok result
  pub no_create :
      (ended : Bool) (now : ℕ) (id : String) (after : BrokerLedger)
      → intend_create p c ended now id l ≢ ok after
  pub no_submit :
      (ended : Bool) (now : ℕ) (after : BrokerLedger) → intend_invocation p c ended now l ≢ ok after
  pub no_complete :
      (now : ℕ) (uuids : ℕ → String) (summary : StreamSummary) (result : BrokerLedger × Response)
      → complete_change p c now uuids summary l ≢ ok result

-- Once a prompt is closing, then in any ledger that the steps of the broker reach every commit for its
-- context is refused that would admit a response, write the intent to create the remote session, write
-- the intent to submit an invocation, or release a completed output. A creation or a submission whose
-- intent was written before is not spoken of: the source lets it end.
pub Closing-Refused :
    (p : Platform) (c : BrokerContext) (x y : System)
    → Closing p c x.ledger
    → Reaches p x y
    → Refused p c y.ledger
Closing-Refused p c x y closing run =
    let later = Closing-Kept p c x.ledger y.ledger (reachable-Kept p x y run) closing in
    record {
      no_reserve = reserve_refused p c y.ledger later;
      no_create = create_refused p c y.ledger later;
      no_submit = submit_refused p c y.ledger later;
      no_complete = complete_refused p c y.ledger later;
    }
