-- ===== src/Broker/System/Once.antt =====
-- An operation is admitted once: reserveInvocation records it, and no later admission of it succeeds,
-- whatever the broker did in between.
use agent_runtime_foundry.Base.Map.{get, insert, get-insert_self}
use agent_runtime_foundry.Foundry.Responses.{ResponseRequest}
use agent_runtime_foundry.Broker.Types.{
  BrokerContext, BrokerPath, responses, ok, conflict, closed, BrokerPrompt, BrokerSession,
  BrokerLedger, ok-injective, bind-ok, refuse-ok,
}
use agent_runtime_foundry.Broker.Platform.{Platform, owner_key, operation_digest}
use agent_runtime_foundry.Broker.Ledger.{
  ensure_session, put_session, ensure_prompt, put_prompt, record_operation,
}
use agent_runtime_foundry.Broker.Reserve.{
  Outputs, reserve_prompt, reserve_checks, translate_previous, reserve_change,
}
use agent_runtime_foundry.Broker.Progress.{LedgerKept}
use agent_runtime_foundry.Broker.Progress.Requests.{ensure_prompt-Kept, ensure_session_there}
use agent_runtime_foundry.Broker.System.{System, Reaches}
use agent_runtime_foundry.Broker.System.Invariant.{reachable-Kept}
use agent_runtime_foundry.Base.{
  ℕ, String, ◌≡◌, ◌≢◌, ap, sym, subst, Bool, true, false, some, Option-cases, inl, inr, arith, ◌==◌,
  nat_eq, string_eq,
}

-- The ledger has an operation of an owner.
abbrev pub Recorded : BrokerLedger → String → String → Type 0
Recorded l key operation =
    (s : BrokerSession) × (get key l.sessions ≡ some s)
    × (d : String) × (get operation s.operations ≡ some d)

record_operation-Recorded :
    (p : Platform) (s s' : BrokerSession) (path : BrokerPath) (c : BrokerContext) (duplicate : Bool)
    → record_operation p s path c ≡ ok (s', duplicate)
    → (d : String) × (get c.operation_id s'.operations ≡ some d)
unfolding record_operation
record_operation-Recorded p s s' path c duplicate e =
    elim (Option-cases (get c.operation_id s.operations)) [
      | inl missing ↦
          let new = operation_digest p path c in
          let same : insert c.operation_id new s.operations ≡ s'.operations =
            ground (arith, missing) in
          (
            new,
            subst (λ m. get c.operation_id m ≡ some new) same
                (get-insert_self c.operation_id new s.operations),
          )
      | inr (d, there) ↦
          let same : s.operations ≡ s'.operations = ground (arith, there) in
          (d, subst (λ m. get c.operation_id m ≡ some d) same there)
    ]

-- A known operation is a duplicate, or another one's digest.
seen_duplicate :
    (p : Platform) (s s' : BrokerSession) (path : BrokerPath) (c : BrokerContext) (duplicate : Bool)
    (d : String)
    → get c.operation_id s.operations ≡ some d
    → record_operation p s path c ≡ ok (s', duplicate)
    → duplicate ≡ true
unfolding record_operation
seen_duplicate p s s' path c duplicate d there e = ground (arith, there)

put_session-Recorded :
    (p : Platform) (c : BrokerContext) (s : BrokerSession) (next : BrokerLedger)
    (operation d : String)
    → get operation s.operations ≡ some d
    → Recorded (put_session p c s next) (owner_key p c.owner) operation
unfolding put_session
put_session-Recorded p c s next operation d there =
    (s, get-insert_self (owner_key p c.owner) s next.sessions, d, there)

put_prompt_operations :
    (p : Platform) (c : BrokerContext) (prompt : BrokerPrompt) (s : BrokerSession)
    (operation d : String)
    → get operation s.operations ≡ some d
    → get operation (put_prompt p c prompt s).operations ≡ some d
unfolding put_prompt
put_prompt_operations p c prompt s operation d there = there

clash : {b : Bool} → b ≡ true → b ≡ false → ⊥
clash h k = cc

pub reserve_change-Recorded :
    (p : Platform) (outputs : Outputs) (c : BrokerContext) (now : ℕ)
    (request final : ResponseRequest) (next after : BrokerLedger)
    → reserve_change p outputs c now request next ≡ ok (after, final)
    → Recorded after (owner_key p c.owner) c.operation_id
unfolding reserve_change
reserve_change-Recorded p outputs c now request final next after e =
    let (s, found, e1) = bind-ok (ensure_session p next c) _ e in
    let (active, e2) = refuse-ok _ closed _ e1 in
    let ((s', duplicate), recorded, e3) = bind-ok (record_operation p s responses c) _ e2 in
    let (first, e4) = refuse-ok _ conflict _ e3 in
    let ((s'', prompt), there, e5) = bind-ok (ensure_prompt p s' c) _ e4 in
    let (checked, done, e6) = bind-ok (reserve_checks p c now request prompt) _ e5 in
    let (translated, moved, e7) =
      bind-ok (translate_previous p s'' c (prompt.last_sequence == 0) request) _ e6 in
    let (out, put, e8) = bind-ok (outputs translated) _ e7 in
    let (d, is_there) = record_operation-Recorded p s s' responses c duplicate recorded in
    let (d', kept, _) =
      (ensure_prompt-Kept p c s' s'' prompt there).operations_kept c.operation_id d is_there in
    let written : BrokerSession = put_prompt p c (reserve_prompt c prompt) s'' in
    subst (λ l. Recorded l (owner_key p c.owner) c.operation_id) (ap (λ r. r.0) (ok-injective e8))
      (put_session-Recorded p c written next c.operation_id d'
        (put_prompt_operations p c (reserve_prompt c prompt) s'' c.operation_id d' kept))

Recorded-Kept :
    (l l' : BrokerLedger) (key operation : String)
    → LedgerKept l l'
    → Recorded l key operation
    → Recorded l' key operation
Recorded-Kept l l' key operation kept (s, there, d, has) =
    let (s', there', forward) = kept key s there in
    let (d', has', _) = forward.operations_kept operation d has in (s', there', d', has')

pub Recorded-refused :
    (p : Platform) (outputs : Outputs) (c : BrokerContext) (now : ℕ) (request : ResponseRequest)
    (next : BrokerLedger) (result : BrokerLedger × ResponseRequest)
    → Recorded next (owner_key p c.owner) c.operation_id
    → reserve_change p outputs c now request next ≢ ok result
unfolding reserve_change
Recorded-refused p outputs c now request next result (s0, there, d, has) e =
    let (s, found, e1) = bind-ok (ensure_session p next c) _ e in
    let (active, e2) = refuse-ok _ closed _ e1 in
    let ((s', duplicate), recorded, e3) = bind-ok (record_operation p s responses c) _ e2 in
    let (first, e4) = refuse-ok _ conflict _ e3 in
    let same : s0 ≡ s = ensure_session_there p next c s s0 found there in
    let has' : get c.operation_id s.operations ≡ some d =
      subst (λ t. get c.operation_id t.operations ≡ some d) same has in
    clash (seen_duplicate p s s' responses c duplicate d has' recorded) first

-- A request that was admitted is not admitted again: in every ledger that the steps of the broker reach
-- from the one that the admission wrote, a request of the same owner with the same operation id is
-- refused, at any time, whatever its other fields and its body are. A creation that ends has its intent
-- in the ledger.
pub reserve_change-once :
    (p : Platform) (outputs : Outputs) (c c' : BrokerContext) (now now' : ℕ)
    (request request' final : ResponseRequest) (next : BrokerLedger) (x y : System)
    (result : BrokerLedger × ResponseRequest)
    → reserve_change p outputs c now request next ≡ ok (x.ledger, final)
    → Reaches p x y
    → c'.owner ≡ c.owner
    → c'.operation_id ≡ c.operation_id
    → reserve_change p outputs c' now' request' y.ledger ≢ ok result
reserve_change-once p outputs c c' now now' request request' final next x y result e run owner
      same =
    let first = reserve_change-Recorded p outputs c now request final next x.ledger e in
    let later =
      Recorded-Kept x.ledger y.ledger (owner_key p c.owner) c.operation_id
        (reachable-Kept p x y run) first in
    Recorded-refused p outputs c' now' request' y.ledger result (
      subst (λ o. Recorded y.ledger (owner_key p o) c'.operation_id) (sym owner)
        (subst (Recorded y.ledger (owner_key p c.owner)) (sym same) later))
