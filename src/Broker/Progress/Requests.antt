-- ===== src/Broker/Progress/Requests.antt =====
-- Every request goes forward: `control` and `reserveInvocation` of internal/broker.
use agent_runtime_foundry.Base.Map.{
  get, get-insert_self, insert, Grown, Grown-refl, Grown-insert, Grown-map_values,
}
use agent_runtime_foundry.Foundry.Responses.{ResponseRequest}
use agent_runtime_foundry.Broker.Types.{
  BrokerContext, BrokerPath, responses, settle, retire, ok, conflict, closed, BrokerPrompt,
  BrokerSession, BrokerLedger, ok-injective, bind-ok, refuse-ok,
}
use agent_runtime_foundry.Broker.Platform.{Platform, owner_key, prompt_key, operation_digest}
use agent_runtime_foundry.Broker.Ledger.{
  ensure_session, put_session, add_prompt, ensure_prompt, put_prompt, record_operation,
}
use agent_runtime_foundry.Broker.Control.{
  start_closing, retire_session, renew_prompt, control_prompt, control_session, control_change,
}
use agent_runtime_foundry.Broker.Reserve.{
  Outputs, reserve_prompt, reserve_checks, translate_previous, reserve_change,
}
use agent_runtime_foundry.Broker.Sound.Requests.{record_operation_fields}
use agent_runtime_foundry.Broker.Progress.{
  PromptKept, SessionKept, LedgerKept, Same, same_flags-Kept, PromptKept-refl, SessionKept-refl,
  SessionKept-trans, put_session-Kept, put_prompt-Kept,
}
use agent_runtime_foundry.Base.{
  nat_eq, ℕ, ◌≡◌, refl, Bool, true, false, none, some, arith, ◌==◌, inl, inr, string_eq,
  Option-cases, sym, subst, ap, ◌∙◌, ◌<◌, some-injective,
}

-- The session that a request works on is the one that the ledger has.
pub ensure_session_there :
    (p : Platform) (next : BrokerLedger) (c : BrokerContext) (s old : BrokerSession)
    → ensure_session p next c ≡ ok s
    → get (owner_key p c.owner) next.sessions ≡ some old
    → old ≡ s
unfolding ensure_session
ensure_session_there p next c s old e there = ground (arith, there)

pub ensure_prompt_there :
    (p : Platform) (c : BrokerContext) (s s' : BrokerSession) (prompt old : BrokerPrompt)
    → ensure_prompt p s c ≡ ok (s', prompt)
    → get (prompt_key p c) s.prompts ≡ some old
    → (s ≡ s') × (old ≡ prompt)
unfolding ensure_prompt
ensure_prompt_there p c s s' prompt old e there = ground (arith, there)

-- The operations that a request finds are kept.
recorded_operations :
    (p : Platform) (s s' : BrokerSession) (path : BrokerPath) (c : BrokerContext) (duplicate : Bool)
    → record_operation p s path c ≡ ok (s', duplicate)
    → Grown Same s.operations s'.operations
unfolding record_operation
recorded_operations p s s' path c duplicate e =
    elim (Option-cases (get c.operation_id s.operations)) [
      | inl missing ↦
          let same : insert c.operation_id (operation_digest p path c) s.operations
              ≡ s'.operations =
            ground (arith, missing) in
          subst (Grown Same s.operations) same (
            Grown-insert Same (λ v. refl) c.operation_id (operation_digest p path c) s.operations
              (λ v g. cc (g, missing)))
      | inr (d, there) ↦
          let same : s.operations ≡ s'.operations = ground (arith, there) in
          subst (Grown Same s.operations) same (Grown-refl Same (λ v. refl) s.operations)
    ]

pub record_operation-Kept :
    (p : Platform) (s s' : BrokerSession) (path : BrokerPath) (c : BrokerContext) (duplicate : Bool)
    → record_operation p s path c ≡ ok (s', duplicate)
    → SessionKept s s'
record_operation-Kept p s s' path c duplicate e =
    subst (SessionKept s) (record_operation_fields p s s' path c duplicate e) (record {
      prompts_kept = Grown-refl PromptKept PromptKept-refl s.prompts;
      operations_kept = recorded_operations p s s' path c duplicate e;
      retiring_kept = λ x. x;
      retired_kept = λ x. x;
      state_kept = λ x. inr (inl refl);
    })

added_prompt :
    (p : Platform) (c : BrokerContext) (s s' : BrokerSession) (prompt : BrokerPrompt)
    → get (prompt_key p c) s.prompts ≡ none
    → ensure_prompt p s c ≡ ok (s', prompt)
    → record s {
      prompts = insert (prompt_key p c) prompt s.prompts;
      current_prompt = prompt_key p c;
    }
      ≡ s'
unfolding ensure_prompt add_prompt
added_prompt p c s s' prompt missing e = ground (arith, missing)

pub ensure_prompt-Kept :
    (p : Platform) (c : BrokerContext) (s s' : BrokerSession) (prompt : BrokerPrompt)
    → ensure_prompt p s c ≡ ok (s', prompt)
    → SessionKept s s'
ensure_prompt-Kept p c s s' prompt e = elim (Option-cases (get (prompt_key p c) s.prompts)) [
  | inr (old, there) ↦
      subst (SessionKept s) (ensure_prompt_there p c s s' prompt old e there).0 (SessionKept-refl s)
  | inl missing ↦ subst (SessionKept s) (added_prompt p c s s' prompt missing e) (
      same_flags-Kept s
        (record s {
          prompts = insert (prompt_key p c) prompt s.prompts;
          current_prompt = prompt_key p c;
        })
        (Grown-insert PromptKept PromptKept-refl (prompt_key p c) prompt s.prompts
          (λ v g. cc (g, missing)))
        refl refl refl refl)
]

start_closing-Kept : (prompt : BrokerPrompt) → PromptKept prompt (start_closing prompt)
unfolding start_closing
start_closing-Kept prompt = record {
  identity_kept = refl;
  closing_kept = λ x. refl;
  settled_kept = λ x. x;
  sequence_kept = omega arith;
}

pub retire_session-Kept : (s : BrokerSession) → SessionKept s (retire_session s)
unfolding retire_session
retire_session-Kept s = record {
  prompts_kept = Grown-map_values PromptKept start_closing s.prompts start_closing-Kept;
  operations_kept = Grown-refl Same (λ v. refl) s.operations;
  retiring_kept = λ x. refl;
  retired_kept = λ x. x;
  state_kept = λ x. inr (inl refl);
}

renew_prompt-Kept :
    (p : Platform) (c : BrokerContext) (now : ℕ) (prompt renewed : BrokerPrompt)
    → renew_prompt p c now prompt ≡ ok renewed
    → PromptKept prompt renewed
unfolding renew_prompt
renew_prompt-Kept p c now prompt renewed e = ground arith

-- The prompt that a request works on is in the session that it works on.
ensured_prompt :
    (p : Platform) (c : BrokerContext) (s s' : BrokerSession) (prompt : BrokerPrompt)
    → ensure_prompt p s c ≡ ok (s', prompt)
    → get (prompt_key p c) s'.prompts ≡ some prompt
ensured_prompt p c s s' prompt e = elim (Option-cases (get (prompt_key p c) s.prompts)) [
  | inr (old, there) ↦
      let same = ensure_prompt_there p c s s' prompt old e there in
      subst (λ t. get (prompt_key p c) t.prompts ≡ some prompt) same.0 (there ∙ ap some same.1)
  | inl missing ↦
      subst (λ t. get (prompt_key p c) t.prompts ≡ some prompt)
        (added_prompt p c s s' prompt missing e) (get-insert_self (prompt_key p c) prompt s.prompts)
]

-- The write of a prompt that goes forward from the one that the session has.
forward :
    (p : Platform) (c : BrokerContext) (s : BrokerSession) (prompt new : BrokerPrompt)
    → get (prompt_key p c) s.prompts ≡ some prompt
    → PromptKept prompt new
    → SessionKept s (put_prompt p c new s)
forward p c s prompt new there kept =
    put_prompt-Kept p c new s
      (λ old g. subst (λ x. PromptKept x new) (some-injective _ _ (sym there ∙ g)) kept)

control_prompt-Kept :
    (p : Platform) (path : BrokerPath) (c : BrokerContext) (now : ℕ) (duplicate : Bool)
    (s r : BrokerSession) (prompt : BrokerPrompt)
    → get (prompt_key p c) s.prompts ≡ some prompt
    → control_prompt p path c now duplicate (s, prompt) ≡ ok r
    → SessionKept s r
unfolding control_prompt
control_prompt-Kept p settle c now duplicate s r prompt there e =
    subst (SessionKept s) (ok-injective e)
      (forward p c s prompt (start_closing prompt) there (start_closing-Kept prompt))
control_prompt-Kept p path c now true s r prompt there e =
    subst (SessionKept s) (ok-injective e) (SessionKept-refl s)
control_prompt-Kept p path c now false s r prompt there e =
    let (renewed, re, rest) = bind-ok (renew_prompt p c now prompt) _ e in
    subst (SessionKept s) (ok-injective rest)
      (forward p c s prompt renewed there (renew_prompt-Kept p c now prompt renewed re))

control_session-Kept :
    (p : Platform) (path : BrokerPath) (c : BrokerContext) (now : ℕ) (s r : BrokerSession)
    (duplicate : Bool)
    → control_session p path c now (s, duplicate) ≡ ok r
    → SessionKept s r
unfolding control_session
control_session-Kept p retire c now s r duplicate e =
    subst (SessionKept s) (ok-injective e) (retire_session-Kept s)
control_session-Kept p path c now s r duplicate e =
    let (allowed, e1) = refuse-ok _ closed _ e in
    let ((s', prompt), found, e2) = bind-ok (ensure_prompt p s c) _ e1 in
    SessionKept-trans s s' r (ensure_prompt-Kept p c s s' prompt found) (
      control_prompt-Kept p path c now duplicate s' r prompt (ensured_prompt p c s s' prompt found)
        e2)

-- The write of a session that goes forward from the one that the request found.
forward_session :
    (p : Platform) (c : BrokerContext) (next : BrokerLedger) (s new : BrokerSession)
    → ensure_session p next c ≡ ok s
    → SessionKept s new
    → LedgerKept next (put_session p c new next)
forward_session p c next s new found kept = put_session-Kept p c new next (λ old there.
    subst (λ x. SessionKept x new) (sym (ensure_session_there p next c s old found there)) kept)

pub control_change-Kept :
    (p : Platform) (path : BrokerPath) (c : BrokerContext) (now : ℕ) (next after : BrokerLedger)
    → control_change p path c now next ≡ ok after
    → LedgerKept next after
unfolding control_change
control_change-Kept p path c now next after e =
    let (s, found, e1) = bind-ok (ensure_session p next c) _ e in
    let ((s', duplicate), recorded, e2) = bind-ok (record_operation p s path c) _ e1 in
    let (r, changed, e3) = bind-ok (control_session p path c now (s', duplicate)) _ e2 in
    subst (LedgerKept next) (ok-injective e3) (
      forward_session p c next s r found (
        SessionKept-trans s s' r (record_operation-Kept p s s' path c duplicate recorded)
          (control_session-Kept p path c now s' r duplicate changed)))

-- An admitted request has a higher sequence than its prompt had.
pub reserved_sequence :
    (p : Platform) (c : BrokerContext) (now : ℕ) (request : ResponseRequest) (prompt : BrokerPrompt)
    (u : Unit {0})
    → reserve_checks p c now request prompt ≡ ok u
    → prompt.last_sequence < c.invocation_sequence
unfolding reserve_checks
reserved_sequence p c now request prompt u e = ground arith

reserve_prompt-Kept :
    (c : BrokerContext) (prompt : BrokerPrompt)
    → prompt.last_sequence < c.invocation_sequence
    → PromptKept prompt (reserve_prompt c prompt)
unfolding reserve_prompt
reserve_prompt-Kept c prompt higher = record {
  identity_kept = refl;
  closing_kept = λ x. x;
  settled_kept = λ x. x;
  sequence_kept = omega arith;
}

pub reserve_change-Kept :
    (p : Platform) (outputs : Outputs) (c : BrokerContext) (now : ℕ)
    (request final : ResponseRequest) (next after : BrokerLedger)
    → reserve_change p outputs c now request next ≡ ok (after, final)
    → LedgerKept next after
unfolding reserve_change
reserve_change-Kept p outputs c now request final next after e =
    let (s, found, e1) = bind-ok (ensure_session p next c) _ e in
    let (active, e2) = refuse-ok _ closed _ e1 in
    let ((s', duplicate), recorded, e3) = bind-ok (record_operation p s responses c) _ e2 in
    let (first, e4) = refuse-ok _ conflict _ e3 in
    let ((s'', prompt), there, e5) = bind-ok (ensure_prompt p s' c) _ e4 in
    let (checked, done, e6) = bind-ok (reserve_checks p c now request prompt) _ e5 in
    let (translated, moved, e7) =
      bind-ok (translate_previous p s'' c (prompt.last_sequence == 0) request) _ e6 in
    let (out, put, e8) = bind-ok (outputs translated) _ e7 in
    subst (LedgerKept next) (ap (λ r. r.0) (ok-injective e8)) (
      forward_session p c next s (put_prompt p c (reserve_prompt c prompt) s'') found (
        SessionKept-trans s s' (put_prompt p c (reserve_prompt c prompt) s'')
          (record_operation-Kept p s s' responses c duplicate recorded)
          (SessionKept-trans s' s'' (put_prompt p c (reserve_prompt c prompt) s'')
            (ensure_prompt-Kept p c s' s'' prompt there)
            (forward p c s'' prompt (reserve_prompt c prompt)
              (ensured_prompt p c s' s'' prompt there)
              (reserve_prompt-Kept c prompt
                (reserved_sequence p c now request prompt checked done))))))
