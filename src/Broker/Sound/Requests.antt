-- ===== src/Broker/Sound/Requests.antt =====
-- Every request keeps a ledger well-formed: `control` and `reserveInvocation` of internal/broker.
use agent_runtime_foundry.Base.Map.{get, insert, Every-empty, Every-insert, Every-map_values}
use agent_runtime_foundry.Foundry.Responses.{ResponseRequest}
use agent_runtime_foundry.Broker.Types.{
  BrokerContext, BrokerPath, responses, settle, retire, ok, conflict, closed, BrokerPrompt,
  BrokerSession, BrokerLedger, ok-injective, bind-ok, refuse-ok,
}
use agent_runtime_foundry.Broker.Platform.{Platform, owner_key, prompt_key}
use agent_runtime_foundry.Broker.Ledger.{
  ensure_session, put_session, add_prompt, ensure_prompt, put_prompt, record_operation, new_prompt,
  new_session, unsettled,
}
use agent_runtime_foundry.Broker.Control.{
  start_closing, retire_session, renew_prompt, control_prompt, control_session, control_change,
}
use agent_runtime_foundry.Broker.Reserve.{
  Outputs, reserve_prompt, reserve_checks, translate_previous, reserve_change,
}
use agent_runtime_foundry.Broker.Sound.{PromptSound, SessionSound, LedgerSound}
use agent_runtime_foundry.Base.{
  nat_eq, ℕ, String, ◌≡◌, refl, Bool, true, false, some, arith, ◌==◌, inl, inr, string_eq,
  Option-cases, subst, ap,
}

new_session-Sound : (c : BrokerContext) → SessionSound (new_session c.owner)
new_session-Sound c = record {
  prompts_sound = Every-empty _;
  retired_retiring = λ h. cc;
  retired_state = λ h. cc;
  deleted_retired = λ h. cc;
  named_state = refl;
}

pub ensure_session-Sound :
    (p : Platform) (next : BrokerLedger) (c : BrokerContext) (s : BrokerSession)
    → LedgerSound next
    → ensure_session p next c ≡ ok s
    → SessionSound s
unfolding ensure_session
ensure_session-Sound p next c s h e =
    elim (Option-cases (get (owner_key p c.owner) next.sessions)) [
      | inl missing ↦ subst SessionSound (ground (arith, missing)) (new_session-Sound c)
      | inr (t, there) ↦
          subst SessionSound (ground (arith, there)) (h (owner_key p c.owner) t there)
    ]

pub put_session-Sound :
    (p : Platform) (c : BrokerContext) (s : BrokerSession) (next : BrokerLedger)
    → LedgerSound next
    → SessionSound s
    → LedgerSound (put_session p c s next)
unfolding put_session
put_session-Sound p c s next h hs = Every-insert _ (owner_key p c.owner) s next.sessions h hs

-- The record of an operation touches nothing else.
pub record_operation_fields :
    (p : Platform) (s s' : BrokerSession) (path : BrokerPath) (c : BrokerContext) (duplicate : Bool)
    → record_operation p s path c ≡ ok (s', duplicate)
    → record s { operations = s'.operations } ≡ s'
unfolding record_operation
record_operation_fields p s s' path c duplicate e = ground arith

pub record_operation-Sound :
    (p : Platform) (s s' : BrokerSession) (path : BrokerPath) (c : BrokerContext) (duplicate : Bool)
    → SessionSound s
    → record_operation p s path c ≡ ok (s', duplicate)
    → SessionSound s'
record_operation-Sound p s s' path c duplicate h e =
    subst SessionSound (record_operation_fields p s s' path c duplicate e) (record {
      prompts_sound = h.prompts_sound;
      retired_retiring = h.retired_retiring;
      retired_state = h.retired_state;
      deleted_retired = h.deleted_retired;
      named_state = h.named_state;
    })

-- A prompt that starts to close stays well-formed, also in a session that starts to retire.
start_closing-Sound :
    (current key : String) (retiring retired : Bool) (prompt : BrokerPrompt)
    → PromptSound current retiring retired key prompt
    → PromptSound current true retired key (start_closing prompt)
unfolding start_closing
start_closing-Sound current key retiring retired prompt h = ground arith

started-Sound :
    (current key : String) (retiring retired : Bool) (prompt : BrokerPrompt)
    → PromptSound current retiring retired key prompt
    → PromptSound current retiring retired key (start_closing prompt)
unfolding start_closing
started-Sound current key retiring retired prompt h = ground arith

pub retire_session-Sound : (s : BrokerSession) → SessionSound s → SessionSound (retire_session s)
unfolding retire_session
retire_session-Sound s h = record {
  prompts_sound =
      Every-map_values (PromptSound s.current_prompt s.retiring s.retired)
        (PromptSound s.current_prompt true s.retired) start_closing s.prompts
        (λ key prompt. start_closing-Sound s.current_prompt key s.retiring s.retired prompt)
        h.prompts_sound;
  retired_retiring = λ r. refl;
  retired_state = h.retired_state;
  deleted_retired = h.deleted_retired;
  named_state = h.named_state;
}

-- The session with another prompt list, for changes of prompts alone.
pub put_prompt-Sound :
    (p : Platform) (c : BrokerContext) (prompt : BrokerPrompt) (s : BrokerSession)
    → SessionSound s
    → PromptSound s.current_prompt s.retiring s.retired (prompt_key p c) prompt
    → SessionSound (put_prompt p c prompt s)
unfolding put_prompt
put_prompt-Sound p c prompt s h hp = record {
  prompts_sound =
      Every-insert (PromptSound s.current_prompt s.retiring s.retired) (prompt_key p c) prompt
        s.prompts h.prompts_sound hp;
  retired_retiring = h.retired_retiring;
  retired_state = h.retired_state;
  deleted_retired = h.deleted_retired;
  named_state = h.named_state;
}

-- A prompt of a session whose current prompt is settled may stand beside a new current prompt.
other_prompt-Sound :
    (s : BrokerSession) (current key : String) (prompt : BrokerPrompt)
    → s.retiring ≡ false
    → s.retired ≡ false
    → unsettled (get s.current_prompt s.prompts) ≡ false
    → get key s.prompts ≡ some prompt
    → PromptSound s.current_prompt s.retiring s.retired key prompt
    → PromptSound current s.retiring s.retired key prompt
other_prompt-Sound s current key prompt nr nd u g h = record {
  settled_closing = h.settled_closing;
  open_current = λ o.
      let same : key ≡ s.current_prompt = h.open_current o in
      let found : get s.current_prompt s.prompts ≡ some prompt =
        subst (λ k. get k s.prompts ≡ some prompt) same g in
      ground (arith, found);
  retiring_closing = h.retiring_closing;
  retired_settled = h.retired_settled;
}

-- What a new prompt needs, and what it leaves.
add_prompt_inversion :
    (p : Platform) (s s' : BrokerSession) (c : BrokerContext) (prompt : BrokerPrompt)
    → add_prompt p s c ≡ ok (s', prompt)
    → (s.retiring ≡ false)
      × (s.retired ≡ false)
      × (unsettled (get s.current_prompt s.prompts) ≡ false)
      × (prompt.settled ≡ false)
      × (prompt.closing ≡ false)
      × (record s {
        prompts = insert (prompt_key p c) prompt s.prompts;
        current_prompt = prompt_key p c;
      }
          ≡ s')
unfolding add_prompt new_prompt
add_prompt_inversion p s s' c prompt e = ground arith

add_prompt-Sound :
    (p : Platform) (s s' : BrokerSession) (c : BrokerContext) (prompt : BrokerPrompt)
    → SessionSound s
    → add_prompt p s c ≡ ok (s', prompt)
    → SessionSound s' × PromptSound s'.current_prompt s'.retiring s'.retired (prompt_key p c) prompt
add_prompt-Sound p s s' c prompt h e =
    let (nr, nd, u, unsettled_now, fresh, same) = add_prompt_inversion p s s' c prompt e in
    let sound : PromptSound (prompt_key p c) s.retiring s.retired (prompt_key p c) prompt = record {
      settled_closing = λ x. cc;
      open_current = λ x. refl;
      retiring_closing = λ x. cc;
      retired_settled = λ x. cc;
    } in
    subst
      (λ t.
        SessionSound t × PromptSound t.current_prompt t.retiring t.retired (prompt_key p c) prompt)
      same
      (
        record {
          prompts_sound =
              Every-insert (PromptSound (prompt_key p c) s.retiring s.retired) (prompt_key p c)
                prompt s.prompts
                (λ k v g.
                  other_prompt-Sound s (prompt_key p c) k v nr nd u g (h.prompts_sound k v g))
                sound;
          retired_retiring = h.retired_retiring;
          retired_state = h.retired_state;
          deleted_retired = h.deleted_retired;
          named_state = h.named_state;
        },
        sound,
      )

pub ensure_prompt-Sound :
    (p : Platform) (s s' : BrokerSession) (c : BrokerContext) (prompt : BrokerPrompt)
    → SessionSound s
    → ensure_prompt p s c ≡ ok (s', prompt)
    → SessionSound s' × PromptSound s'.current_prompt s'.retiring s'.retired (prompt_key p c) prompt
unfolding ensure_prompt
ensure_prompt-Sound p s s' c prompt h e = elim (Option-cases (get (prompt_key p c) s.prompts)) [
  | inl missing ↦ add_prompt-Sound p s s' c prompt h (rw (missing, ensure_prompt) at e)
  | inr (old, there) ↦
      let same : (s ≡ s') × (old ≡ prompt) = ground (arith, there) in
      subst
        (λ t.
          SessionSound t
          × PromptSound t.current_prompt t.retiring t.retired (prompt_key p c) prompt)
        same.0
        (
          h,
          subst (PromptSound s.current_prompt s.retiring s.retired (prompt_key p c)) same.1
              (h.prompts_sound (prompt_key p c) old there),
        )
]

-- A renewal changes the lease alone.
renew_prompt-Sound :
    (p : Platform) (c : BrokerContext) (now : ℕ) (current key : String) (retiring retired : Bool)
    (prompt renewed : BrokerPrompt)
    → PromptSound current retiring retired key prompt
    → renew_prompt p c now prompt ≡ ok renewed
    → PromptSound current retiring retired key renewed
unfolding renew_prompt
renew_prompt-Sound p c now current key retiring retired prompt renewed h e = ground arith

control_prompt-Sound :
    (p : Platform) (path : BrokerPath) (c : BrokerContext) (now : ℕ) (duplicate : Bool)
    (s r : BrokerSession) (prompt : BrokerPrompt)
    → SessionSound s
    → PromptSound s.current_prompt s.retiring s.retired (prompt_key p c) prompt
    → control_prompt p path c now duplicate (s, prompt) ≡ ok r
    → SessionSound r
unfolding control_prompt
control_prompt-Sound p settle c now duplicate s r prompt h hp e =
    subst SessionSound (ground (arith, e)) (
      put_prompt-Sound p c (start_closing prompt) s h
        (started-Sound s.current_prompt (prompt_key p c) s.retiring s.retired prompt hp))
control_prompt-Sound p path c now true s r prompt h hp e = subst SessionSound (ok-injective e) h
control_prompt-Sound p path c now false s r prompt h hp e =
    let (renewed, re, rest) = bind-ok (renew_prompt p c now prompt) _ e in
    subst SessionSound (ok-injective rest) (
      put_prompt-Sound p c renewed s h (
        renew_prompt-Sound p c now s.current_prompt (prompt_key p c) s.retiring s.retired prompt
          renewed hp re))

control_session-Sound :
    (p : Platform) (path : BrokerPath) (c : BrokerContext) (now : ℕ) (s r : BrokerSession)
    (duplicate : Bool)
    → SessionSound s
    → control_session p path c now (s, duplicate) ≡ ok r
    → SessionSound r
unfolding control_session
control_session-Sound p retire c now s r duplicate h e =
    subst SessionSound (ok-injective e) (retire_session-Sound s h)
control_session-Sound p path c now s r duplicate h e =
    let (allowed, e1) = refuse-ok _ closed _ e in
    let ((s', prompt), found, e2) = bind-ok (ensure_prompt p s c) _ e1 in
    let (hs, hp) = ensure_prompt-Sound p s s' c prompt h found in
    control_prompt-Sound p path c now duplicate s' r prompt hs hp e2

-- A renewal, settlement or retirement that changes the ledger keeps it well-formed.
pub control_change-Sound :
    (p : Platform) (path : BrokerPath) (c : BrokerContext) (now : ℕ) (next after : BrokerLedger)
    → LedgerSound next
    → control_change p path c now next ≡ ok after
    → LedgerSound after
unfolding control_change
control_change-Sound p path c now next after h e =
    let (s, found, e1) = bind-ok (ensure_session p next c) _ e in
    let ((s', duplicate), recorded, e2) = bind-ok (record_operation p s path c) _ e1 in
    let (r, changed, e3) = bind-ok (control_session p path c now (s', duplicate)) _ e2 in
    subst LedgerSound (ok-injective e3) (
      put_session-Sound p c r next h (
        control_session-Sound p path c now s' r duplicate
          (record_operation-Sound p s s' path c duplicate (ensure_session-Sound p next c s h found)
            recorded)
          changed))

reserve_prompt-Sound :
    (c : BrokerContext) (current key : String) (retiring retired : Bool) (prompt : BrokerPrompt)
    → PromptSound current retiring retired key prompt
    → PromptSound current retiring retired key (reserve_prompt c prompt)
unfolding reserve_prompt
reserve_prompt-Sound c current key retiring retired prompt h = ground arith

-- An admitted request for a response keeps the ledger well-formed.
pub reserve_change-Sound :
    (p : Platform) (outputs : Outputs) (c : BrokerContext) (now : ℕ)
    (request final : ResponseRequest) (next after : BrokerLedger)
    → LedgerSound next
    → reserve_change p outputs c now request next ≡ ok (after, final)
    → LedgerSound after
unfolding reserve_change
reserve_change-Sound p outputs c now request final next after h e =
    let (s, found, e1) = bind-ok (ensure_session p next c) _ e in
    let (active, e2) = refuse-ok _ closed _ e1 in
    let ((s', duplicate), recorded, e3) = bind-ok (record_operation p s responses c) _ e2 in
    let (first, e4) = refuse-ok _ conflict _ e3 in
    let ((s'', prompt), there, e5) = bind-ok (ensure_prompt p s' c) _ e4 in
    let (checked, done, e6) = bind-ok (reserve_checks p c now request prompt) _ e5 in
    let (translated, moved, e7) =
      bind-ok (translate_previous p s'' c (prompt.last_sequence == 0) request) _ e6 in
    let (out, put, e8) = bind-ok (outputs translated) _ e7 in
    let hs : SessionSound s' =
      record_operation-Sound p s s' responses c duplicate (ensure_session-Sound p next c s h found)
        recorded in
    let (hs', hp) = ensure_prompt-Sound p s' s'' c prompt hs there in
    subst LedgerSound (ap (λ r. r.0) (ok-injective e8)) (
      put_session-Sound p c (put_prompt p c (reserve_prompt c prompt) s'') next h (
        put_prompt-Sound p c (reserve_prompt c prompt) s'' hs' (
          reserve_prompt-Sound c s''.current_prompt (prompt_key p c) s''.retiring s''.retired prompt
            hp)))
