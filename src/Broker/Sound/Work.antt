-- ===== src/Broker/Sound/Work.antt =====
-- The work on an admitted request keeps a ledger well-formed: the creation of the remote session, the
-- submission, the response and the end of an invocation.
use agent_runtime_foundry.Base.Map.{Map, get, insert, Every-insert}
use agent_runtime_foundry.Foundry.Responses.{Response, StreamSummary}
use agent_runtime_foundry.Broker.Types.{
  BrokerContext, BrokerError, ok, conflict, closed, BrokerInvocation, BrokerPrompt, BrokerSession,
  BrokerLedger, BrokerResponseId, CreateState, ok-injective, bind-ok, refuse-ok, deref-ok,
}
use agent_runtime_foundry.Broker.Platform.{Platform, owner_key, prompt_key}
use agent_runtime_foundry.Broker.Invoke.{
  find_session, find_prompt, find_invocation, put_invocation, authority, intend_create,
  settle_create, intend_invocation, reject_invocation, finish_change, close_change, pin_change,
}
use agent_runtime_foundry.Broker.Response.{
  identity_change, alias_calls, put_completion, complete_change, link_or_zero,
}
use agent_runtime_foundry.Broker.Sound.{PromptSound, SessionSound, LedgerSound}
use agent_runtime_foundry.Broker.Sound.Requests.{put_session-Sound, put_prompt-Sound}
use agent_runtime_foundry.Base.{
  ℕ, String, [], ◌≡◌, refl, Bool, true, false, Option, none, some, arith, inl, inr, string_eq,
  nat_eq, Option-cases, subst, ap, if◌then◌else◌,
}

find_session-Sound :
    (p : Platform) (c : BrokerContext) (next : BrokerLedger) (s : BrokerSession)
    → LedgerSound next
    → find_session p c next ≡ ok s
    → SessionSound s
unfolding find_session
find_session-Sound p c next s h e = h (owner_key p c.owner) s (deref-ok _ e)

find_prompt-Sound :
    (p : Platform) (c : BrokerContext) (s : BrokerSession) (prompt : BrokerPrompt)
    → SessionSound s
    → find_prompt p c s ≡ ok prompt
    → PromptSound s.current_prompt s.retiring s.retired (prompt_key p c) prompt
unfolding find_prompt
find_prompt-Sound p c s prompt h e = h.prompts_sound (prompt_key p c) prompt (deref-ok _ e)

-- A change of a prompt's invocations, or a start of its closing.
module _ (current key : String) (retiring retired : Bool) (prompt : BrokerPrompt) where
  put_invocation-Sound :
      (c : BrokerContext) (invocation : BrokerInvocation)
      → PromptSound current retiring retired key prompt
      → PromptSound current retiring retired key (put_invocation c invocation prompt)
  unfolding put_invocation
  put_invocation-Sound c invocation h = ground arith

  closing-Sound :
      PromptSound current retiring retired key prompt
      → PromptSound current retiring retired key (record prompt { closing = true })
  closing-Sound h = ground arith

  last_alias-Sound :
      (alias : String)
      → PromptSound current retiring retired key prompt
      → PromptSound current retiring retired key (record prompt { last_alias = alias })
  last_alias-Sound alias h = ground arith

-- A change of the session's response links.
responses-Sound :
    (s : BrokerSession) (links : Map String BrokerResponseId)
    → SessionSound s
    → SessionSound (record s { responses = links })
responses-Sound s links h = record {
  prompts_sound = h.prompts_sound;
  retired_retiring = h.retired_retiring;
  retired_state = h.retired_state;
  deleted_retired = h.deleted_retired;
  named_state = h.named_state;
}

pub authority_live :
    (s : BrokerSession) (prompt : BrokerPrompt) (ended : Bool) (now : ℕ) (u : Unit {0})
    → authority s prompt ended now ≡ ok u
    → s.retiring ≡ false
unfolding authority
authority_live s prompt ended now u e = ground arith

pub intend_create-Sound :
    (p : Platform) (c : BrokerContext) (ended : Bool) (now : ℕ) (id : String)
    (next after : BrokerLedger)
    → LedgerSound next
    → intend_create p c ended now id next ≡ ok after
    → LedgerSound after
unfolding intend_create
intend_create-Sound p c ended now id next after h e =
    let (s, found, e1) = bind-ok (find_session p c next) _ e in
    let (prompt, there, e2) = bind-ok (find_prompt p c s) _ e1 in
    let (allowed, held, e3) = bind-ok (authority s prompt ended now) _ e2 in
    let hs = find_session-Sound p c next s h found in
    let live : s.retiring ≡ false = authority_live s prompt ended now allowed held in
    subst LedgerSound (ok-injective e3) (
      put_session-Sound p c (record s { remote_id = id; create_state = CreateState.intent }) next h
        (record {
          prompts_sound = hs.prompts_sound;
          retired_retiring = hs.retired_retiring;
          retired_state = λ r. cc (hs.retired_retiring r, live);
          deleted_retired = λ r. cc;
          named_state = refl;
        }))

-- The end of a creation that was an intent.
ended :
    (s : BrokerSession) (created : Bool)
    → SessionSound s
    → s.create_state ≡ CreateState.intent
    → SessionSound (
        if created
        then record s { create_state = CreateState.known }
        else record s { remote_id = ""; create_state = CreateState.none })
ended s true h intended = record {
  prompts_sound = h.prompts_sound;
  retired_retiring = h.retired_retiring;
  retired_state = λ r. ground (arith, h.retired_state r);
  deleted_retired = λ r. cc;
  named_state = refl;
}
ended s false h intended = record {
  prompts_sound = h.prompts_sound;
  retired_retiring = h.retired_retiring;
  retired_state = λ r. inl refl;
  deleted_retired = λ r. cc;
  named_state = refl;
}

-- The creation that ends is the one that the ledger has as an intent.
pub settle_create-Sound :
    (p : Platform) (c : BrokerContext) (created : Bool) (next after : BrokerLedger)
    → LedgerSound next
    → ((s : BrokerSession)
        → get (owner_key p c.owner) next.sessions ≡ some s
        → s.create_state ≡ CreateState.intent)
    → settle_create p c created next ≡ ok after
    → LedgerSound after
unfolding settle_create
settle_create-Sound p c created next after h intent e =
    let (s, found, e1) = bind-ok (find_session p c next) _ e in
    let hs = find_session-Sound p c next s h found in
    let intended : s.create_state ≡ CreateState.intent =
      intent s (unfold find_session in deref-ok _ found) in
    subst LedgerSound (ok-injective e1)
      (put_session-Sound p c _ next h (ended s created hs intended))

pub intend_invocation-Sound :
    (p : Platform) (c : BrokerContext) (ended : Bool) (now : ℕ) (next after : BrokerLedger)
    → LedgerSound next
    → intend_invocation p c ended now next ≡ ok after
    → LedgerSound after
unfolding intend_invocation
intend_invocation-Sound p c ended now next after h e =
    let (s, found, e1) = bind-ok (find_session p c next) _ e in
    let (prompt, there, e2) = bind-ok (find_prompt p c s) _ e1 in
    let (allowed, held, e3) = bind-ok (authority s prompt ended now) _ e2 in
    let (invocation, here, e4) = bind-ok (find_invocation c prompt) _ e3 in
    let hs = find_session-Sound p c next s h found in
    subst LedgerSound (ok-injective e4) (
      put_session-Sound p c _ next h (
        put_prompt-Sound p c _ s hs (
          put_invocation-Sound s.current_prompt (prompt_key p c) s.retiring s.retired prompt c _
            (find_prompt-Sound p c s prompt hs there))))

pub reject_invocation-Sound :
    (p : Platform) (c : BrokerContext) (next after : BrokerLedger)
    → LedgerSound next
    → reject_invocation p c next ≡ ok after
    → LedgerSound after
unfolding reject_invocation
reject_invocation-Sound p c next after h e =
    let (s, found, e1) = bind-ok (find_session p c next) _ e in
    let (prompt, there, e2) = bind-ok (find_prompt p c s) _ e1 in
    let (invocation, here, e3) = bind-ok (find_invocation c prompt) _ e2 in
    let hs = find_session-Sound p c next s h found in
    subst LedgerSound (ok-injective e3) (
      put_session-Sound p c _ next h (
        put_prompt-Sound p c _ s hs (
          put_invocation-Sound s.current_prompt (prompt_key p c) s.retiring s.retired prompt c _
            (find_prompt-Sound p c s prompt hs there))))

pub identity_change-Sound :
    (p : Platform) (c : BrokerContext) (id uuid : String) (next after : BrokerLedger)
    → LedgerSound next
    → identity_change p c id uuid next ≡ ok after
    → LedgerSound after
unfolding identity_change
identity_change-Sound p c id uuid next after h e =
    let (s, found, e1) = bind-ok (find_session p c next) _ e in
    let (prompt, there, e2) = bind-ok (find_prompt p c s) _ e1 in
    let (invocation, here, e3) = bind-ok (find_invocation c prompt) _ e2 in
    let (fresh, e4) = refuse-ok _ conflict _ e3 in
    let hs = find_session-Sound p c next s h found in
    subst LedgerSound (ok-injective e4) (
      put_session-Sound p c _ next h (
        put_prompt-Sound p c _ _ (responses-Sound s _ hs) (
          put_invocation-Sound s.current_prompt (prompt_key p c) s.retiring s.retired prompt c _
            (find_prompt-Sound p c s prompt hs there))))

put_completion-Sound :
    (p : Platform) (c : BrokerContext) (s : BrokerSession) (prompt : BrokerPrompt)
    (invocation : BrokerInvocation) (link : BrokerResponseId) (calls : Map String String)
    (next : BrokerLedger)
    → LedgerSound next
    → SessionSound s
    → PromptSound s.current_prompt s.retiring s.retired (prompt_key p c) prompt
    → LedgerSound (put_completion p c s prompt invocation link calls next)
unfolding put_completion
put_completion-Sound p c s prompt invocation link calls next h hs hp =
    put_session-Sound p c _ next h (
      put_prompt-Sound p c _ _ (responses-Sound s _ hs) (
        last_alias-Sound s.current_prompt (prompt_key p c) s.retiring s.retired _ _ (
          put_invocation-Sound s.current_prompt (prompt_key p c) s.retiring s.retired prompt c _
            hp)))

pub complete_change-Sound :
    (p : Platform) (c : BrokerContext) (now : ℕ) (uuids : ℕ → String) (summary : StreamSummary)
    (next after : BrokerLedger) (output : Response)
    → LedgerSound next
    → complete_change p c now uuids summary next ≡ ok (after, output)
    → LedgerSound after
unfolding complete_change
complete_change-Sound p c now uuids summary next after output h e =
    let (s, found, e1) = bind-ok (find_session p c next) _ e in
    let (prompt, there, e2) = bind-ok (find_prompt p c s) _ e1 in
    let (invocation, here, e3) = bind-ok (find_invocation c prompt) _ e2 in
    let (named, e4) = refuse-ok _ conflict _ e3 in
    let (live, e5) = refuse-ok _ closed _ e4 in
    let ((calls, items), aliased, e6) =
      bind-ok (alias_calls uuids 0 [] [] summary.function_calls) _ e5 in
    let hs = find_session-Sound p c next s h found in
    subst LedgerSound (ap (λ r. r.0) (ok-injective e6)) (
      put_completion-Sound p c s prompt invocation
        (link_or_zero (get invocation.response_alias s.responses)) calls next h hs
        (find_prompt-Sound p c s prompt hs there))

pub finish_change-Sound :
    (p : Platform) (c : BrokerContext) (failure : Option BrokerError) (next after : BrokerLedger)
    → LedgerSound next
    → finish_change p c failure next ≡ ok after
    → LedgerSound after
unfolding finish_change
finish_change-Sound p c none next after h e =
    let (s, found, e1) = bind-ok (find_session p c next) _ e in
    let (prompt, there, e2) = bind-ok (find_prompt p c s) _ e1 in
    subst LedgerSound (ok-injective e2) h
finish_change-Sound p c (some failure) next after h e =
    let (s, found, e1) = bind-ok (find_session p c next) _ e in
    let (prompt, there, e2) = bind-ok (find_prompt p c s) _ e1 in
    let (invocation, here, e3) = bind-ok (find_invocation c prompt) _ e2 in
    let hs = find_session-Sound p c next s h found in
    subst LedgerSound (ok-injective e3) (
      put_session-Sound p c _ next h (
        put_prompt-Sound p c _ s hs (
          put_invocation-Sound s.current_prompt (prompt_key p c) s.retiring s.retired
            (record prompt { closing = true }) c _
            (closing-Sound s.current_prompt (prompt_key p c) s.retiring s.retired prompt
              (find_prompt-Sound p c s prompt hs there)))))

-- The end of a request closes its prompt, if the ledger has it.
pub close_change-Sound :
    (key slot : String) (next after : BrokerLedger)
    → LedgerSound next
    → close_change key slot next ≡ ok after
    → LedgerSound after
unfolding close_change
close_change-Sound key slot next after h e = elim (Option-cases (get key next.sessions)) [
  | inl missing ↦ let same : next ≡ after = ground (arith, missing) in subst LedgerSound same h
  | inr (s, found) ↦ elim (Option-cases (get slot s.prompts)) [
    | inl missing ↦
        let same : next ≡ after = ground (arith, found, missing) in subst LedgerSound same h
    | inr (prompt, there) ↦
        let hs = h key s found in
        let closed_session : BrokerSession = record s {
          prompts = insert slot (record prompt { closing = true }) s.prompts;
        } in
        let sound : SessionSound closed_session = record {
          prompts_sound =
              Every-insert (PromptSound s.current_prompt s.retiring s.retired) slot _ s.prompts
                hs.prompts_sound
                (closing-Sound s.current_prompt slot s.retiring s.retired prompt
                  (hs.prompts_sound slot prompt there));
          retired_retiring = hs.retired_retiring;
          retired_state = hs.retired_state;
          deleted_retired = hs.deleted_retired;
          named_state = hs.named_state;
        } in
        let same : record next { sessions = insert key closed_session next.sessions } ≡ after =
          ground (arith, found, there) in
        subst LedgerSound same
          (Every-insert (λ k t. SessionSound t) key closed_session next.sessions h sound)
  ]
]

pub pin_change-Sound :
    (digest : String) (next after : BrokerLedger)
    → LedgerSound next
    → pin_change digest next ≡ ok after
    → LedgerSound after
unfolding pin_change
pin_change-Sound digest next after h e = subst LedgerSound (ok-injective e) h
