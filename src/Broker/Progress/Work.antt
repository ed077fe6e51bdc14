-- ===== src/Broker/Progress/Work.antt =====
-- The work on an admitted request goes forward: the creation of the remote session, the submission,
-- the response and the end of an invocation.
use agent_runtime_foundry.Base.Map.{Map, get, insert, Grown-refl, Grown-insert}
use agent_runtime_foundry.Foundry.Responses.{Response, StreamSummary}
use agent_runtime_foundry.Broker.Types.{
  BrokerContext, BrokerError, ok, conflict, closed, BrokerInvocation, BrokerPrompt, BrokerSession,
  BrokerLedger, BrokerResponseId, CreateState, ok-injective, bind-ok, refuse-ok, deref-ok,
}
use agent_runtime_foundry.Broker.Platform.{Platform, owner_key}
use agent_runtime_foundry.Broker.Ledger.{put_session, put_prompt}
use agent_runtime_foundry.Broker.Invoke.{
  find_session, find_prompt, find_invocation, put_invocation, authority, intend_create,
  settle_create, intend_invocation, reject_invocation, finish_change, close_change, pin_change,
}
use agent_runtime_foundry.Broker.Response.{
  identity_change, alias_calls, put_completion, complete_change, link_or_zero,
}
use agent_runtime_foundry.Broker.Sound.Work.{authority_live}
use agent_runtime_foundry.Broker.Progress.{
  PromptKept, SessionKept, LedgerKept, Same, StateKept, same_flags-Kept, PromptKept-refl,
  SessionKept-refl, LedgerKept-refl, SessionKept-trans, put_session-Kept, put_prompt-Kept,
}
use agent_runtime_foundry.Base.{
  ℕ, String, [], ◌≡◌, ◌∙◌, refl, Bool, true, false, Option, none, some, some-injective, arith, inl,
  inr, string_eq, nat_eq, Option-cases, subst, ap, sym, if◌then◌else◌,
}

-- A write for the context of a request whose session and prompt are found.
module _ (p : Platform) (c : BrokerContext) (next : BrokerLedger) (s : BrokerSession)
    (found : find_session p c next ≡ ok s) where
  found_session :
      (new : BrokerSession) → SessionKept s new → LedgerKept next (put_session p c new next)
  unfolding find_session
  found_session new kept = put_session-Kept p c new next (λ old there.
      subst (λ x. SessionKept x new) (some-injective _ _ (sym (deref-ok _ found) ∙ there)) kept)

  module _ (prompt : BrokerPrompt) (there : find_prompt p c s ≡ ok prompt) where
    found_prompt :
        (responses : Map String BrokerResponseId) (new : BrokerPrompt)
        → PromptKept prompt new
        → LedgerKept next
            (put_session p c (put_prompt p c new (record s { responses = responses })) next)
    unfolding find_prompt
    found_prompt responses new kept = found_session _ (
        SessionKept-trans s (record s { responses = responses }) _
          (same_flags-Kept s _ (Grown-refl PromptKept PromptKept-refl s.prompts) refl refl refl
            refl)
          (put_prompt-Kept p c new (record s { responses = responses })
            (λ old g.
              subst (λ x. PromptKept x new) (some-injective _ _ (sym (deref-ok _ there) ∙ g))
                kept)))

-- A change of a prompt's invocations, its last alias, or a start of its closing.
changed_prompt-Kept :
    (c : BrokerContext) (invocation : BrokerInvocation) (prompt : BrokerPrompt)
    → PromptKept prompt (put_invocation c invocation prompt)
unfolding put_invocation
changed_prompt-Kept c invocation prompt = ground arith

closed_prompt-Kept :
    (c : BrokerContext) (invocation : BrokerInvocation) (prompt : BrokerPrompt)
    → PromptKept prompt (put_invocation c invocation (record prompt { closing = true }))
unfolding put_invocation
closed_prompt-Kept c invocation prompt = ground arith

completed_prompt-Kept :
    (c : BrokerContext) (invocation : BrokerInvocation) (alias : String) (prompt : BrokerPrompt)
    → PromptKept prompt (record (put_invocation c invocation prompt) { last_alias = alias })
unfolding put_invocation
completed_prompt-Kept c invocation alias prompt = ground arith

-- A new creation, in a session that does not retire, or the end of one.
creation-Kept :
    (s : BrokerSession) (id : String) (state : CreateState)
    → StateKept s (record s { remote_id = id; create_state = state })
    → SessionKept s (record s { remote_id = id; create_state = state })
creation-Kept s id state kept = record {
  prompts_kept = Grown-refl PromptKept PromptKept-refl s.prompts;
  operations_kept = Grown-refl Same (λ v. refl) s.operations;
  retiring_kept = λ x. x;
  retired_kept = λ x. x;
  state_kept = kept;
}

pub intend_create-Kept :
    (p : Platform) (c : BrokerContext) (ended : Bool) (now : ℕ) (id : String)
    (next after : BrokerLedger)
    → intend_create p c ended now id next ≡ ok after
    → LedgerKept next after
unfolding intend_create
intend_create-Kept p c ended now id next after e =
    let (s, found, e1) = bind-ok (find_session p c next) _ e in
    let (prompt, there, e2) = bind-ok (find_prompt p c s) _ e1 in
    let (allowed, held, e3) = bind-ok (authority s prompt ended now) _ e2 in
    let live : s.retiring ≡ false = authority_live s prompt ended now allowed held in
    subst (LedgerKept next) (ok-injective e3)
      (found_session p c next s found _ (creation-Kept s id CreateState.intent (λ r. cc (r, live))))

settled_creation :
    (s : BrokerSession) (created : Bool)
    → s.create_state ≡ CreateState.intent
    → SessionKept s (
        if created
        then record s { create_state = CreateState.known }
        else record s { remote_id = ""; create_state = CreateState.none })
settled_creation s true intended = creation-Kept s s.remote_id CreateState.known (λ r. inl intended)
settled_creation s false intended = creation-Kept s "" CreateState.none (λ r. inl intended)

pub settle_create-Kept :
    (p : Platform) (c : BrokerContext) (created : Bool) (next after : BrokerLedger)
    → ((s : BrokerSession)
        → get (owner_key p c.owner) next.sessions ≡ some s
        → s.create_state ≡ CreateState.intent)
    → settle_create p c created next ≡ ok after
    → LedgerKept next after
unfolding settle_create
settle_create-Kept p c created next after intent e =
    let (s, found, e1) = bind-ok (find_session p c next) _ e in
    let intended : s.create_state ≡ CreateState.intent =
      intent s (unfold find_session in deref-ok _ found) in
    subst (LedgerKept next) (ok-injective e1)
      (found_session p c next s found _ (settled_creation s created intended))

pub intend_invocation-Kept :
    (p : Platform) (c : BrokerContext) (ended : Bool) (now : ℕ) (next after : BrokerLedger)
    → intend_invocation p c ended now next ≡ ok after
    → LedgerKept next after
unfolding intend_invocation
intend_invocation-Kept p c ended now next after e =
    let (s, found, e1) = bind-ok (find_session p c next) _ e in
    let (prompt, there, e2) = bind-ok (find_prompt p c s) _ e1 in
    let (allowed, held, e3) = bind-ok (authority s prompt ended now) _ e2 in
    let (invocation, here, e4) = bind-ok (find_invocation c prompt) _ e3 in
    subst (LedgerKept next) (ok-injective e4)
      (found_prompt p c next s found prompt there s.responses _ (changed_prompt-Kept c _ prompt))

pub reject_invocation-Kept :
    (p : Platform) (c : BrokerContext) (next after : BrokerLedger)
    → reject_invocation p c next ≡ ok after
    → LedgerKept next after
unfolding reject_invocation
reject_invocation-Kept p c next after e =
    let (s, found, e1) = bind-ok (find_session p c next) _ e in
    let (prompt, there, e2) = bind-ok (find_prompt p c s) _ e1 in
    let (invocation, here, e3) = bind-ok (find_invocation c prompt) _ e2 in
    subst (LedgerKept next) (ok-injective e3)
      (found_prompt p c next s found prompt there s.responses _ (changed_prompt-Kept c _ prompt))

pub identity_change-Kept :
    (p : Platform) (c : BrokerContext) (id uuid : String) (next after : BrokerLedger)
    → identity_change p c id uuid next ≡ ok after
    → LedgerKept next after
unfolding identity_change
identity_change-Kept p c id uuid next after e =
    let (s, found, e1) = bind-ok (find_session p c next) _ e in
    let (prompt, there, e2) = bind-ok (find_prompt p c s) _ e1 in
    let (invocation, here, e3) = bind-ok (find_invocation c prompt) _ e2 in
    let (fresh, e4) = refuse-ok _ conflict _ e3 in
    subst (LedgerKept next) (ok-injective e4)
      (found_prompt p c next s found prompt there _ _ (changed_prompt-Kept c _ prompt))

put_completion-Kept :
    (p : Platform) (c : BrokerContext) (s : BrokerSession) (prompt : BrokerPrompt)
    (invocation : BrokerInvocation) (link : BrokerResponseId) (calls : Map String String)
    (next : BrokerLedger)
    → find_session p c next ≡ ok s
    → find_prompt p c s ≡ ok prompt
    → LedgerKept next (put_completion p c s prompt invocation link calls next)
unfolding put_completion
put_completion-Kept p c s prompt invocation link calls next found there =
    found_prompt p c next s found prompt there _ _ (completed_prompt-Kept c _ _ prompt)

pub complete_change-Kept :
    (p : Platform) (c : BrokerContext) (now : ℕ) (uuids : ℕ → String) (summary : StreamSummary)
    (next after : BrokerLedger) (output : Response)
    → complete_change p c now uuids summary next ≡ ok (after, output)
    → LedgerKept next after
unfolding complete_change
complete_change-Kept p c now uuids summary next after output e =
    let (s, found, e1) = bind-ok (find_session p c next) _ e in
    let (prompt, there, e2) = bind-ok (find_prompt p c s) _ e1 in
    let (invocation, here, e3) = bind-ok (find_invocation c prompt) _ e2 in
    let (named, e4) = refuse-ok _ conflict _ e3 in
    let (live, e5) = refuse-ok _ closed _ e4 in
    let ((calls, items), aliased, e6) =
      bind-ok (alias_calls uuids 0 [] [] summary.function_calls) _ e5 in
    subst (LedgerKept next) (ap (λ r. r.0) (ok-injective e6)) (
      put_completion-Kept p c s prompt invocation
        (link_or_zero (get invocation.response_alias s.responses)) calls next found there)

pub finish_change-Kept :
    (p : Platform) (c : BrokerContext) (failure : Option BrokerError) (next after : BrokerLedger)
    → finish_change p c failure next ≡ ok after
    → LedgerKept next after
unfolding finish_change
finish_change-Kept p c none next after e =
    let (s, found, e1) = bind-ok (find_session p c next) _ e in
    let (prompt, there, e2) = bind-ok (find_prompt p c s) _ e1 in
    subst (LedgerKept next) (ok-injective e2) (LedgerKept-refl next)
finish_change-Kept p c (some failure) next after e =
    let (s, found, e1) = bind-ok (find_session p c next) _ e in
    let (prompt, there, e2) = bind-ok (find_prompt p c s) _ e1 in
    let (invocation, here, e3) = bind-ok (find_invocation c prompt) _ e2 in
    subst (LedgerKept next) (ok-injective e3)
      (found_prompt p c next s found prompt there s.responses _ (closed_prompt-Kept c _ prompt))

closing_prompt-Kept : (prompt : BrokerPrompt) → PromptKept prompt (record prompt { closing = true })
closing_prompt-Kept prompt = ground arith

pub close_change-Kept :
    (key slot : String) (next after : BrokerLedger)
    → close_change key slot next ≡ ok after
    → LedgerKept next after
unfolding close_change
close_change-Kept key slot next after e = elim (Option-cases (get key next.sessions)) [
  | inl missing ↦
      let same : next ≡ after = ground (arith, missing) in
      subst (LedgerKept next) same (LedgerKept-refl next)
  | inr (s, found) ↦ elim (Option-cases (get slot s.prompts)) [
    | inl missing ↦
        let same : next ≡ after = ground (arith, found, missing) in
        subst (LedgerKept next) same (LedgerKept-refl next)
    | inr (prompt, there) ↦
        let new : BrokerPrompt = record prompt { closing = true } in
        let closed_session : BrokerSession = record s { prompts = insert slot new s.prompts } in
        let same : record next { sessions = insert key closed_session next.sessions } ≡ after =
          ground (arith, found, there) in
        subst (LedgerKept next) same (
          Grown-insert SessionKept SessionKept-refl key closed_session next.sessions (λ old g.
            subst (λ x. SessionKept x closed_session) (some-injective _ _ (sym found ∙ g))
              (same_flags-Kept s closed_session
                (Grown-insert PromptKept PromptKept-refl slot new s.prompts (λ q gq.
                  subst (λ x. PromptKept x new) (some-injective _ _ (sym there ∙ gq))
                    (closing_prompt-Kept prompt)))
                refl refl refl refl)))
  ]
]

pub pin_change-Kept :
    (digest : String) (next after : BrokerLedger)
    → pin_change digest next ≡ ok after
    → LedgerKept next after
unfolding pin_change
pin_change-Kept digest next after e =
    subst (LedgerKept next) (ok-injective e) (LedgerKept-refl next)
