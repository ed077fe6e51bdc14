-- ===== src/Broker/Response/Stored.antt =====
-- The commit of a completed response: what the ledger then has of what the child is given.
use agent_runtime_foundry.Base.Text.{append}
use agent_runtime_foundry.Base.Map.{Map, get, insert, get-insert_self}
use agent_runtime_foundry.Foundry.Responses.{OutputItem, Response, StreamSummary}
use agent_runtime_foundry.Broker.Types.{
  BrokerContext, BrokerInvocation, BrokerPrompt, BrokerSession, BrokerLedger, BrokerResponseId,
  InvocationState, ok, conflict, closed, ok-injective, bind-ok, refuse-ok,
}
use agent_runtime_foundry.Broker.Platform.{Platform, owner_key, prompt_key}
use agent_runtime_foundry.Broker.Ledger.{put_session, put_prompt}
use agent_runtime_foundry.Broker.Invoke.{find_session, find_prompt, find_invocation, put_invocation}
use agent_runtime_foundry.Broker.Response.{
  alias_calls, message_items, completed_response, put_completion, link_or_zero, nonempty,
  complete_change,
}
use agent_runtime_foundry.Broker.Response.Aliases.{Released, Distinct, alias_calls-Released}
use agent_runtime_foundry.Base.{
  ℕ, ◌+◌, String, ◌≡◌, ◌∙◌, refl, sym, ap, subst, Bool, true, not, ◌||◌, some, List, [], ◌∷◌, ◌++◌,
  arith, ◌==◌, if_elim, text_eq_iff, string_eq, nat_eq,
}

-- The items of the released text: none if there is no text, or one message with all of it.
abbrev pub MessageOf : String → List OutputItem → Type 0
MessageOf text [] = text ≡ ""
MessageOf text (item ∷ []) =
    (item.type_name ≡ "message")
    × (item.content ≡ record { type_name = "output_text"; text = text } ∷ [])
MessageOf text (_ ∷ _ ∷ _) = ⊥

-- What the ledger has of a response that was released: its link under its id, complete and with the map
-- of its calls, and the prompt and the invocation that it completes.
pub record Stored (p : Platform) (c : BrokerContext) (summary : StreamSummary)
    (after : BrokerLedger) (output : Response) : Type 0 where
  pub session : BrokerSession
  pub link : BrokerResponseId
  pub prompt : BrokerPrompt
  pub invocation : BrokerInvocation
  pub message : List OutputItem
  pub calls : List OutputItem
  pub session_there : get (owner_key p c.owner) after.sessions ≡ some session
  pub link_there : get output.id session.responses ≡ some link
  pub link_completed : link.completed ≡ true
  pub link_functions : link.has_functions ≡ nonempty summary.function_calls
  pub prompt_there : get (prompt_key p c) session.prompts ≡ some prompt
  pub prompt_alias : prompt.last_alias ≡ output.id
  pub invocation_there : get c.invocation_sequence prompt.invocations ≡ some invocation
  pub invocation_completed : invocation.state ≡ InvocationState.completed
  pub invocation_response : invocation.response_id ≡ summary.response_id
  pub output_parts : output.output ≡ message ++ calls
  pub text_released : MessageOf summary.text message
  pub calls_released : Released link.call_ids summary.function_calls calls

message_items-MessageOf :
    (uuids : ℕ → String) (text : String) → MessageOf text (message_items uuids text)
unfolding message_items
message_items-MessageOf uuids text =
    if_elim (MessageOf text) (text == "") _ _ (λ e. (text_eq_iff text "").0 e) (λ _. (refl, refl))

insert-nonempty : (k v : String) (m : Map String String) → nonempty (insert k v m) ≡ true
unfolding insert
insert-nonempty k v [] = refl
insert-nonempty k v ((j, w) ∷ m) = ground arith

-- A map that has an entry, or gets one, has one.
alias_calls-nonempty :
    (uuids : ℕ → String) (items outs : List OutputItem) (n : ℕ) (seen : Map String Bool)
    (calls after : Map String String)
    → nonempty calls ≡ true
    → alias_calls uuids n seen calls items ≡ ok (after, outs)
    → nonempty after ≡ true
unfolding alias_calls
alias_calls-nonempty uuids [] outs n seen calls after h e =
    subst (λ m. nonempty m ≡ true) (ap (λ r. r.0) (ok-injective e)) h
alias_calls-nonempty uuids (item ∷ items) outs n seen calls after h e =
    let (fresh, e1) = refuse-ok _ conflict _ e in
    let alias = append "fc_" (uuids (n + 1)) in
    let ((calls', output), rest, e2) =
      bind-ok
        (alias_calls uuids (n + 2) (insert item.call_id true seen) (insert alias item.call_id calls)
          items)
        _ e1 in
    subst (λ m. nonempty m ≡ true) (ap (λ r. r.0) (ok-injective e2))
      (alias_calls-nonempty uuids items output (n + 2) (insert item.call_id true seen)
        (insert alias item.call_id calls) calls' (insert-nonempty alias item.call_id calls) rest)

alias_calls_functions :
    (uuids : ℕ → String) (items outs : List OutputItem) (after : Map String String)
    → alias_calls uuids 0 [] [] items ≡ ok (after, outs)
    → nonempty after ≡ nonempty items
unfolding alias_calls
alias_calls_functions uuids [] outs after e = sym (ap (λ r. nonempty r.0) (ok-injective e))
alias_calls_functions uuids (item ∷ items) outs after e =
    let (fresh, e1) = refuse-ok _ conflict _ e in
    let alias = append "fc_" (uuids 1) in
    let ((calls', output), rest, e2) =
      bind-ok
        (alias_calls uuids 2 (insert item.call_id true []) (insert alias item.call_id []) items) _
        e1 in
    sym (ap (λ r. nonempty r.0) (ok-injective e2))
    ∙ alias_calls-nonempty uuids items output 2 (insert item.call_id true [])
        (insert alias item.call_id []) calls' (insert-nonempty alias item.call_id []) rest

put_completion-Stored :
    (p : Platform) (c : BrokerContext) (s : BrokerSession) (prompt : BrokerPrompt)
    (invocation : BrokerInvocation) (old : BrokerResponseId) (calls : Map String String)
    (next : BrokerLedger) (uuids : ℕ → String) (summary : StreamSummary) (items : List OutputItem)
    → invocation.response_id ≡ summary.response_id
    → nonempty calls ≡ nonempty summary.function_calls
    → Released calls summary.function_calls items
    → Stored p c summary
        (put_completion p c s prompt invocation old calls next)
        (completed_response invocation.response_alias (message_items uuids summary.text ++ items))
unfolding put_completion completed_response put_session put_prompt put_invocation
put_completion-Stored p c s prompt invocation old calls next uuids summary items named functions
      released =
    record {
      session = _;
      link = _;
      prompt = _;
      invocation = _;
      message = message_items uuids summary.text;
      calls = items;
      session_there = get-insert_self (owner_key p c.owner) _ next.sessions;
      link_there = get-insert_self invocation.response_alias _ s.responses;
      link_completed = refl;
      link_functions = functions;
      prompt_there = get-insert_self (prompt_key p c) _ s.prompts;
      prompt_alias = refl;
      invocation_there = get-insert_self c.invocation_sequence _ prompt.invocations;
      invocation_completed = refl;
      invocation_response = named;
      output_parts = refl;
      text_released = message_items-MessageOf uuids summary.text;
      calls_released = released;
    }

-- If the supply of texts never repeats and a completion is committed, then the ledger has, under the id
-- of the released response, a complete link whose map gives the provider's call id for the alias of each
-- released call; the released response is the message with the text of the summary, if it has text, and
-- then its calls in their order, with their names and arguments; and the link says whether there are
-- calls, the prompt names the response as its last, and the invocation of the provider's response is
-- complete.
pub complete_change-Stored :
    (p : Platform) (c : BrokerContext) (now : ℕ) (uuids : ℕ → String) (summary : StreamSummary)
    (next after : BrokerLedger) (output : Response)
    → Distinct uuids
    → complete_change p c now uuids summary next ≡ ok (after, output)
    → Stored p c summary after output
unfolding complete_change
complete_change-Stored p c now uuids summary next after output distinct e =
    let (s, found, e1) = bind-ok (find_session p c next) _ e in
    let (prompt, there, e2) = bind-ok (find_prompt p c s) _ e1 in
    let (invocation, here, e3) = bind-ok (find_invocation c prompt) _ e2 in
    let (named, e4) =
      refuse-ok
        (not (invocation.response_id == summary.response_id) || invocation.response_alias == "")
        conflict _ e3 in
    let (live, e5) = refuse-ok _ closed _ e4 in
    let ((calls, items), aliased, e6) =
      bind-ok (alias_calls uuids 0 [] [] summary.function_calls) _ e5 in
    let old = link_or_zero (get invocation.response_alias s.responses) in
    let same = text_eq_iff invocation.response_id summary.response_id in
    subst (λ r. Stored p c summary r.0 r.1) (ok-injective e6)
      (put_completion-Stored p c s prompt invocation old calls next uuids summary items
        (ground (arith, named, same))
        (alias_calls_functions uuids summary.function_calls items calls aliased)
        (alias_calls-Released uuids distinct summary.function_calls items 0 [] [] calls aliased))
