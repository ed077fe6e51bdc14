-- ===== src/Broker/Response.antt =====
-- recordResponseIdentity and commitCompletedResponse of internal/broker/responses.go: the provider's
-- response is linked to its invocation, and its output is released under the broker's own names.
-- google/uuid's NewString is an argument: one text, or a supply of them.
pub mod Aliases
pub mod Stored
pub mod Tests
use agent_runtime_foundry.Base.Text.{append}
use agent_runtime_foundry.Base.Map.{Map, get, insert}
use agent_runtime_foundry.Foundry.Limits.{max_identifier_bytes}
use agent_runtime_foundry.Foundry.Strings.{safe_string, identifier_valid}
use agent_runtime_foundry.Foundry.Responses.{OutputItem, Response, StreamSummary}
use agent_runtime_foundry.Broker.Types.{
  BrokerContext, Result, ok, err, conflict, closed, storage, ◌>>=◌, ◌>>◌, refuse, BrokerInvocation,
  BrokerPrompt, BrokerResponseId, BrokerSession, BrokerLedger, InvocationState,
}
use agent_runtime_foundry.Broker.Platform.{Platform, prompt_key}
use agent_runtime_foundry.Broker.Ledger.{put_session, put_prompt}
use agent_runtime_foundry.Broker.Process.{Codec, Process, SaveOutcome, commit_capacity}
use agent_runtime_foundry.Broker.Invoke.{find_session, find_prompt, find_invocation, put_invocation}
use agent_runtime_foundry.Base.{
  ℕ, ◌+◌, String, Bool, true, false, not, ◌&&◌, ◌||◌, Option, none, some, List, [], ◌∷◌, ◌++◌, any,
  leb, ◌==◌, nat_eq, string_eq, if◌then◌else◌, is_some,
}

remote_is : String → String × BrokerResponseId → Bool
remote_is id (alias, link) = link.remote_id == id

-- The function that recordResponseIdentity hands to its commit, at the first acceptance.
unfoldable pub identity_change :
    Platform → BrokerContext → String → String → BrokerLedger → Result BrokerLedger
unfolding remote_is
identity_change p c response_id uuid next = do
  session ← find_session p c next
  prompt ← find_prompt p c session
  invocation ← find_invocation c prompt
  refuse (any (remote_is response_id) session.responses) conflict
  let alias = append "fr_" uuid
  let linked = record session {
    responses =
        insert alias
          (record {
            remote_id = response_id;
            prompt_key = prompt_key p c;
            completed = false;
            has_functions = false;
            call_ids = [];
          })
          session.responses;
  }
  let accepted = record invocation {
    response_id = response_id;
    response_alias = alias;
    state = InvocationState.accepted;
  }
  ok (put_session p c (put_prompt p c (put_invocation c accepted prompt) linked) next)

-- The response id that the invocation has in the ledger.
unfoldable pub known_response : Platform → BrokerContext → BrokerLedger → Result String
known_response p c ledger = do
  session ← find_session p c ledger
  prompt ← find_prompt p c session
  invocation ← find_invocation c prompt
  ok invocation.response_id

record_first :
    Platform
    → Codec
    → SaveOutcome
    → BrokerContext
    → Response
    → String
    → Process
    → Result String
    → Result (Unit {0}) × Process
record_first p codec outcome c response uuid b (err e) = (err e, b)
record_first p codec outcome c response uuid b (ok previous) =
    if not (previous == "")
    then (if not (previous == response.id) then err conflict else ok tt, b)
    else commit_capacity codec outcome false (identity_change p c response.id uuid) b

-- recordResponseIdentity
unfoldable pub record_identity :
    Platform
    → Codec
    → SaveOutcome
    → BrokerContext
    → Response
    → String
    → String
    → Process
    → Result (Unit {0}) × Process
unfolding record_first
record_identity p codec outcome c response remote_id uuid b =
    if response.id == ""
      || not (identifier_valid response.id)
      || (not (response.agent_session_id == "") && not (response.agent_session_id == remote_id))
    then (err conflict, b)
    else if b.storage_error
    then (err storage, b)
    else record_first p codec outcome c response uuid b (known_response p c b.ledger)

-- The loop over the calls of the summary: the call ids that were seen, the aliases, and the items
-- that the child sees. Call n takes the texts 2n + 1 and 2n + 2 of the supply.
unfoldable pub alias_calls :
    (ℕ → String)
    → ℕ
    → Map String Bool
    → Map String String
    → List OutputItem
    → Result (Map String String × List OutputItem)
alias_calls uuids n seen calls [] = ok (calls, [])
alias_calls uuids n seen calls (item ∷ items) = do
  refuse (not (safe_string item.call_id max_identifier_bytes) || is_some (get item.call_id seen))
      conflict
  let alias = append "fc_" (uuids (n + 1))
  let named = record item { call_id = alias; id = append "fi_" (uuids (n + 2)) }
  (calls', output) ←
      alias_calls uuids (n + 2) (insert item.call_id true seen) (insert alias item.call_id calls)
        items
  ok (calls', named ∷ output)

-- The message item of the released output, if there is text.
unfoldable pub message_items : (ℕ → String) → String → List OutputItem
message_items uuids text =
    if text == ""
    then []
    else record {
      id = append "fi_" (uuids 0);
      type_name = "message";
      call_id = "";
      name = "";
      arguments = "";
      content = record { type_name = "output_text"; text = text } ∷ [];
    }
      ∷ []

abbrev pub nonempty {ℓ} : {A : Type ℓ} → List A → Bool
nonempty [] = false
nonempty (_ ∷ _) = true

unfoldable pub completed_response : String → List OutputItem → Response
completed_response alias output = record {
  id = alias;
  status = "completed";
  agent_session_id = "";
  output = output;
  error = none;
  incomplete = none;
}

-- The write of the completion: the link with its calls, the invocation and the prompt's last alias.
unfoldable pub put_completion :
    Platform
    → BrokerContext
    → BrokerSession
    → BrokerPrompt
    → BrokerInvocation
    → BrokerResponseId
    → Map String String
    → BrokerLedger
    → BrokerLedger
put_completion p c session prompt invocation link calls next =
    let linked = record session {
      responses =
          insert invocation.response_alias
            (record link { call_ids = calls; completed = true; has_functions = nonempty calls })
            session.responses;
    } in
    let done = record invocation { state = InvocationState.completed } in
    let prompt' = record (put_invocation c done prompt) {
      last_alias = invocation.response_alias;
    } in
    put_session p c (put_prompt p c prompt' linked) next

-- The zero brokerResponseID, that a lookup of a missing alias returns.
abbrev pub link_or_zero : Option BrokerResponseId → BrokerResponseId
link_or_zero (some link) = link
link_or_zero none = record {
  remote_id = "";
  prompt_key = "";
  completed = false;
  has_functions = false;
  call_ids = [];
}

-- The function that commitCompletedResponse hands to its commit, with the output that it releases.
unfoldable pub complete_change :
    Platform
    → BrokerContext
    → ℕ
    → (ℕ → String)
    → StreamSummary
    → BrokerLedger
    → Result (BrokerLedger × Response)
complete_change p c now uuids summary next = do
  session ← find_session p c next
  prompt ← find_prompt p c session
  invocation ← find_invocation c prompt
  refuse (not (invocation.response_id == summary.response_id) || invocation.response_alias == "")
      conflict
  refuse (prompt.closing || leb prompt.lease_expires_at now) closed
  (calls, items) ← alias_calls uuids 0 [] [] summary.function_calls
  let link = link_or_zero (get invocation.response_alias session.responses)
  ok (
    put_completion p c session prompt invocation link calls next,
    completed_response invocation.response_alias (message_items uuids summary.text ++ items),
  )

abbrev pub completed_part : Result (BrokerLedger × Response) → Result BrokerLedger
completed_part (ok (next, output)) = ok next
completed_part (err e) = err e

-- commitCompletedResponse, but for the value that it returns: `complete_change` has it.
unfoldable pub commit_completed :
    Platform
    → Codec
    → SaveOutcome
    → BrokerContext
    → ℕ
    → (ℕ → String)
    → StreamSummary
    → Process
    → Result (Unit {0}) × Process
commit_completed p codec outcome c now uuids summary b =
    commit_capacity codec outcome true
      (λ next. completed_part (complete_change p c now uuids summary next)) b
