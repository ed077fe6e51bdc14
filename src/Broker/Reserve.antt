-- ===== src/Broker/Reserve.antt =====
-- reserveInvocation and brokerTranslatePrevious of internal/broker/responses.go: a request for a
-- response is admitted, and its references are translated to the provider's.
pub mod Answered
pub mod Tests
use agent_runtime_foundry.Base.Text.{size}
use agent_runtime_foundry.Base.Map.{Map, get, insert}
use agent_runtime_foundry.Foundry.Limits.{default_max_brokered_bytes}
use agent_runtime_foundry.Foundry.Responses.{
  InputField, InputItem, object, not_object, RequestInput, list, ResponseRequest,
}
use agent_runtime_foundry.Broker.Types.{
  BrokerContext, responses, Result, ok, err, invalid, conflict, closed, storage, ◌>>=◌, ◌>>◌,
  refuse, BrokerInvocation, BrokerPrompt, BrokerResponseId, BrokerSession, BrokerLedger,
  InvocationState,
}
use agent_runtime_foundry.Broker.Platform.{Platform, owner_key, prompt_key}
use agent_runtime_foundry.Broker.Ledger.{
  ensure_session, put_session, ensure_prompt, put_prompt, record_operation,
}
use agent_runtime_foundry.Broker.Control.{time_or_zero}
use agent_runtime_foundry.Broker.Process.{Codec, Process, SaveOutcome, commit_capacity}
use agent_runtime_foundry.Base.{
  ℕ, String, Bool, true, false, not, ◌&&◌, ◌||◌, Option, none, some, List, [], ◌∷◌, length, ltb,
  leb, ◌==◌, nat_eq, string_eq, if◌then◌else◌, is_some,
}

abbrev pub field_text : Option InputField → Option String
field_text (some (InputField.text s)) = some s
field_text _ = none

abbrev pub text_is : Option String → String → Bool
text_is none t = false
text_is (some s) t = s == t

-- One `function_call_output` item: its call is owned by the previous response and not seen before.
-- The result is the call and the item with the provider's call id.
unfoldable pub translate_item :
    Map String String → Map String Bool → InputItem → Result (String × InputItem)
translate_item calls seen not_object = err conflict
translate_item calls seen (object item) = do
  refuse (not (text_is (field_text (get "type" item)) "function_call_output")) conflict
  elim (field_text (get "call_id" item)) [
    | none ↦ err conflict
    | some call ↦ elim (field_text (get "output" item)) [
      | none ↦ err conflict
      | some output ↦ elim (get call calls) [
        | none ↦ err conflict
        | some remote ↦ do
          refuse (is_some (get call seen)) conflict
          refuse (not (length item == 3)) conflict
          refuse (ltb default_max_brokered_bytes (size output)) conflict
          ok (call, object (insert "call_id" (InputField.text remote) item))
      ]
    ]
  ]

-- The loop over the items.
unfoldable pub translate_items :
    Map String String → Map String Bool → List InputItem → Result (List InputItem)
translate_items calls seen [] = ok []
translate_items calls seen (input ∷ inputs) = do
  (call, item) ← translate_item calls seen input
  items ← translate_items calls (insert call true seen) inputs
  ok (item ∷ items)

abbrev completed_link : Option BrokerResponseId → Bool
completed_link none = false
completed_link (some previous) = previous.completed

abbrev has_functions_link : Option BrokerResponseId → Bool
has_functions_link none = false
has_functions_link (some previous) = previous.has_functions

-- The first round: one text, perhaps after a completed response with no open calls.
first_round : Option BrokerResponseId → ResponseRequest → RequestInput → Result ResponseRequest
first_round none request (RequestInput.text s) = ok request
first_round (some previous) request (RequestInput.text s) =
    ok (record request { previous_response_id = previous.remote_id })
first_round previous request _ = err invalid

-- A later round: the outputs of all the calls of the previous response.
later_round : BrokerResponseId → ResponseRequest → RequestInput → Result ResponseRequest
later_round previous request (list inputs) = do
  refuse (not previous.has_functions) conflict
  refuse (not (length inputs == length previous.call_ids)) conflict
  items ← translate_items previous.call_ids [] inputs
  ok (record request { input = list items; previous_response_id = previous.remote_id })
later_round previous request _ = err conflict

later_link :
    Platform → BrokerContext → Option BrokerResponseId → ResponseRequest → Result ResponseRequest
later_link p c none request = err conflict
later_link p c (some previous) request = do
  refuse (not (previous.prompt_key == prompt_key p c)) conflict
  later_round previous request request.input

-- brokerTranslatePrevious
unfoldable pub translate_previous :
    Platform → BrokerSession → BrokerContext → Bool → ResponseRequest → Result ResponseRequest
unfolding first_round later_round later_link
translate_previous p session c first request = do
  let previous = get request.previous_response_id session.responses
  refuse
      (not (request.previous_response_id == "")
        && (not (completed_link previous) || (first && has_functions_link previous)))
      conflict
  if first then first_round previous request request.input else later_link p c previous request

new_invocation : BrokerContext → BrokerInvocation
new_invocation c = record {
  sequence = c.invocation_sequence;
  operation_id = c.operation_id;
  body_digest = c.body_sha256;
  state = InvocationState.reserved;
  response_id = "";
  response_alias = "";
}

-- The prompt with its reserved invocation.
unfoldable pub reserve_prompt : BrokerContext → BrokerPrompt → BrokerPrompt
unfolding new_invocation
reserve_prompt c prompt = record prompt {
  last_sequence = c.invocation_sequence;
  invocations = insert c.invocation_sequence (new_invocation c) prompt.invocations;
}

-- The checks of the prompt and of its lease.
unfoldable pub reserve_checks :
    Platform → BrokerContext → ℕ → ResponseRequest → BrokerPrompt → Result (Unit {0})
reserve_checks p c now request prompt = do
  refuse (prompt.closing || prompt.settled || leb prompt.lease_expires_at now) closed
  refuse
      (not (c.lease_generation == prompt.lease_generation)
        || not (time_or_zero p c.lease_expires_at == prompt.lease_expires_at)
        || leb c.invocation_sequence prompt.last_sequence)
      conflict
  refuse
      (not (prompt.last_sequence == 0) && not (request.previous_response_id == prompt.last_alias))
      conflict

-- What a continuation's outputs become, where an AgentKit proof is configured: brokerAgentKitOutputs.
abbrev pub Outputs : Type 0
Outputs = ResponseRequest → Result ResponseRequest

-- The function that reserveInvocation hands to its commit, with the request that it leaves.
unfoldable pub reserve_change :
    Platform
    → Outputs
    → BrokerContext
    → ℕ
    → ResponseRequest
    → BrokerLedger
    → Result (BrokerLedger × ResponseRequest)
reserve_change p outputs c now request next = do
  session ← ensure_session p next c
  refuse (session.retiring || session.retired) closed
  (recorded, duplicate) ← record_operation p session responses c
  refuse duplicate conflict
  (session', prompt) ← ensure_prompt p recorded c
  reserve_checks p c now request prompt
  translated ← translate_previous p session' c (prompt.last_sequence == 0) request
  final ← outputs translated
  ok (put_session p c (put_prompt p c (reserve_prompt c prompt) session') next, final)

abbrev pub ledger_part : Result (BrokerLedger × ResponseRequest) → Result BrokerLedger
ledger_part (ok (next, request)) = ok next
ledger_part (err e) = err e

start_active : Platform → BrokerContext → Result (Unit {0}) × Process → Result (Unit {0}) × Process
start_active p c (err e, b) = (err e, b)
start_active p c (ok _, b) = (
  ok tt,
  record b {
    active =
        insert (owner_key p c.owner) (record { prompt = prompt_key p c; cancelled = false })
          b.active;
  },
)

-- reserveInvocation
unfoldable pub reserve_invocation :
    Platform
    → Codec
    → Outputs
    → SaveOutcome
    → BrokerContext
    → ℕ
    → ResponseRequest
    → Process
    → Result (Unit {0}) × Process
unfolding start_active
reserve_invocation p codec outputs outcome c now request b =
    if b.storage_error
    then (err storage, b)
    else if b.stopped
    then (err closed, b)
    else if is_some (get (owner_key p c.owner) b.active)
    then (err conflict, b)
    else start_active p c (
        commit_capacity codec outcome true
          (λ next. ledger_part (reserve_change p outputs c now request next)) b)
