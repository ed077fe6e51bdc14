-- ===== src/Broker/Response/Tests.antt =====
-- A completed response with two calls, and a supply of texts for their aliases.
use agent_runtime_foundry.Base.Text.{append, size, utf8_size, any_char, is_control}
use agent_runtime_foundry.Base.Map.{get, insert}
use agent_runtime_foundry.Foundry.Digest.{digest, hex_encode, hex_digit}
use agent_runtime_foundry.Foundry.Responses.{OutputItem, Response, StreamSummary}
use agent_runtime_foundry.Foundry.Strings.{safe_string}
use agent_runtime_foundry.Broker.Types.{
  Result, ok, err, BrokerInvocation, BrokerLedger, CreateState, InvocationState,
}
use agent_runtime_foundry.Broker.Platform.{owner_key, prompt_key}
use agent_runtime_foundry.Broker.Ledger.{new_prompt}
use agent_runtime_foundry.Broker.Invoke.{find_session, find_prompt, find_invocation}
use agent_runtime_foundry.Broker.Response.{alias_calls, completed_response, complete_change}
use agent_runtime_foundry.Broker.Response.Aliases.{Distinct}
use agent_runtime_foundry.Broker.Response.Stored.{Stored, complete_change-Stored}
use agent_runtime_foundry.Broker.Tests.{platform, owner, context}
use agent_runtime_foundry.Base.{
  ℕ, zero, suc, String, ◌≡◌, refl, ap, false, none, [], ◌∷◌, string_eq, nat_eq,
}

-- A supply of texts that never repeats: n in unary.
abbrev unary : ℕ → String
unary zero = ""
unary (suc n) = append "u" (unary n)

text_rest : String → String
text_rest String.[] = String.[]
text_rest (String.◌∷◌ c s) = s

unary-Distinct : Distinct unary
unfolding append text_rest
unary-Distinct zero zero h = refl
unary-Distinct zero (suc j) h = cc
unary-Distinct (suc i) zero h = cc
unary-Distinct (suc i) (suc j) h = ap suc (unary-Distinct i j (ap text_rest h))

abbrev call_item : String → OutputItem
call_item call = record {
  id = "item";
  type_name = "function_call";
  call_id = call;
  name = "lookup";
  arguments = "{}";
  content = [];
}

abbrev accepted : BrokerInvocation
accepted = record {
  sequence = 1;
  operation_id = "first";
  body_digest = "body";
  state = InvocationState.accepted;
  response_id = "resp_1";
  response_alias = "fr_1";
}

-- A ledger with one prompt, whose invocation was accepted by the provider.
abbrev accepted_ledger : BrokerLedger
accepted_ledger = record {
  version = 1;
  config_digest = "config";
  principal_digest = "";
  sessions =
      (
        owner_key platform owner,
        record {
          owner = owner;
          remote_id = "remote";
          create_state = CreateState.known;
          retiring = false;
          retired = false;
          proof_digest = "";
          current_prompt = prompt_key platform (context "first");
          prompts =
              (
                prompt_key platform (context "first"),
                record (new_prompt (context "first") 100) {
                  last_sequence = 1;
                  invocations = (1, accepted) ∷ [];
                },
              )
              ∷ [];
          responses = [];
          operations = ("first", "digest") ∷ [];
        },
      )
      ∷ [];
}

-- The provider's answer: a text and two calls.
abbrev summary : StreamSummary
summary = record {
  response_id = "resp_1";
  agent_session_id = "";
  status = "completed";
  text = "hello";
  function_calls = call_item "first" ∷ call_item "second" ∷ [];
  error = none;
  incomplete = none;
}

abbrev completed : Result (BrokerLedger × Response)
completed = complete_change platform (context "first") 7 unary summary accepted_ledger

abbrev completed_ledger : Result (BrokerLedger × Response) → BrokerLedger
completed_ledger (ok (after, output)) = after
completed_ledger (err e) = accepted_ledger

abbrev completed_output : Result (BrokerLedger × Response) → Response
completed_output (ok (after, output)) = output
completed_output (err e) = completed_response "" []

completed_ok : completed ≡ ok (completed_ledger completed, completed_output completed)
unfolding complete_change find_session find_prompt find_invocation owner_key prompt_key digest
    hex_encode hex_digit append get new_prompt alias_calls insert safe_string size utf8_size
    any_char is_control
completed_ok = refl

complete_change-Stored_example :
    Stored platform
      (context "first")
      summary
      (completed_ledger completed)
      (completed_output completed)
complete_change-Stored_example =
    complete_change-Stored platform (context "first") 7 unary summary accepted_ledger
      (completed_ledger completed) (completed_output completed) unary-Distinct completed_ok
