-- ===== src/Broker/Tests.antt =====
-- Runs of the broker's ledger at one owner and one prompt: a response is reserved, the session is
-- retired, its reconciliation is planned and committed, and the broker restarts.
use agent_runtime_foundry.Base.Map.{get, insert, map_values, Every-empty}
use agent_runtime_foundry.Foundry.Responses.{RequestInput, ResponseRequest}
use agent_runtime_foundry.Foundry.Digest.{digest, hex_encode, hex_digit}
use agent_runtime_foundry.Base.Text.{append, bytes, utf8_char}
use agent_runtime_foundry.Broker.Types.{
  BrokerOwner, BrokerContext, retire, Result, ok, err, BrokerPrompt, BrokerSession, BrokerLedger,
  path_text, CreateState,
}
use agent_runtime_foundry.Broker.Platform.{Platform, owner_key, prompt_key, operation_digest}
use agent_runtime_foundry.Broker.Ledger.{
  ensure_session, put_session, add_prompt, ensure_prompt, put_prompt, record_operation, new_prompt,
}
use agent_runtime_foundry.Broker.Process.{Codec, Process, saved, commit_capacity}
use agent_runtime_foundry.Broker.Process.Commit.{commit_capacity-Committed, Committed, RoundTrips}
use agent_runtime_foundry.Broker.Control.{
  start_closing, close_prompts, retire_session, time_or_zero, control_prompt, control_session,
  control_change,
}
use agent_runtime_foundry.Broker.Reserve.{
  reserve_change, reserve_checks, reserve_prompt, translate_previous,
}
use agent_runtime_foundry.Broker.Reconcile.{
  Evidence, plan_evidence, session_plan, closing_keys, reconcile_change, settle_prompts,
  settle_prompt, settle_invocation, all_settled, retire_settled, restart_change, settlement_proof,
}
use agent_runtime_foundry.Broker.Reconcile.Settlement.{ProvedBy, reconcile_change-ProvedBy}
use agent_runtime_foundry.Broker.View.{
  control_response, initial_response, block_response, show_session, show_prompts, show_prompt,
  count_invocations, count_invocation, active_prompt,
}
use agent_runtime_foundry.Broker.View.Honest.{Proven, control_response-Proven}
use agent_runtime_foundry.Broker.View.Counted.{invocation_total}
use agent_runtime_foundry.Broker.Invoke.{pin_change}
use agent_runtime_foundry.Broker.Progress.{LedgerKept}
use agent_runtime_foundry.Broker.System.{Change, System, Step, Reaches}
use agent_runtime_foundry.Broker.System.Invariant.{SystemSound, reachable-Sound, reachable-Kept}
use agent_runtime_foundry.Broker.System.Once.{reserve_change-once}
use agent_runtime_foundry.Broker.System.Closing.{Closing, Refused, Closing-Refused}
use agent_runtime_foundry.Base.{
  All, ◌||◌, ◌<◌, ◌^◌, ◌∙◌, subst, some-injective, arith, String, ◌≡◌, ◌≢◌, refl, inl, true, false,
  Option, none, some, [], ◌∷◌, string_eq, sym,
}

abbrev pub platform : Platform
platform = record {
  sha256 = λ d. d;
  marshal_owner = λ o. 1 ∷ [];
  marshal_prompt = λ task attempt prompt request. 2 ∷ [];
  marshal_operation = λ path c. bytes path;
  marshal_settlement = λ a b c d e. 4 ∷ [];
  marshal_retirement = λ a b c d. 5 ∷ [];
  decode_base64 = λ text. none;
  encode_base64 = λ d. "";
  unmarshal_context = λ d. none;
  parse_time = λ text. some 100;
  format_time = λ t. "t";
  zero_time = 0;
  parse_uuid = λ text. some text;
}

abbrev pub owner : BrokerOwner
owner = record {
  runtime_instance_id = "runtime";
  supervisor_boot_id = "boot";
  controller_epoch = 1;
  runtime_pool_uid = "pool";
  runtime_pool_generation = 1;
  runtime_session_uid = "session";
  runtime_session_generation = 1;
  runtime_profile_digest = "profile";
  profile_digest_schema_version = 1;
}

abbrev pub context : String → BrokerContext
context operation = record {
  protocol = "orka.foundry.broker.v1";
  owner = owner;
  agent_configuration_digest = "config";
  task_uid = "task";
  task_attempt = 1;
  prompt_id = "prompt";
  prompt_request_digest = "request";
  lease_generation = 1;
  lease_expires_at = "later";
  operation_id = operation;
  invocation_sequence = 1;
  body_sha256 = "body";
}

abbrev request : ResponseRequest
request = record {
  input = RequestInput.text "hello";
  stream = true;
  store = true;
  previous_response_id = "";
  agent_session_id = "";
  tools = [];
}

abbrev empty_ledger : BrokerLedger
empty_ledger = record {
  version = 1;
  config_digest = "config";
  principal_digest = "";
  sessions = [];
}

abbrev ledger_of : Result BrokerLedger → BrokerLedger
ledger_of (ok l) = l
ledger_of (err e) = empty_ledger

abbrev reserved_result : Result (BrokerLedger × ResponseRequest)
reserved_result = reserve_change platform (λ r. ok r) (context "first") 7 request empty_ledger

abbrev first_part : Result (BrokerLedger × ResponseRequest) → BrokerLedger
first_part (ok (l, r)) = l
first_part (err e) = empty_ledger

abbrev second_part : Result (BrokerLedger × ResponseRequest) → ResponseRequest
second_part (ok (l, r)) = r
second_part (err e) = request

abbrev reserved_ledger : BrokerLedger
reserved_ledger = first_part reserved_result

abbrev retiring_ledger : BrokerLedger
retiring_ledger = ledger_of (control_change platform retire (context "second") 8 reserved_ledger)

abbrev session_of : Option BrokerSession → BrokerSession
session_of (some s) = s
session_of none = record {
  owner = owner;
  remote_id = "";
  create_state = CreateState.none;
  retiring = false;
  retired = false;
  proof_digest = "";
  current_prompt = "";
  prompts = [];
  responses = [];
  operations = [];
}

reserved_ok : reserved_result ≡ ok (reserved_ledger, second_part reserved_result)
unfolding reserve_change ensure_session record_operation ensure_prompt add_prompt reserve_checks
    translate_previous reserve_prompt owner_key prompt_key operation_digest put_session put_prompt
    get insert new_prompt digest hex_encode hex_digit append bytes path_text utf8_char time_or_zero
reserved_ok = refl

retiring_ok :
    control_change platform retire (context "second") 8 reserved_ledger ≡ ok retiring_ledger
unfolding reserve_change ensure_session record_operation ensure_prompt add_prompt reserve_checks
    translate_previous reserve_prompt owner_key prompt_key operation_digest put_session put_prompt
    get insert new_prompt digest hex_encode hex_digit append bytes path_text utf8_char time_or_zero
    control_change control_session control_prompt retire_session close_prompts start_closing
    map_values
retiring_ok = refl

-- The session of the retiring ledger, and what a reconciliation plans and commits for it.
abbrev retiring_session : BrokerSession
retiring_session = session_of (get (owner_key platform owner) retiring_ledger.sessions)

abbrev retired_ledger : BrokerLedger
retired_ledger = ledger_of (
    reconcile_change platform (owner_key platform owner) (session_plan retiring_session)
      Evidence.never_created 9 false retiring_ledger)

session_there : get (owner_key platform owner) retiring_ledger.sessions ≡ some retiring_session
unfolding reserve_change ensure_session record_operation ensure_prompt add_prompt reserve_checks
    translate_previous reserve_prompt owner_key prompt_key operation_digest put_session put_prompt
    get insert new_prompt digest hex_encode hex_digit append bytes path_text utf8_char time_or_zero
    control_change control_session control_prompt retire_session close_prompts start_closing
    map_values
session_there = refl

session_live : retiring_session.retired ≡ false
unfolding reserve_change ensure_session record_operation ensure_prompt add_prompt reserve_checks
    translate_previous reserve_prompt owner_key prompt_key operation_digest put_session put_prompt
    get insert new_prompt digest hex_encode hex_digit append bytes path_text utf8_char time_or_zero
    control_change control_session control_prompt retire_session close_prompts start_closing
    map_values
session_live = refl

session_planned : plan_evidence (session_plan retiring_session) ≡ some Evidence.never_created
unfolding reserve_change ensure_session record_operation ensure_prompt add_prompt reserve_checks
    translate_previous reserve_prompt owner_key prompt_key operation_digest put_session put_prompt
    get insert new_prompt digest hex_encode hex_digit append bytes path_text utf8_char time_or_zero
    control_change control_session control_prompt retire_session close_prompts start_closing
    map_values plan_evidence session_plan closing_keys
session_planned = refl

retired_ok :
    reconcile_change platform
      (owner_key platform owner)
      (session_plan retiring_session)
      Evidence.never_created
      9
      false
      retiring_ledger
    ≡ ok retired_ledger
unfolding reserve_change ensure_session record_operation ensure_prompt add_prompt reserve_checks
    translate_previous reserve_prompt owner_key prompt_key operation_digest put_session put_prompt
    get insert new_prompt digest hex_encode hex_digit append bytes path_text utf8_char time_or_zero
    control_change control_session control_prompt retire_session close_prompts start_closing
    map_values plan_evidence session_plan closing_keys reconcile_change settle_prompts settle_prompt
    settle_invocation all_settled retire_settled
retired_ok = refl

restarted_ok : restart_change retired_ledger ≡ ok (ledger_of (restart_change retired_ledger))
unfolding restart_change
restarted_ok = refl

abbrev start : System
start = record { ledger = empty_ledger; plans = [] }

abbrev reserved : System
reserved = record { ledger = reserved_ledger; plans = [] }

abbrev retiring : System
retiring = record { ledger = retiring_ledger; plans = [] }

abbrev restarted : System
restarted = record { ledger = ledger_of (restart_change retired_ledger); plans = [] }

retirement : Reaches platform retiring restarted
retirement =
    Reaches.then_step
      (Reaches.then_step
        (Reaches.then_step Reaches.here (
          Step.plan (owner_key platform owner) retiring_session Evidence.never_created session_there
            session_live session_planned))
        (Step.reconcile (owner_key platform owner) (session_plan retiring_session)
          Evidence.never_created 9 false (inl (refl, refl)) retired_ok))
      (Step.restart restarted_ok)

after_reserve : Reaches platform reserved retiring
after_reserve =
    Reaches.then_step Reaches.here
      (Step.change (Change.control retire (context "second") 8 retiring_ok))

whole_run : Reaches platform start retiring
whole_run =
    Reaches.then_step
      (Reaches.then_step Reaches.here (
        Step.change (
          Change.reserve (λ r. ok r) (context "first") 7 request (second_part reserved_result)
            reserved_ok)))
      (Step.change (Change.control retire (context "second") 8 retiring_ok))

-- The principal is pinned in the end.
abbrev pinned : System
pinned = record { ledger = record retiring_ledger { principal_digest = "principal" }; plans = [] }

pinned_ok : pin_change "principal" retiring_ledger ≡ ok pinned.ledger
unfolding pin_change
pinned_ok = refl

pinned_run : Reaches platform start pinned
pinned_run = Reaches.then_step whole_run (Step.change (Change.pin "principal" pinned_ok))

start-Sound : SystemSound start
start-Sound = record { ledger_sound = Every-empty _; plans_live = tt }

reachable-Sound_example : SystemSound pinned
reachable-Sound_example = reachable-Sound platform start pinned start-Sound pinned_run

reachable-Kept_example : LedgerKept retiring_ledger restarted.ledger
reachable-Kept_example = reachable-Kept platform retiring restarted retirement

reserve_change-once_example :
    reserve_change platform (λ r. ok r) (context "first") 50 request retiring_ledger
    ≢ ok (retiring_ledger, request)
reserve_change-once_example =
    reserve_change-once platform (λ r. ok r) (context "first") (context "first") 7 50 request
      request (second_part reserved_result) empty_ledger reserved retiring
      (retiring_ledger, request) reserved_ok after_reserve refl refl

abbrev prompt_of : Option BrokerPrompt → BrokerPrompt
prompt_of (some prompt) = prompt
prompt_of none = new_prompt (context "none") 0

first_prompt-Closing : Closing platform (context "first") retiring_ledger
unfolding reserve_change ensure_session record_operation ensure_prompt add_prompt reserve_checks
    translate_previous reserve_prompt owner_key prompt_key operation_digest put_session put_prompt
    get insert new_prompt digest hex_encode hex_digit append bytes path_text utf8_char time_or_zero
    control_change control_session control_prompt retire_session close_prompts start_closing
    map_values
first_prompt-Closing = (
  retiring_session,
  refl,
  prompt_of (get (prompt_key platform (context "first")) retiring_session.prompts),
  refl,
  refl,
)

Closing-Refused_example : Refused platform (context "first") restarted.ledger
Closing-Refused_example =
    Closing-Refused platform (context "first") retiring restarted first_prompt-Closing retirement

-- A codec whose documents are the ledgers.
abbrev codec : Codec
codec = record {
  Document = BrokerLedger;
  marshal = some;
  unmarshal = some;
  length = λ d. 10;
  equal = λ a b. false;
}

abbrev process : Process
process = record {
  ledger = empty_ledger;
  disk = empty_ledger;
  storage_error = false;
  stopped = false;
  active = [];
  workers = [];
  next_reconcile = [];
}

codec-RoundTrips : RoundTrips codec
codec-RoundTrips l d h = sym h

commit_capacity-Committed_example :
    Committed codec saved process (control_change platform retire (context "second") 8) (
      commit_capacity codec saved true
        (control_change platform retire (context "second") 8)
        process)
commit_capacity-Committed_example =
    commit_capacity-Committed codec saved true (control_change platform retire (context "second") 8)
      process codec-RoundTrips refl

reconcile_change-ProvedBy_example :
    (s : BrokerSession) × (get (owner_key platform owner) retired_ledger.sessions ≡ some s)
    × All
        (ProvedBy platform
          (owner_key platform owner)
          (session_plan retiring_session)
          Evidence.never_created
          9
          s.prompts)
        (session_plan retiring_session).closing
    × ((session_plan retiring_session).retiring ≡ true
        → (s.retired ≡ true) × (all_settled s.prompts ≡ true))
reconcile_change-ProvedBy_example =
    reconcile_change-ProvedBy platform (owner_key platform owner) (session_plan retiring_session)
      Evidence.never_created 9 false retiring_ledger retired_ledger retired_ok

abbrev retired_process : Process
retired_process = record process { ledger = retired_ledger; disk = retired_ledger }

abbrev retired_session : BrokerSession
retired_session = session_of (get (owner_key platform owner) retired_ledger.sessions)

-- The retired session is there, has one invocation, and its retirement is reported.
retirement_reported :
    (get (owner_key platform owner) retired_ledger.sessions ≡ some retired_session)
    × (invocation_total retired_session.prompts ≡ 1)
    × (((control_response platform (context "second") "digest" retired_process).settlement_proven
          || (control_response platform
              (context "second")
              "digest"
              retired_process).retirement_proven)
        ≡ true)
unfolding reserve_change ensure_session record_operation ensure_prompt add_prompt reserve_checks
    translate_previous reserve_prompt owner_key prompt_key operation_digest put_session put_prompt
    get insert new_prompt digest hex_encode hex_digit append bytes path_text utf8_char time_or_zero
    control_change control_session control_prompt retire_session close_prompts start_closing
    map_values plan_evidence session_plan closing_keys reconcile_change settle_prompts settle_prompt
    settle_invocation all_settled retire_settled control_response initial_response block_response
    show_session show_prompts show_prompt count_invocations count_invocation active_prompt
    settlement_proof
retirement_reported = (refl, refl, refl)

few_invocations :
    (s : BrokerSession)
    → get (owner_key platform owner) retired_ledger.sessions ≡ some s
    → invocation_total s.prompts < 2 ^ 32
few_invocations s there =
    let (is_there, one, _) = retirement_reported in
    subst (λ t. invocation_total t.prompts < 2 ^ 32) (some-injective _ _ (sym is_there ∙ there))
      (omega (arith, one))

control_response-Proven_example :
    (s : BrokerSession) × (get (owner_key platform owner) retired_ledger.sessions ≡ some s)
    × Proven platform
        (context "second")
        (get (owner_key platform owner) retired_process.active)
        s
        (control_response platform (context "second") "digest" retired_process)
control_response-Proven_example =
    control_response-Proven platform (context "second") "digest" retired_process few_invocations
      retirement_reported.2
