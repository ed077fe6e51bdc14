-- ===== src/Foundry/Responses.antt =====
-- internal/foundry/responses.go: the request and response types, and how a response or a stream of
-- events becomes a summary. A `json.RawMessage` is its text. `request.Input`, of Go type `any`, is a
-- text, a list of items or something else; a field of an item is a text or something else.
use agent_runtime_foundry.Base.Text.{cut_prefix, append, equal_fold}
use agent_runtime_foundry.Base.Map.{Map}
use agent_runtime_foundry.Base.{
  String, Bool, true, false, not, ◌||◌, Option, none, some, List, [], ◌∷◌, ◌++◌, ◌==◌, string_eq,
  if◌then◌else◌,
}

pub data InputField : Type 0 where
  text : String → InputField
  other : InputField

pub data InputItem : Type 0 where
  object : Map String InputField → InputItem
  not_object : InputItem

pub data RequestInput : Type 0 where
  text : String → RequestInput
  list : List InputItem → RequestInput
  other : RequestInput

pub record ToolSchema : Type 0 where
  pub type_name : String
  pub name : String
  pub description : String
  pub parameters : String

pub record ResponseRequest : Type 0 where
  pub input : RequestInput
  pub stream : Bool
  pub store : Bool
  pub previous_response_id : String
  pub agent_session_id : String
  pub tools : List ToolSchema

pub record OutputContent : Type 0 where
  pub type_name : String
  pub text : String

pub record OutputItem : Type 0 where
  pub id : String
  pub type_name : String
  pub call_id : String
  pub name : String
  pub arguments : String
  pub content : List OutputContent

pub record ResponseError : Type 0 where
  pub type_name : String
  pub code : String
  pub message : String
  pub param : String

pub record Incomplete : Type 0 where
  pub reason : String

pub record Response : Type 0 where
  pub id : String
  pub status : String
  pub agent_session_id : String
  pub output : List OutputItem
  pub error : Option ResponseError
  pub incomplete : Option Incomplete

pub record ResponseEvent : Type 0 where
  pub type_name : String
  pub delta : String
  pub response : Option Response
  pub item : Option OutputItem
  pub error : Option ResponseError

pub record StreamSummary : Type 0 where
  pub response_id : String
  pub agent_session_id : String
  pub status : String
  pub text : String
  pub function_calls : List OutputItem
  pub error : Option ResponseError
  pub incomplete : Option Incomplete

abbrev pub empty_summary : StreamSummary
empty_summary = record {
  response_id = "";
  agent_session_id = "";
  status = "";
  text = "";
  function_calls = [];
  error = none;
  incomplete = none;
}

-- The errors: the terminal text does not extend the streamed one, a call changed, or a callback
-- failed.
pub data ResponseFault : Type 0 where
  text_mismatch call_changed callback_failed : ResponseFault

pub data Parsed {ℓ} (A : Type ℓ) : Type ℓ where
  ok : A → Parsed A
  err : ResponseFault → Parsed A

infixl 5 ◌>>=◌
abbrev pub ◌>>=◌ {ℓ κ} : {A : Type ℓ} {B : Type κ} → Parsed A → (A → Parsed B) → Parsed B
ok a >>= f = f a
err e >>= f = err e

-- ResponseCallbacks, over the state S of the caller: `none` where the source has a nil function; a
-- callback returns its caller's new state, or nothing where it returns an error.
pub record Callbacks (S : Type 0) : Type 0 where
  pub on_created : Option (Response → S → Option S)
  pub on_text_delta : Option (String → S → Option S)
  pub on_function_call : Option (OutputItem → S → Option S)

abbrev pub no_callbacks : Callbacks Unit
no_callbacks = record { on_created = none; on_text_delta = none; on_function_call = none }

abbrev pub called : {S : Type 0} → Option S → Parsed S
called none = err callback_failed
called (some s) = ok s

-- A call of a callback that may be nil.
abbrev pub call : {S A : Type 0} → Option (A → S → Option S) → A → S → Parsed S
call none a s = ok s
call (some f) a s = called (f a s)

abbrev pub or_text : String → String → String
or_text new old = if new == "" then old else new

abbrev pub or_old {ℓ} : {A : Type ℓ} → Option A → Option A → Option A
or_old none old = old
or_old (some new) old = some new

-- mergeResponse
unfoldable pub merge_response : StreamSummary → Response → StreamSummary
merge_response summary response = record summary {
  response_id = or_text response.id summary.response_id;
  agent_session_id = or_text response.agent_session_id summary.agent_session_id;
  status = or_text response.status summary.status;
  error = or_old response.error summary.error;
  incomplete = or_old response.incomplete summary.incomplete;
}

unfoldable pub content_text : List OutputContent → String
content_text [] = ""
content_text (content ∷ rest) = append content.text (content_text rest)

-- The text of the message items of an output.
unfoldable pub output_text : List OutputItem → String
unfolding content_text
output_text [] = ""
output_text (item ∷ rest) =
    let later = output_text rest in
    if item.type_name == "message" then append (content_text item.content) later else later

-- functionCallState: whether a call with the item's id was seen, and whether it differs.
unfoldable pub function_call_state : List OutputItem → OutputItem → Bool × Bool
function_call_state [] item = (false, false)
function_call_state (call ∷ calls) item =
    let later = function_call_state calls item in
    if call.call_id == item.call_id
    then (true, not (call.name == item.name) || not (call.arguments == item.arguments))
    else later

is_progress : String → Bool
is_progress kind =
    kind == "response.created" || kind == "response.in_progress" || kind == "response.queued"

is_terminal : String → Bool
is_terminal kind =
    kind == "response.completed"
    || kind == "response.failed"
    || kind == "response.incomplete"
    || kind == "response.cancelled"
    || kind == "response.canceled"

abbrev strip_response : String → String
strip_response kind = elim (cut_prefix kind "response.") [ none ↦ kind | some rest ↦ rest ]

module _ {S : Type 0} (callbacks : Callbacks S) where
  open callbacks use {on_created, on_text_delta, on_function_call}

  -- The state of a run: the summary so far and the caller's state.
  abbrev pub Run : Type 0
  Run = StreamSummary × S

  append_text : StreamSummary → String → S → Parsed Run
  append_text summary delta s =
      let grown = record summary { text = append summary.text delta } in
      if delta == "" then ok (grown, s) else do s' ← call on_text_delta delta s; ok (grown, s')

  append_call : StreamSummary → OutputItem → S → Parsed Run
  append_call summary item s = do
    s' ← call on_function_call item s
    ok (record summary { function_calls = summary.function_calls ++ item ∷ [] }, s')

  -- The text part of applyTerminalOutputFallback.
  terminal_text : StreamSummary → String → S → Parsed Run
  unfolding append_text
  terminal_text summary full s =
      if full == "" then ok (summary, s) else elim (cut_prefix full summary.text) [
        | none ↦ err text_mismatch
        | some remainder ↦ append_text summary remainder s
      ]

  terminal_call : Run → OutputItem → Parsed Run
  unfolding append_call
  terminal_call (summary, s) item =
      let (seen, conflict) = function_call_state summary.function_calls item in
      if not (item.type_name == "function_call")
      then ok (summary, s)
      else if conflict
      then err call_changed
      else if seen
      then ok (summary, s)
      else append_call summary item s

  -- The call part of applyTerminalOutputFallback.
  terminal_calls : List OutputItem → Run → Parsed Run
  terminal_calls [] run = ok run
  terminal_calls (item ∷ items) run = do run' ← terminal_call run item; terminal_calls items run'

  -- applyTerminalOutputFallback
  unfoldable pub terminal_fallback : StreamSummary → Response → S → Parsed Run
  unfolding terminal_text terminal_calls terminal_call
  terminal_fallback summary response s = do
    run ← terminal_text summary (output_text response.output) s
    terminal_calls response.output run

  progress_event : StreamSummary → String → Option Response → S → Parsed Run
  progress_event summary kind none s = ok (summary, s)
  progress_event summary kind (some response) s =
      let merged = merge_response summary response in
      if kind == "response.created"
      then (do s' ← call on_created response s; ok (merged, s'))
      else ok (merged, s)

  item_event : StreamSummary → Option OutputItem → S → Parsed Run
  unfolding append_call
  item_event summary none s = ok (summary, s)
  item_event summary (some item) s =
      if item.type_name == "function_call" then append_call summary item s else ok (summary, s)

  settle_status : String → Run → Parsed Run
  settle_status kind (summary, s) =
      if summary.status == ""
      then ok (record summary { status = strip_response kind }, s)
      else ok (summary, s)

  terminal_event : StreamSummary → String → Option Response → S → Parsed Run
  terminal_event summary kind none s = ok (summary, s)
  terminal_event summary kind (some response) s =
      let merged = merge_response summary response in
      if kind == "response.completed" then terminal_fallback merged response s else ok (merged, s)

  -- applyEvent
  unfoldable pub apply_event : StreamSummary → ResponseEvent → S → Parsed Run
  unfolding is_progress is_terminal progress_event item_event settle_status terminal_event
      append_text
  apply_event summary event s =
      let kind = event.type_name in
      if is_progress kind
      then progress_event summary kind event.response s
      else if kind == "response.output_text.delta"
      then append_text summary event.delta s
      else if kind == "response.output_item.done"
      then item_event summary event.item s
      else if is_terminal kind
      then (do run ← terminal_event summary kind event.response s; settle_status kind run)
      else if kind == "error"
      then ok (record summary { status = "failed"; error = event.error }, s)
      else ok (summary, s)

  complete_contents : List OutputContent → Run → Parsed Run
  unfolding append_text
  complete_contents [] run = ok run
  complete_contents (content ∷ rest) (summary, s) = do
    run ← append_text summary content.text s
    complete_contents rest run

  complete_item : OutputItem → Run → Parsed Run
  unfolding complete_contents append_call
  complete_item item (summary, s) =
      if item.type_name == "message"
      then complete_contents item.content (summary, s)
      else if item.type_name == "function_call"
      then append_call summary item s
      else ok (summary, s)

  complete_items : List OutputItem → Run → Parsed Run
  unfolding complete_item
  complete_items [] run = ok run
  complete_items (item ∷ items) run = do run' ← complete_item item run; complete_items items run'

  -- CompleteResponse
  unfoldable pub complete_response : Response → S → Parsed Run
  unfolding complete_items
  complete_response response s = do
    s' ← call on_created response s
    if equal_fold response.status "completed"
        then complete_items response.output (merge_response empty_summary response, s')
        else ok (merge_response empty_summary response, s')
