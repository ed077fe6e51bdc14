-- ===== src/Adapter/Lifecycle.antt =====
-- The life of a turn of internal/adapter/adapter.go: every section under `a.mu` that changes it is a
-- step, in whatever order the goroutines take them.
pub mod Invariant
pub mod History
pub mod Dispatch
pub mod Failure
pub mod Tests
use agent_runtime_foundry.Foundry.Responses.{OutputItem, StreamSummary, ResponseRequest}
use agent_runtime_foundry.Harness.Types.{StartTurnRequest, ContinueTurnRequest}
use agent_runtime_foundry.Adapter.Types.{
  AdapterError, AdapterConfig, AdapterPlatform, RuntimeSessionState, TurnState,
}
use agent_runtime_foundry.Adapter.Requests.{new_turn}
use agent_runtime_foundry.Adapter.Frames.{on_created, on_text_delta}
use agent_runtime_foundry.Adapter.Calls.{record_function_call}
use agent_runtime_foundry.Adapter.Continue.{continue_turn}
use agent_runtime_foundry.Adapter.Run.{
  Invocation, run_start, run_end, flush_timer, watch_deadline, cancel_running,
}
use agent_runtime_foundry.Base.{
  ℕ, String, Bool, true, false, Option, none, some, ◌⊎◌, if◌then◌else◌,
}

-- startTurn, when the provider has given a session, and when the turn is ready or is over meanwhile.
unfoldable pub session_created : String → TurnState → TurnState
session_created session t = if t.completed then t else record t { agent_session_id = session }

unfoldable pub initialized : TurnState → TurnState
initialized t = record t { initializing = false }

-- failInitialization, in the turn.
unfoldable pub initialization_failed : AdapterError → TurnState → TurnState
initialization_failed e t = record t {
  initializing = false;
  init_error = if t.completed then none else some e;
}

pub data TurnStep (p : AdapterPlatform) (c : AdapterConfig) : TurnState → TurnState → Type 0 where
  session_given : (id : String) (t : TurnState) → TurnStep p c t (session_created id t)
  ready : (t : TurnState) → TurnStep p c t (initialized t)
  init_failed : (e : AdapterError) (t : TurnState) → TurnStep p c t (initialization_failed e t)
  invoke : (t : TurnState) → TurnStep p c t (run_start t)
  created : (now : ℕ) (id : String) (t : TurnState) → TurnStep p c t (on_created p c now id t).1
  delta :
      (now : ℕ) (text : String) (t : TurnState) → TurnStep p c t (on_text_delta p c now text t).1
  called :
      (now : ℕ) (item : OutputItem) (t : TurnState)
      → TurnStep p c t (record_function_call p c now item t).1
  answered :
      (now : ℕ) (expired : Bool) (answer : AdapterError ⊎ StreamSummary) (inv : Invocation)
      (t : TurnState)
      → TurnStep p c t (run_end p c now expired answer inv t).turn
  continued :
      (now : ℕ) (request : ContinueTurnRequest) (t : TurnState)
      → TurnStep p c t (continue_turn p c now request t).1
  flushed : (now : ℕ) (t : TurnState) → TurnStep p c t (flush_timer p c now t)
  timed_out : (now : ℕ) (t : TurnState) → TurnStep p c t (watch_deadline p c now t)
  stopped : (now : ℕ) (t : TurnState) → TurnStep p c t (cancel_running p c now t)

pub data TurnReaches (p : AdapterPlatform) (c : AdapterConfig) (t0 : TurnState)
    : TurnState → Type 0 where
  here : TurnReaches p c t0 t0
  next : {t u : TurnState} → TurnReaches p c t0 t → TurnStep p c t u → TurnReaches p c t0 u
