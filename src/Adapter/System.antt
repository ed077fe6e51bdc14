-- ===== src/Adapter/System.antt =====
-- The adapter of internal/adapter/adapter.go as a whole: the sections under `a.mu`, of any turn and in
-- any order, as steps.
mod Inactive
mod Turns
mod Added
pub mod Buried
pub mod Exclusive
mod Tests
use agent_runtime_foundry.Harness.Types.{StartTurnRequest}
use agent_runtime_foundry.Adapter.Types.{AdapterConfig, AdapterPlatform, TurnState}
use agent_runtime_foundry.Adapter.Run.{SessionChange}
use agent_runtime_foundry.Adapter.Lifecycle.{TurnStep}
use agent_runtime_foundry.Adapter.Retain.{
  Adapter, new_adapter, maybe_delete_expired, prune, commit_turn,
}
use agent_runtime_foundry.Adapter.Start.{start_locked, change_session}
use agent_runtime_foundry.Base.Map.{delete}
use agent_runtime_foundry.Base.{ℕ, String, ◌≡◌, string_eq}

pub data AdapterStep (p : AdapterPlatform) (c : AdapterConfig) : Adapter → Adapter → Type 0 where
  -- The locked part of startTurn.
  begin :
      (now : ℕ) (r : StartTurnRequest) (a : Adapter)
      → AdapterStep p c a (start_locked p c now r a).1
  -- A section of the turn at a pointer.
  change :
      (now at : ℕ) (u : TurnState) (a : Adapter)
      → TurnStep p c (a.heap at) u
      → AdapterStep p c a (commit_turn now at u a)
  -- The runtime session after an invocation.
  session :
      (now : ℕ) (how : SessionChange) (t : TurnState) (a : Adapter)
      → AdapterStep p c a (change_session p c now how t a)
  -- The deferred call of runResponse, and the timer of scheduleTurnCleanupLocked.
  clean : (now : ℕ) (t : TurnState) (a : Adapter) → AdapterStep p c a (maybe_delete_expired now t a)
  -- getTurn.
  look : (now : ℕ) (a : Adapter) → AdapterStep p c a (prune now a)
  -- The deletion of failInitialization.
  drop : (id : String) (a : Adapter) → AdapterStep p c a (record a { turns = delete id a.turns })

pub data AdapterReaches (p : AdapterPlatform) (c : AdapterConfig) : Adapter → Type 0 where
  empty : AdapterReaches p c new_adapter
  next : {a b : Adapter} → AdapterReaches p c a → AdapterStep p c a b → AdapterReaches p c b
