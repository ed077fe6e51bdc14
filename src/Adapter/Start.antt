-- ===== src/Adapter/Start.antt =====
-- startTurn, getTurn, cancelTurn and the calls that runResponse makes of the adapter's state
-- (internal/adapter/adapter.go), each in its sections under `a.mu`.
use agent_runtime_foundry.Base.Map.{Map, get, insert, delete}
use agent_runtime_foundry.Harness.Types.{StartTurnRequest, CancelTurnRequest}
use agent_runtime_foundry.Adapter.Types.{
  AdapterError, plain, AdapterConfig, AdapterPlatform, RuntimeSessionState, TurnTombstone,
  TurnState, unless,
}
use agent_runtime_foundry.Adapter.Checks.{plain_error}
use agent_runtime_foundry.Adapter.Tools.{validate_tool_definitions, validate_configured_tools}
use agent_runtime_foundry.Adapter.Requests.{
  prepare_start_request, validate_adapter_start, start_fingerprint, owner_fingerprint_of,
  cancel_matches, compact_request, new_turn,
}
use agent_runtime_foundry.Adapter.Run.{
  RunEnd, SessionChange, leave, forget, remember, cancel_running,
}
use agent_runtime_foundry.Adapter.Lifecycle.{initialization_failed}
use agent_runtime_foundry.Adapter.Retain.{
  Adapter, put_turn, maybe_delete_expired, prune, commit_turn, record_session,
}
use agent_runtime_foundry.Base.{
  ℕ, suc, String, Bool, true, false, not, ◌&&◌, ◌||◌, Option, none, some, [], ◌∷◌, length, ltb, leb,
  ◌==◌, nat_eq, string_eq, if◌then◌else◌, is_some,
}

-- The errors of startTurn that have a name in the source, beside those of its checks.
pub data StartError : Type 0 where
  turn_completed turn_id_consumed turn_already_exists runtime_session_busy : StartError
  runtime_session_owner_mismatch adapter_at_capacity : StartError
  path_rejected : StartError
  rejected : AdapterError → StartError

-- What the locked part of startTurn returns: an error, the turn that was there, or a new one.
pub data Started : Type 0 where
  failed : StartError → Started
  existing : ℕ → Started
  started : ℕ → Started

-- A turn that counts against the limit and keeps its runtime session busy.
unfoldable pub is_active : TurnState → Bool
is_active t = not (t.completed && not t.initializing && t.provider_in_flight == 0)

unfoldable pub active_count : (ℕ → TurnState) → Map String ℕ → ℕ
active_count heap [] = 0
active_count heap ((id, at) ∷ turns) =
    let rest = active_count heap turns in if is_active (heap at) then suc rest else rest

unfoldable pub session_busy : (ℕ → TurnState) → String → Map String ℕ → Bool
session_busy heap session [] = false
session_busy heap session ((id, at) ∷ turns) =
    (is_active (heap at) && (heap at).request.runtime_session_id == session)
    || session_busy heap session turns

module _ (p : AdapterPlatform) (c : AdapterConfig) (now : ℕ) where
  -- The checks of startTurn before it takes the lock, for a prepared request.
  unfoldable pub brokered_error : StartTurnRequest → Option AdapterError
  brokered_error r =
      if not (r.tool_execution_mode == "brokered")
      then none
      else if length c.brokered_tool_classes == 0
      then plain_error "foundry brokered tool mode is not enabled"
      else unless (validate_tool_definitions p r.input.tools) some
          (validate_configured_tools p c r.input.tools)

  unfoldable pub start_checks : StartTurnRequest → Option AdapterError
  start_checks r = unless (validate_adapter_start r) some (brokered_error r)

  -- The new turn takes its place.
  unfoldable pub register : StartTurnRequest → ℕ → Adapter → Started × Adapter
  register r bytes a = (
    started a.next_turn,
    record a {
      heap = λ other.
          if other == a.next_turn
          then new_turn p r bytes (get r.runtime_session_id a.runtime_sessions)
          else a.heap other;
      next_turn = suc a.next_turn;
      turns = insert r.turn_id a.next_turn a.turns;
    },
  )

  unfoldable pub owner_differs : StartTurnRequest → Option RuntimeSessionState → Bool
  owner_differs r none = false
  owner_differs r (some session) = not (session.owner_fingerprint == owner_fingerprint_of p r)

  unfoldable pub start_owned : StartTurnRequest → Option ℕ → Adapter → Started × Adapter
  start_owned r none a = (failed (rejected (plain p.marshal_error)), a)
  start_owned r (some bytes) a =
      if owner_differs r (get r.runtime_session_id a.runtime_sessions)
      then (failed runtime_session_owner_mismatch, a)
      else register r bytes a

  unfoldable pub start_new : StartTurnRequest → Adapter → Started × Adapter
  start_new r a =
      if session_busy a.heap r.runtime_session_id a.turns
      then (failed runtime_session_busy, a)
      else if ltb 0 c.max_concurrent && leb c.max_concurrent (active_count a.heap a.turns)
      then (failed adapter_at_capacity, a)
      else start_owned r (p.request_size (compact_request r)) a

  -- A turn with the id that is still kept.
  unfoldable pub start_existing : StartTurnRequest → Option ℕ → Adapter → Started × Adapter
  start_existing r none a = start_new r a
  start_existing r (some at) a =
      if (a.heap at).request_fingerprint == start_fingerprint p r
      then (existing at, a)
      else (failed turn_already_exists, a)

  unfoldable pub start_pruned : StartTurnRequest → Adapter → Started × Adapter
  start_pruned r a = start_existing r (get r.turn_id a.turns) a

  unfoldable pub start_buried :
      StartTurnRequest → Option TurnTombstone → Adapter → Started × Adapter
  start_buried r none a = start_pruned r (prune now a)
  start_buried r (some tombstone) a =
      if ltb now tombstone.expires_at
      then (if tombstone.fingerprint == start_fingerprint p r
          then (failed turn_completed, a)
          else (failed turn_id_consumed, a))
      else start_pruned r
          (prune now (record a { turn_tombstones = delete r.turn_id a.turn_tombstones }))

  -- The section of startTurn that decides on the turn, for a prepared request that passed its checks.
  unfoldable pub start_locked : StartTurnRequest → Adapter → Started × Adapter
  start_locked r a = start_buried r (get r.turn_id a.turn_tombstones) a

  -- startTurn, up to the new turn; its later sections are steps of the turn.
  unfoldable pub start_turn : StartTurnRequest → Adapter → Started × Adapter
  start_turn request a =
      let r = prepare_start_request request in
      unless (start_checks r) (λ e. (failed (rejected e), a))
        (if is_some (p.event_stream_path r.turn_id)
          then start_locked r a
          else (failed path_rejected, a))

  -- failInitialization: a turn that is not over is forgotten.
  unfoldable pub fail_initialization : ℕ → AdapterError → Adapter → Adapter
  fail_initialization at e a =
      let t = a.heap at in
      let failed_turn = put_turn at (initialization_failed e t) a in
      if t.completed
      then failed_turn
      else record failed_turn { turns = delete t.request.turn_id a.turns }

  -- The runtime session after an invocation.
  unfoldable pub change_session : SessionChange → TurnState → Adapter → Adapter
  change_session leave t a = a
  change_session forget t a = record a {
    runtime_sessions = delete t.request.runtime_session_id a.runtime_sessions;
  }
  change_session remember t a = record_session now t a

  -- The end of runResponse for the turn at a pointer, its deferred call included.
  unfoldable pub end_run : ℕ → RunEnd → Adapter → Adapter
  end_run at r a =
      maybe_delete_expired now r.turn
        (commit_turn now at r.turn (change_session r.session r.turn a))

  -- getTurn
  unfoldable pub get_turn : String → Adapter → Option ℕ × Adapter
  get_turn id a = (get id (prune now a).turns, prune now a)

  -- cancelTurn, for the pointer of its turn: whether the request matches, and the adapter.
  unfoldable pub cancel_found : CancelTurnRequest → ℕ → Adapter → Bool × Adapter
  cancel_found request at a =
      if cancel_matches request (a.heap at).request
      then (true, commit_turn now at (cancel_running p c now (a.heap at)) a)
      else (false, a)

  -- The timer of scheduleTurnCleanupLocked.
  unfoldable pub clean_up : String → Adapter → Adapter
  clean_up id a = elim (get id a.turns) [
    | none ↦ a
    | some at ↦ maybe_delete_expired now (a.heap at) a
  ]
