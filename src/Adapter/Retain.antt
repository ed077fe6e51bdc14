-- ===== src/Adapter/Retain.antt =====
-- What the adapter (internal/adapter/adapter.go) keeps beside its turns, and how it forgets: the
-- runtime sessions, the tombstones of turns that are over, and the turns that are kept for replay.
mod Oldest
pub mod Bounds
use agent_runtime_foundry.Base.Map.{Map, get, insert, delete}
use agent_runtime_foundry.Adapter.Types.{
  AdapterConfig, AdapterPlatform, RuntimeSessionState, TurnTombstone, TurnState, empty_turn,
  default_tombstone_retention, default_runtime_session_retention, max_runtime_sessions,
  max_turn_tombstones, max_retained_turns, max_retained_turn_state_bytes,
}
use agent_runtime_foundry.Base.{
  ℕ, zero, suc, ◌+◌, String, Bool, true, false, not, ◌&&◌, ◌||◌, Option, none, some, List, [], ◌∷◌,
  length, ltb, leb, ◌==◌, nat_eq, string_eq, if◌then◌else◌,
}

-- `adapter`: the turns that were ever made, by their pointers, and the maps that name them.
pub record Adapter : Type 0 where
  pub heap : ℕ → TurnState
  pub next_turn : ℕ
  pub turns : Map String ℕ
  pub runtime_sessions : Map String RuntimeSessionState
  pub turn_tombstones : Map String TurnTombstone

-- newAdapter
abbrev pub new_adapter : Adapter
new_adapter = record {
  heap = λ turn. empty_turn;
  next_turn = 0;
  turns = [];
  runtime_sessions = [];
  turn_tombstones = [];
}

unfoldable pub put_turn : ℕ → TurnState → Adapter → Adapter
put_turn at t a = record a { heap = λ other. if other == at then t else a.heap other }

module _ {V : Type 0} where
  -- A loop that deletes the entries that a test does not keep.
  unfoldable pub keep_entries : (V → Bool) → Map String V → Map String V
  keep_entries test [] = []
  keep_entries test ((k, v) ∷ m) =
      let rest = keep_entries test m in if test v then (k, v) ∷ rest else rest

  -- The loops that look for the oldest entry: `""` means that there is none so far.
  unfoldable pub oldest : (String → V → Bool) → (V → ℕ) → Map String V → String → ℕ → String
  oldest candidate time [] id when = id
  oldest candidate time ((k, v) ∷ m) id when =
      let better = candidate k v && (id == "" || ltb (time v) when) in
      oldest candidate time m (if better then k else id) (if better then time v else when)

  -- The loops `for len(m) > limit`, on fuel.
  unfoldable pub trim : ℕ → ℕ → (V → ℕ) → Map String V → Map String V
  trim zero limit time m = m
  trim (suc fuel) limit time m =
      let rest = trim fuel limit time (delete (oldest (λ k v. true) time m "" 0) m) in
      if ltb limit (length m) then rest else m

-- pruneRuntimeSessionsLocked
unfoldable pub prune_sessions : ℕ → Map String RuntimeSessionState → Map String RuntimeSessionState
prune_sessions now sessions =
    let fresh =
      keep_entries
        (λ (s : RuntimeSessionState). ltb now (s.last_seen + default_runtime_session_retention))
        sessions in
    trim (length fresh) max_runtime_sessions (λ s. s.last_seen) fresh

-- The tombstones' part of pruneLocked.
unfoldable pub prune_tombstones : ℕ → Map String TurnTombstone → Map String TurnTombstone
prune_tombstones now tombstones =
    let fresh = keep_entries (λ (t : TurnTombstone). ltb now t.expires_at) tombstones in
    trim (length fresh) max_turn_tombstones (λ t. t.expires_at) fresh

-- A turn that is over and that no provider call uses.
unfoldable pub is_retained : TurnState → Bool
is_retained t = t.completed && t.provider_in_flight == 0

-- The number and the bytes of such turns.
unfoldable pub retained_count : (ℕ → TurnState) → Map String ℕ → ℕ
retained_count heap [] = 0
retained_count heap ((id, at) ∷ turns) =
    let rest = retained_count heap turns in if is_retained (heap at) then suc rest else rest

unfoldable pub retained_total : (ℕ → TurnState) → Map String ℕ → ℕ
retained_total heap [] = 0
retained_total heap ((id, at) ∷ turns) =
    let rest = retained_total heap turns in
    if is_retained (heap at) then (heap at).retained_bytes + rest else rest

abbrev pub within_limits : (ℕ → TurnState) → Map String ℕ → Bool
within_limits heap turns =
    leb (retained_count heap turns) max_retained_turns
    && leb (retained_total heap turns) max_retained_turn_state_bytes

abbrev pub oldest_retained : (ℕ → TurnState) → String → Map String ℕ → String
oldest_retained heap prefer_keep turns =
    oldest (λ id at. is_retained (heap at) && not (id == prefer_keep)) (λ at. (heap at).cleanup_at)
      turns "" 0

-- The loop of pruneRetainedTurnsLocked, on fuel.
unfoldable pub prune_retained_turns : ℕ → (ℕ → TurnState) → String → Map String ℕ → Map String ℕ
prune_retained_turns zero heap prefer_keep turns = turns
prune_retained_turns (suc fuel) heap prefer_keep turns =
    let rest =
      prune_retained_turns fuel heap prefer_keep
        (delete (oldest_retained heap prefer_keep turns) turns) in
    if within_limits heap turns || oldest_retained heap prefer_keep turns == "" then turns else rest

-- pruneRetainedTurnsLocked: each round deletes a turn.
unfoldable pub prune_retained : String → Adapter → Adapter
prune_retained prefer_keep a = record a {
  turns = prune_retained_turns (length a.turns) a.heap prefer_keep a.turns;
}

-- maybeDeleteExpiredTurnLocked
unfoldable pub maybe_delete_expired : ℕ → TurnState → Adapter → Adapter
maybe_delete_expired now t a =
    if not (is_retained t) || ltb now t.cleanup_at
    then a
    else record a { turns = delete t.request.turn_id a.turns }

-- The loop of pruneLocked over the turns; it visits those that were there when it began.
unfoldable pub delete_expired : ℕ → Map String ℕ → Adapter → Adapter
delete_expired now [] a = a
delete_expired now ((id, at) ∷ turns) a =
    delete_expired now turns (maybe_delete_expired now (a.heap at) a)

-- pruneLocked
unfoldable pub prune : ℕ → Adapter → Adapter
prune now a =
    let b =
      prune_retained "" (record a { runtime_sessions = prune_sessions now a.runtime_sessions }) in
    let d = delete_expired now b.turns b in
    record d { turn_tombstones = prune_tombstones now d.turn_tombstones }

-- What finishTerminalLocked changes beside the turn `t`, which it has sealed.
unfoldable pub bury : ℕ → TurnState → Adapter → Adapter
bury now t a = prune_retained t.request.turn_id (record a {
  turn_tombstones =
      insert t.request.turn_id
        (record {
          fingerprint = t.request_fingerprint;
          expires_at = now + default_tombstone_retention;
        })
        a.turn_tombstones;
})

-- The turn at a pointer after one of its sections; a section that ends the turn buries it.
unfoldable pub commit_turn : ℕ → ℕ → TurnState → Adapter → Adapter
commit_turn now at t a =
    if t.completed && not (a.heap at).completed
    then bury now t (put_turn at t a)
    else put_turn at t a

-- recordRuntimeSessionLocked, beside the turn.
unfoldable pub record_session : ℕ → TurnState → Adapter → Adapter
record_session now t a =
    if t.agent_session_id == "" && t.previous_response == "" then a else record a {
      runtime_sessions = prune_sessions now (
          insert t.request.runtime_session_id
            (record {
              owner_fingerprint = t.owner_fingerprint;
              agent_session_id = t.agent_session_id;
              previous_response = t.previous_response;
              last_seen = now;
            })
            a.runtime_sessions);
    }
