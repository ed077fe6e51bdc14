-- ===== src/Adapter/System/Tests.antt =====
-- A run of the adapter as a whole: one turn starts.
use agent_runtime_foundry.Base.Map.{get, insert}
use agent_runtime_foundry.Adapter.Requests.{new_turn, compact_request}
use agent_runtime_foundry.Adapter.Lifecycle.Tests.{platform, config, request}
use agent_runtime_foundry.Adapter.Retain.{
  Adapter, new_adapter, prune, prune_sessions, prune_tombstones, prune_retained,
  prune_retained_turns, delete_expired, trim, keep_entries, retained_count, retained_total,
  is_retained, maybe_delete_expired,
}
use agent_runtime_foundry.Adapter.Start.{
  failed, runtime_session_busy, is_active, active_count, session_busy, register, owner_differs,
  start_owned, start_new, start_existing, start_pruned, start_buried, start_locked,
}
use agent_runtime_foundry.Adapter.System.{begin, empty, next}
use agent_runtime_foundry.Adapter.System.Exclusive.{reached-exclusive}
use agent_runtime_foundry.Base.{◌≡◌, refl, true, some, string_eq}

abbrev begun : Adapter
begun = (start_locked platform config 7 request new_adapter).1

-- The turn is found, and it is active.
begun_facts : (get request.turn_id begun.turns ≡ some 0) × (is_active (begun.heap 0) ≡ true)
unfolding start_locked start_buried start_pruned start_existing start_new start_owned register
    owner_differs session_busy active_count prune prune_sessions prune_retained prune_retained_turns
    delete_expired trim keep_entries get insert new_turn is_active
begun_facts = (refl, refl)

-- A second turn of the session is refused.
second_busy :
    (start_locked platform config 8 (record request { turn_id = "other" }) begun).0
    ≡ failed runtime_session_busy
unfolding start_locked start_buried start_pruned start_existing start_new start_owned register
    owner_differs session_busy active_count prune prune_sessions prune_tombstones prune_retained
    prune_retained_turns retained_count retained_total is_retained maybe_delete_expired
    delete_expired trim keep_entries get insert new_turn compact_request is_active
second_busy = refl

reached-exclusive_example : request.turn_id ≡ request.turn_id
reached-exclusive_example =
    reached-exclusive platform config begun request.turn_id request.turn_id 0 0
      (next empty (begin 7 request new_adapter)) begun_facts.0 begun_facts.0 begun_facts.1
      begun_facts.1 refl
