-- ===== src/Adapter/Tests.antt =====
-- Runs of the adapter's state: one turn, its end and a second start of it.
use agent_runtime_foundry.Base.Map.{get, insert}
use agent_runtime_foundry.Base.Text.{size}
use agent_runtime_foundry.Harness.Types.{pos}
use agent_runtime_foundry.Adapter.Types.{TurnState, default_tombstone_retention}
use agent_runtime_foundry.Adapter.Requests.{new_turn, compact_request}
use agent_runtime_foundry.Adapter.Frames.{
  frames_after, turn_stream_idle, new_frame, add_frame, append_frame, frame_capacity, started_frame,
  ensure_terminal_started, set_started, flush_output, flush_pending, flush_best_effort,
}
use agent_runtime_foundry.Adapter.Frames.After.{frames_above, frames_after-frames_above}
use agent_runtime_foundry.Adapter.Finish.{
  seal, closed_request, settle_output, append_cancelled, append_ending, finish,
}
use agent_runtime_foundry.Adapter.Run.{cancel_running}
use agent_runtime_foundry.Adapter.Lifecycle.History.{reached-Sound}
use agent_runtime_foundry.Adapter.Lifecycle.Tests.{
  platform, config, request, fresh, calling, fresh-calling,
}
use agent_runtime_foundry.Adapter.Retain.{
  Adapter, new_adapter, put_turn, prune_retained, bury, commit_turn, prune, retained_count,
  retained_total,
}
use agent_runtime_foundry.Adapter.Retain.Bounds.{prune_bounded}
use agent_runtime_foundry.Adapter.Start.{failed, turn_completed, turn_id_consumed, start_locked}
use agent_runtime_foundry.Adapter.System.{look}
use agent_runtime_foundry.Adapter.System.Buried.{Meanwhile, still, on, commit_turn-start_locked}
use agent_runtime_foundry.Base.{
  ◌+◌, ◌⊎◌, ◌*◌, ◌^◌, ◌≤◌, ◌≡◌, refl, true, false, none, is_some, [], ◌∷◌, length, string_eq, arith,
}

-- The first of the two frames is skipped.
frames_after-frames_above_example :
    frames_after calling (pos 1) ≡ (frames_above (pos 1) calling.frames, turn_stream_idle calling)
frames_after-frames_above_example =
    frames_after-frames_above calling (pos 1)
      (reached-Sound platform config request 50 none fresh-calling).0.numbered

-- The adapter with one turn.
abbrev running : Adapter
running = record new_adapter { heap = λ turn. fresh; next_turn = 1; turns = ("turn", 0) ∷ [] }

running_named : is_some (get "" running.turns) ≡ false
unfolding get
running_named = refl

prune_bounded_example :
    (length (prune 8 running).runtime_sessions ≤ 10000)
    × (length (prune 8 running).turn_tombstones ≤ 10000)
    × (retained_count (prune 8 running).heap (prune 8 running).turns ≤ 256)
    × (retained_total (prune 8 running).heap (prune 8 running).turns ≤ 64 * 2 ^ 20)
prune_bounded_example = prune_bounded 8 running running_named

abbrev ended : TurnState
ended = cancel_running platform config 9 fresh

ended_completed : ended.completed ≡ true
unfolding cancel_running new_turn compact_request finish settle_output ensure_terminal_started
    append_frame add_frame set_started started_frame new_frame flush_best_effort flush_output
    flush_pending frame_capacity size append_ending append_cancelled seal closed_request
ended_completed = refl

ended_id : request.turn_id ≡ ended.request.turn_id
unfolding cancel_running new_turn compact_request finish settle_output ensure_terminal_started
    append_frame add_frame set_started started_frame new_frame flush_best_effort flush_output
    flush_pending frame_capacity size append_ending append_cancelled seal closed_request
ended_id = refl

fresh_open : fresh.completed ≡ false
unfolding new_turn
fresh_open = refl

abbrev over : Adapter
over = commit_turn 9 0 ended running

over_few : length over.turn_tombstones ≤ 10000
unfolding commit_turn bury put_turn prune_retained cancel_running new_turn compact_request finish
    settle_output ensure_terminal_started append_frame add_frame set_started started_frame new_frame
    flush_best_effort flush_output flush_pending frame_capacity size append_ending append_cancelled
    seal closed_request insert
over_few = omega arith

-- getTurn prunes the adapter in between.
abbrev pruned : Adapter
pruned = prune 500 over

since : Meanwhile platform config 9 (9 + default_tombstone_retention) over pruned
since = on still (look 500 over) (omega arith, omega arith) over_few

commit_turn-start_locked_example :
    (start_locked platform config 1000 request pruned ≡ (failed turn_completed, pruned))
    ⊎ (start_locked platform config 1000 request pruned ≡ (failed turn_id_consumed, pruned))
commit_turn-start_locked_example =
    commit_turn-start_locked platform config 9 0 ended running pruned 1000 request ended_completed
      fresh_open since ended_id (omega arith)
