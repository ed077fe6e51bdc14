-- ===== src/Adapter/Sound/Run.antt =====
-- runResponse keeps a turn sound, whatever the provider answers.
use agent_runtime_foundry.Foundry.Responses.{StreamSummary}
use agent_runtime_foundry.Adapter.Types.{
  AdapterError, AdapterConfig, AdapterPlatform, TurnState, Outcome,
}
use agent_runtime_foundry.Adapter.Checks.{error_text, provider_session_checkpoint_invalid}
use agent_runtime_foundry.Adapter.Frames.{ensure_turn_started, flush_output}
use agent_runtime_foundry.Adapter.Finish.{Ending}
use agent_runtime_foundry.Adapter.Run.{
  Invocation, RunEnd, SessionChange, remember, leave, run_start, check_summary, release,
  error_ending, run_error, end_with, continued, wait_for_tools, status_ending, run_status,
  limit_ending, run_flushed, run_started, keep_ids, run_answered, run_checked, run_open, run_end,
  flush_fired, flush_timer, watch_deadline, cancel_running, terminal_status,
}
use agent_runtime_foundry.Adapter.Sound.Tables.{TurnSound, OpenSound}
use agent_runtime_foundry.Adapter.Sound.Frames.{
  ensure_turn_started-Sound, flush_output-Sound, drop_output-Sound,
}
use agent_runtime_foundry.Adapter.Sound.Finish.{finish-Sound}
use agent_runtime_foundry.Adapter.Sound.Continue.{prepare_continuation-Sound, end_fault-Sound}
use agent_runtime_foundry.Base.{
  ℕ, inl, inr, ◌⊎◌, Bool, true, false, if_elim, none, some, length, ◌==◌, string_eq, nat_eq,
}

module _ (p : AdapterPlatform) (c : AdapterConfig) (now : ℕ) (t0 : TurnState) where
  abbrev EndSound : RunEnd → Type 0
  EndSound r = TurnSound c t0 r.turn

  run_error-Sound :
      (expired : Bool) (e : AdapterError) (inv : Invocation) (t : TurnState)
      → OpenSound c t0 t
      → EndSound (run_error p c now expired e inv t)
  unfolding run_error
  run_error-Sound expired e inv t s =
      if_elim EndSound (provider_session_checkpoint_invalid e inv.request) _ _
        (λ _.
          finish-Sound p c now t0 (error_ending p c now expired e)
            (record t { agent_session_id = ""; previous_response = "" }) s)
        (λ _. finish-Sound p c now t0 (error_ending p c now expired e) t s)

  end_with-Sound :
      (change : SessionChange) (ending : Ending) (t : TurnState)
      → OpenSound c t0 t
      → EndSound (end_with p c now change ending t)
  unfolding end_with
  end_with-Sound change ending t s = finish-Sound p c now t0 ending t s

  wait_for_tools-Sound : (t : TurnState) → OpenSound c t0 t → EndSound (wait_for_tools p c now t)
  unfolding wait_for_tools continued
  wait_for_tools-Sound t s =
      if_elim EndSound (length t.buffered_results == length t.pending_tools) _ _
        (λ _. end_fault-Sound p c now t0 error_text _ (prepare_continuation-Sound p c now t0 t s))
        (λ _. (s.1, s.2, s.3))

  run_status-Sound :
      (summary : StreamSummary) (t : TurnState)
      → OpenSound c t0 t
      → EndSound (run_status p c now summary t)
  unfolding run_status
  run_status-Sound summary t s =
      if_elim EndSound (terminal_status summary == "completed") _ _
        (λ _.
          if_elim EndSound (length t.pending_tools == 0) _ _
            (λ _. end_with-Sound remember Ending.completed t s)
            (λ _. wait_for_tools-Sound (record t { waiting_for_tools = true }) s))
        (λ _. end_with-Sound leave (status_ending p c now summary) t s)

  run_flushed-Sound :
      (summary : StreamSummary) (o : Outcome)
      → OpenSound c t0 o.1
      → EndSound (run_flushed p c now summary o)
  unfolding run_flushed
  run_flushed-Sound summary (none, t) s = run_status-Sound summary t s
  run_flushed-Sound summary (some e, t) s =
      end_with-Sound leave (limit_ending p c now e) _ (drop_output-Sound p c now t0 t s)

  run_started-Sound :
      (summary : StreamSummary) (o : Outcome)
      → OpenSound c t0 o.1
      → EndSound (run_started p c now summary o)
  unfolding run_started
  run_started-Sound summary (none, t) s =
      run_flushed-Sound summary (flush_output p c now t) (flush_output-Sound p c now t0 t s)
  run_started-Sound summary (some e, t) s = end_with-Sound leave (limit_ending p c now e) t s

  run_answered-Sound :
      (expired : Bool) (summary : StreamSummary) (inv : Invocation) (t : TurnState)
      → OpenSound c t0 t
      → EndSound (run_answered p c now expired summary inv t)
  unfolding run_answered keep_ids
  run_answered-Sound expired summary inv t s =
      if_elim EndSound expired _ _
        (λ _. end_with-Sound leave _ (record t { current_invocation_uncertain = false }) s)
        (λ _.
          run_started-Sound summary (ensure_turn_started p c now (keep_ids p c now inv t))
            (ensure_turn_started-Sound p c now t0 (keep_ids p c now inv t) s))

  run_checked-Sound :
      (expired : Bool) (summary : StreamSummary) (inv : Invocation) (t : TurnState)
      (checked : AdapterError ⊎ Invocation)
      → OpenSound c t0 t
      → EndSound (run_checked p c now expired summary inv t checked)
  unfolding run_checked
  run_checked-Sound expired summary inv t (inl e) s = run_error-Sound expired e inv t s
  run_checked-Sound expired summary inv t (inr inv') s = run_answered-Sound expired summary inv' t s

  run_open-Sound :
      (expired : Bool) (answer : AdapterError ⊎ StreamSummary) (inv : Invocation) (t : TurnState)
      → OpenSound c t0 t
      → EndSound (run_open p c now expired answer inv t)
  unfolding run_open
  run_open-Sound expired (inl e) inv t s = run_error-Sound expired e inv t s
  run_open-Sound expired (inr summary) inv t s =
      run_checked-Sound expired summary inv t (check_summary summary inv) s

  pub run_end-Sound :
      (expired : Bool) (answer : AdapterError ⊎ StreamSummary) (inv : Invocation) (t : TurnState)
      → TurnSound c t0 t
      → TurnSound c t0 (run_end p c now expired answer inv t).turn
  unfolding run_end release
  run_end-Sound expired answer inv t s =
      if_elim EndSound t.completed _ _ (λ _. s)
        (λ op. run_open-Sound expired answer inv (release p c now t) (op, s.0, s.1, s.2))

  pub run_start-Sound : (t : TurnState) → TurnSound c t0 t → TurnSound c t0 (run_start t)
  unfolding run_start
  run_start-Sound t s = if_elim (TurnSound c t0) t.completed _ _ (λ _. s) (λ _. s)

  flush_fired-Sound : (o : Outcome) → OpenSound c t0 o.1 → TurnSound c t0 (flush_fired p c now o)
  unfolding flush_fired
  flush_fired-Sound (none, t) s = (s.1, s.2, s.3)
  flush_fired-Sound (some e, t) s =
      finish-Sound p c now t0 (limit_ending p c now e) _ (drop_output-Sound p c now t0 t s)

  pub flush_timer-Sound :
      (t : TurnState) → TurnSound c t0 t → TurnSound c t0 (flush_timer p c now t)
  unfolding flush_timer
  flush_timer-Sound t s =
      if_elim (TurnSound c t0) t.completed _ _ (λ _. s)
        (λ op.
          flush_fired-Sound (flush_output p c now t)
            (flush_output-Sound p c now t0 t (op, s.0, s.1, s.2)))

  pub watch_deadline-Sound :
      (t : TurnState) → TurnSound c t0 t → TurnSound c t0 (watch_deadline p c now t)
  unfolding watch_deadline
  watch_deadline-Sound t s =
      if_elim (TurnSound c t0) t.completed _ _ (λ _. s)
        (λ op. finish-Sound p c now t0 _ t (op, s.0, s.1, s.2))

  pub cancel_running-Sound :
      (t : TurnState) → TurnSound c t0 t → TurnSound c t0 (cancel_running p c now t)
  unfolding cancel_running
  cancel_running-Sound t s =
      if_elim (TurnSound c t0) t.completed _ _ (λ _. s)
        (λ op. finish-Sound p c now t0 Ending.cancelled t (op, s.0, s.1, s.2))
