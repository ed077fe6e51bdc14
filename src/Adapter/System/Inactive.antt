-- ===== src/Adapter/System/Inactive.antt =====
-- A turn that is not active stays inactive.
use agent_runtime_foundry.Adapter.Types.{AdapterConfig, AdapterPlatform, TurnState}
use agent_runtime_foundry.Adapter.Run.{
  RunEnd, run_start, release, run_end, flush_timer, watch_deadline, cancel_running,
}
use agent_runtime_foundry.Adapter.Start.{is_active}
use agent_runtime_foundry.Adapter.Sound.Frames.{clash}
use agent_runtime_foundry.Adapter.Sound.Continue.{continue_turn-closed}
use agent_runtime_foundry.Adapter.Lifecycle.{
  session_created, initialized, initialization_failed, TurnStep, session_given, ready, init_failed,
  invoke, created, delta, called, answered, continued, flushed, timed_out, stopped,
}
use agent_runtime_foundry.Adapter.Lifecycle.Invariant.{closed_created, closed_delta, closed_called}
use agent_runtime_foundry.Base.{ℕ, ◌≡◌, sym, subst, true, false, if_elim, nat_eq, arith}

abbrev Idle : TurnState → Type 0
Idle t = is_active t ≡ false

Idle-completed : (t : TurnState) → Idle t → t.completed ≡ true
unfolding is_active
Idle-completed t h = ground arith

module _ (p : AdapterPlatform) (c : AdapterConfig) where
  stays : (t u : TurnState) → u ≡ t → Idle t → Idle u
  stays t u e h = subst Idle (sym e) h

  released-Idle : (now : ℕ) (t : TurnState) → Idle t → Idle (release p c now t)
  unfolding is_active release
  released-Idle now t h = ground arith

  pub TurnStep-Idle : {t u : TurnState} → TurnStep p c t u → Idle t → Idle u
  unfolding session_created initialized initialization_failed run_start run_end flush_timer
      watch_deadline cancel_running is_active
  TurnStep-Idle (session_given id t) h = ground arith
  TurnStep-Idle (ready t) h = ground arith
  TurnStep-Idle (init_failed e t) h = ground arith
  TurnStep-Idle (invoke t) h = ground arith
  TurnStep-Idle (created now id t) h =
      stays t _ (closed_created p c t now id t (Idle-completed t h)) h
  TurnStep-Idle (delta now text t) h =
      stays t _ (closed_delta p c t now text t (Idle-completed t h)) h
  TurnStep-Idle (called now item t) h =
      stays t _ (closed_called p c t now item t (Idle-completed t h)) h
  TurnStep-Idle (answered now expired answer inv t) h =
      if_elim (λ (r : RunEnd). Idle r.turn) t.completed _ _ (λ _. released-Idle now t h)
        (λ op. clash t.completed (Idle-completed t h) op)
  TurnStep-Idle (continued now request t) h =
      stays t _ (continue_turn-closed p c now t request t (Idle-completed t h)) h
  TurnStep-Idle (flushed now t) h =
      if_elim Idle t.completed _ _ (λ _. h) (λ op. clash t.completed (Idle-completed t h) op)
  TurnStep-Idle (timed_out now t) h =
      if_elim Idle t.completed _ _ (λ _. h) (λ op. clash t.completed (Idle-completed t h) op)
  TurnStep-Idle (stopped now t) h =
      if_elim Idle t.completed _ _ (λ _. h) (λ op. clash t.completed (Idle-completed t h) op)
