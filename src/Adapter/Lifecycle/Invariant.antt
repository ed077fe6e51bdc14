-- ===== src/Adapter/Lifecycle/Invariant.antt =====
-- What holds of a turn at every moment of its life.
use agent_runtime_foundry.Base.Map.{get}
use agent_runtime_foundry.Base.Text.{size}
use agent_runtime_foundry.Foundry.Responses.{OutputItem}
use agent_runtime_foundry.Harness.Types.{StartTurnRequest}
use agent_runtime_foundry.Adapter.Types.{
  AdapterError, AdapterConfig, AdapterPlatform, RuntimeSessionState, TurnState, Outcome,
}
use agent_runtime_foundry.Adapter.Requests.{new_turn}
use agent_runtime_foundry.Adapter.Frames.{on_created, on_text_delta}
use agent_runtime_foundry.Adapter.Calls.{
  FunctionCall, check_call, checked_call, record_call, record_function_call,
}
use agent_runtime_foundry.Adapter.Sound.{TurnSound, OpenSound, Prefix-refl}
use agent_runtime_foundry.Adapter.Sound.Frames.{on_created-Sound, on_text_delta-Sound, clash}
use agent_runtime_foundry.Adapter.Sound.Calls.{record_function_call-Sound}
use agent_runtime_foundry.Adapter.Sound.Continue.{continue_turn-Sound, continue_turn-closed}
use agent_runtime_foundry.Adapter.Sound.Run.{
  run_start-Sound, run_end-Sound, flush_timer-Sound, watch_deadline-Sound, cancel_running-Sound,
}
use agent_runtime_foundry.Adapter.Lifecycle.{
  session_created, initialized, initialization_failed, TurnStep, session_given, ready, init_failed,
  invoke, created, delta, called, answered, continued, flushed, timed_out, stopped, TurnReaches,
  here, next,
}
use agent_runtime_foundry.Base.{
  ℕ, String, ◌≡◌, ◌⊎◌, inl, inr, refl, sym, subst, true, Bool-cases, if_elim, Option, [], string_eq,
  arith,
}

module _ (p : AdapterPlatform) (c : AdapterConfig) (t0 : TurnState) where
  -- A section that changes an open turn only keeps every turn sound.
  from_open :
      (t u : TurnState)
      → (t.completed ≡ true → u ≡ t)
      → (OpenSound c t0 t → TurnSound c t0 u)
      → TurnSound c t0 t
      → TurnSound c t0 u
  from_open t u closed open_case s = elim (Bool-cases t.completed) [
    | inl h ↦ subst (TurnSound c t0) (sym (closed h)) s
    | inr h ↦ open_case (h, s.0, s.1, s.2)
  ]

  pub closed_created :
      (now : ℕ) (id : String) (t : TurnState) → t.completed ≡ true → (on_created p c now id t).1 ≡ t
  unfolding on_created
  closed_created now id t h =
      if_elim (λ (o : Outcome). o.1 ≡ t) t.completed _ _ (λ _. refl) (λ k. clash t.completed h k)

  pub closed_delta :
      (now : ℕ) (text : String) (t : TurnState)
      → t.completed ≡ true
      → (on_text_delta p c now text t).1 ≡ t
  unfolding on_text_delta
  closed_delta now text t h =
      if_elim (λ (o : Outcome). o.1 ≡ t) t.completed _ _ (λ _. refl) (λ k. clash t.completed h k)

  closed_checked :
      (now : ℕ) (checked : AdapterError ⊎ FunctionCall) (t : TurnState)
      → t.completed ≡ true
      → (checked_call p c now checked t).1 ≡ t
  unfolding checked_call record_call
  closed_checked now (inl e) t h = refl
  closed_checked now (inr call) t h =
      if_elim (λ (o : Outcome). o.1 ≡ t) t.completed _ _ (λ _. refl) (λ k. clash t.completed h k)

  pub closed_called :
      (now : ℕ) (item : OutputItem) (t : TurnState)
      → t.completed ≡ true
      → (record_function_call p c now item t).1 ≡ t
  unfolding record_function_call
  closed_called now item t h = closed_checked now (check_call p t item) t h

  abbrev after_open : (u : TurnState) → OpenSound c t0 u → TurnSound c t0 u
  after_open u s = (s.1, s.2, s.3)

  -- Every step keeps a turn sound.
  pub TurnStep-Sound : {t u : TurnState} → TurnStep p c t u → TurnSound c t0 t → TurnSound c t0 u
  unfolding session_created initialized initialization_failed
  TurnStep-Sound (session_given id t) s = if_elim (TurnSound c t0) t.completed _ _ (λ _. s) (λ _. s)
  TurnStep-Sound (ready t) s = s
  TurnStep-Sound (init_failed e t) s = s
  TurnStep-Sound (invoke t) s = run_start-Sound p c 0 t0 t s
  TurnStep-Sound (created now id t) s =
      from_open t _ (closed_created now id t)
        (λ o. after_open (on_created p c now id t).1 (on_created-Sound p c now t0 id t o)) s
  TurnStep-Sound (delta now text t) s =
      from_open t _ (closed_delta now text t)
        (λ o. after_open (on_text_delta p c now text t).1 (on_text_delta-Sound p c now t0 text t o))
        s
  TurnStep-Sound (called now item t) s =
      from_open t _ (closed_called now item t)
        (λ o.
          after_open (record_function_call p c now item t).1
            (record_function_call-Sound p c now t0 item t o))
        s
  TurnStep-Sound (answered now expired answer inv t) s =
      run_end-Sound p c now t0 expired answer inv t s
  TurnStep-Sound (continued now request t) s =
      from_open t _ (continue_turn-closed p c now t0 request t)
        (continue_turn-Sound p c now t0 request t) s
  TurnStep-Sound (flushed now t) s = flush_timer-Sound p c now t0 t s
  TurnStep-Sound (timed_out now t) s = watch_deadline-Sound p c now t0 t s
  TurnStep-Sound (stopped now t) s = cancel_running-Sound p c now t0 t s

  pub TurnReaches-Sound :
      {t : TurnState} → TurnSound c t0 t0 → TurnReaches p c t0 t → TurnSound c t0 t
  TurnReaches-Sound s here = s
  TurnReaches-Sound s (next r step) = TurnStep-Sound step (TurnReaches-Sound s r)

-- A sound turn is sound when it is compared with itself.
pub rebased : (c : AdapterConfig) (t0 t : TurnState) → TurnSound c t0 t → TurnSound c t t
rebased c t0 t s = (
  record {
    numbered = s.0.numbered;
    open_frames = s.0.open_frames;
    ended = s.0.ended;
    room = s.0.room;
    bounded = s.0.bounded;
    idle = s.0.idle;
    grown = Prefix-refl t.frames;
    frozen = λ h. (refl, h);
  },
  record {
    same_digests = s.1.same_digests;
    same_ids = s.1.same_ids;
    same_buffered = s.1.same_buffered;
    buffered_pending = s.1.buffered_pending;
    not_pending = s.1.not_pending;
    kept = λ k d h. h;
    distinct_pending = s.1.distinct_pending;
    distinct_buffered = s.1.distinct_buffered;
  },
  record {
    same_session = refl;
    text_bounded = s.2.text_bounded;
    calls_bounded = s.2.calls_bounded;
    bytes_bounded = s.2.bytes_bounded;
  },
)

pub new_turn-Sound :
    (p : AdapterPlatform) (c : AdapterConfig) (r : StartTurnRequest) (bytes : ℕ)
    (session : Option RuntimeSessionState)
    → TurnSound c (new_turn p r bytes session) (new_turn p r bytes session)
unfolding new_turn get size
new_turn-Sound p c r bytes session = (
  record {
    numbered = tt;
    open_frames = λ _. tt;
    ended = inl tt;
    room = λ h _. omega arith;
    bounded = λ h. omega arith;
    idle = λ _ _. (refl, refl, refl);
    grown = Prefix-refl [];
    frozen = λ h. absurd (cc);
  },
  record {
    same_digests = λ k. refl;
    same_ids = λ k. refl;
    same_buffered = λ k. refl;
    buffered_pending = λ k h. h;
    not_pending = λ k h. refl;
    kept = λ k d h. h;
    distinct_pending = tt;
    distinct_buffered = tt;
  },
  record {
    same_session = refl;
    text_bounded = omega arith;
    calls_bounded = λ h. omega arith;
    bytes_bounded = λ h. omega arith;
  },
)
