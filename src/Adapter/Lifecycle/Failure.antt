-- ===== src/Adapter/Lifecycle/Failure.antt =====
-- When a turn reports a failure that may be tried again.
use agent_runtime_foundry.Harness.Messages.{HarnessEventFrame}
use agent_runtime_foundry.Adapter.Types.{
  AdapterConfig, AdapterPlatform, TurnState, Outcome, ◌>>=◌, unless_elim,
}
use agent_runtime_foundry.Adapter.Frames.{
  append_frame, set_started, ensure_terminal_started, flush_best_effort, flush_output,
  flush_pending, frame_capacity, new_frame,
}
use agent_runtime_foundry.Adapter.Finish.{
  Ending, or_turn, seal, may_retry, minimal_failure, failure_frame, completed_frame,
  record_response, settle_output, append_completed, append_failed, append_cancelled, append_ending,
  finish,
}
use agent_runtime_foundry.Adapter.Sound.{is_retryable, IsNonterminal}
use agent_runtime_foundry.Adapter.Sound.Frames.{append_frame-elim, clash}
use agent_runtime_foundry.Adapter.Sound.{OpenSound}
use agent_runtime_foundry.Adapter.Sound.Finish.{settle_output-Sound}
use agent_runtime_foundry.Harness.Types.{StartTurnRequest}
use agent_runtime_foundry.Base.Text.{size}
use agent_runtime_foundry.Base.{
  ℕ, String, ◌≡◌, ◌≢◌, ◌∙◌, ap, ◌+◌, text_eq_iff, sym, refl, Bool, true, false, not, ◌&&◌, ◌||◌,
  if_elim, List, [], ◌∷◌, ◌++◌, any, All, ◌==◌, string_eq, nat_eq, arith,
}

abbrev retryable_frames : List HarnessEventFrame → Bool
retryable_frames frames = any is_retryable frames

any-append :
    (frames : List HarnessEventFrame) (f : HarnessEventFrame)
    → retryable_frames (frames ++ f ∷ []) ≡ (retryable_frames frames || is_retryable f)
any-append [] f = ground arith
any-append (g ∷ frames) f = ground (arith, any-append frames f)

calm :
    (frames : List HarnessEventFrame) → All IsNonterminal frames → retryable_frames frames ≡ false
calm [] h = refl
calm (f ∷ frames) h = ground (arith, calm frames h.1, h.0.1)

-- The facts of a turn that allow a retry.
abbrev pub MayRetry : TurnState → Type 0
MayRetry t =
    (t.current_invocation_uncertain ≡ false)
    × (t.exposed_brokered_write ≡ false)
    × (t.request.tool_execution_mode ≢ "observed")

module _ (p : AdapterPlatform) (c : AdapterConfig) (now : ℕ) where
  abbrev SameFacts : TurnState → TurnState → Type 0
  SameFacts t u =
      (u.current_invocation_uncertain ≡ t.current_invocation_uncertain)
      × (u.exposed_brokered_write ≡ t.exposed_brokered_write)
      × (u.request ≡ t.request)

  started-same : (t : TurnState) → SameFacts t (ensure_terminal_started p c now t)
  unfolding ensure_terminal_started set_started
  started-same t =
      if_elim (SameFacts t) t.started _ _ (λ _. (refl, refl, refl))
        λ _.
          append_frame-elim p c now (λ o. SameFacts t (o >>= set_started p c now).1) _ t
            (λ e. (refl, refl, refl)) (λ n. (refl, refl, refl))

  flushed-same : (t : TurnState) → SameFacts t (flush_output p c now t).1
  unfolding flush_output flush_pending
  flushed-same t =
      if_elim (λ (o : Outcome). SameFacts t o.1) (size t.pending_output == 0) _ _
        (λ _. (refl, refl, refl))
        λ _.
          unless_elim (λ (o : Outcome). SameFacts t o.1) _ _
            (frame_capacity p c now (record t { output_flush_timer = false }) 1)
            (λ _ _. (refl, refl, refl))
            λ _.
              append_frame-elim p c now (λ o. SameFacts t o.1) _ _ (λ e. (refl, refl, refl))
                (λ n. (refl, refl, refl))

  settled-same : (t : TurnState) → SameFacts t (settle_output p c now t)
  unfolding settle_output flush_best_effort
  settled-same t =
      let u : TurnState = ensure_terminal_started p c now t in
      let a = started-same t in
      let b = flushed-same u in
      let both : SameFacts t (flush_output p c now u).1 = (b.0 ∙ a.0, b.1 ∙ a.1, b.2 ∙ a.2) in
      unless_elim (SameFacts t) _ _ (flush_output p c now u).0 (λ _ _. both) (λ _. both)

  -- What the last frame may say, for a turn with no retryable failure so far.
  abbrev Allowed : TurnState → TurnState → Type 0
  Allowed u v = retryable_frames v.frames ≡ true → MayRetry u

  quiet_frame :
      (u : TurnState) (f : HarnessEventFrame) (n : ℕ)
      → retryable_frames u.frames ≡ false
      → (is_retryable f ≡ true → MayRetry u)
      → Allowed u (record u { frames = u.frames ++ f ∷ []; retained_bytes = u.retained_bytes + n })
  quiet_frame u f n quiet allowed h = allowed (ground (arith, any-append u.frames f))

  minimal_failure-Allowed :
      (message : String) (u : TurnState)
      → retryable_frames u.frames ≡ false
      → Allowed u (minimal_failure p c now message u)
  unfolding minimal_failure failure_frame
  minimal_failure-Allowed message u quiet =
      append_frame-elim p c now (λ o. Allowed u o.1) _ u (λ e h. clash _ h quiet)
        (λ n. quiet_frame u _ n quiet (λ h. absurd (cc)))

  last-Allowed :
      (f : HarnessEventFrame) (message : String) (u : TurnState)
      → retryable_frames u.frames ≡ false
      → (is_retryable f ≡ true → MayRetry u)
      → Allowed u (or_turn (append_frame p c now f u) (minimal_failure p c now message))
  last-Allowed f message u quiet allowed =
      append_frame-elim p c now (λ o. Allowed u (or_turn o (minimal_failure p c now message))) f u
        (λ e. minimal_failure-Allowed message u quiet) (λ n. quiet_frame u f n quiet allowed)

  may_retry-MayRetry :
      (u : TurnState) (retryable : Bool) → may_retry p c now u retryable ≡ true → MayRetry u
  unfolding may_retry
  may_retry-MayRetry u retryable h = (
    ground arith,
    ground arith,
    λ e. ground (arith, text_eq_iff u.request.tool_execution_mode "observed"),
  )

  append_ending-Allowed :
      (ending : Ending) (u : TurnState)
      → retryable_frames u.frames ≡ false
      → Allowed u (append_ending p c now ending u)
  unfolding append_ending append_completed append_failed append_cancelled completed_frame
      failure_frame record_response new_frame
  append_ending-Allowed Ending.completed u quiet =
      if_elim (λ (v : TurnState). Allowed u (append_completed p c now u.text v))
        (true && not (u.response_id == "")) _ _
        (λ _.
          last-Allowed _ _ (record u { previous_response = u.response_id }) quiet
            (λ h. absurd (cc)))
        (λ _. last-Allowed _ _ u quiet (λ h. absurd (cc)))
  append_ending-Allowed (Ending.failed reason message retryable) u quiet =
      last-Allowed _ _ u quiet (may_retry-MayRetry u retryable)
  append_ending-Allowed Ending.cancelled u quiet = last-Allowed _ _ u quiet (λ h. absurd (cc))

  sealed-frames : (v : TurnState) → (seal p c now v).frames ≡ v.frames
  unfolding seal
  sealed-frames v =
      if_elim (λ (w : TurnState). w.frames ≡ v.frames) v.completed _ _ (λ _. refl) (λ _. refl)

  -- However a sound open turn ends, if a frame of it then reports a failure that may be tried again,
  -- then at the end its current invocation was not uncertain, no writing tool had been exposed, and the
  -- turn was not in observed mode.
  pub finish-MayRetry :
      (ending : Ending) (t0 t : TurnState)
      → OpenSound c t0 t
      → retryable_frames (finish p c now ending t).frames ≡ true
      → MayRetry t
  unfolding finish
  finish-MayRetry ending t0 t s h =
      let u : TurnState = settle_output p c now t in
      let quiet = calm u.frames (
        (settle_output-Sound p c now t0 t s).1.open_frames
          ((settle_output-Sound p c now t0 t s).0)) in
      let (uncertain, exposed, mode) =
        append_ending-Allowed ending u quiet
          (sym (ap retryable_frames (sealed-frames (append_ending p c now ending u))) ∙ h) in
      let (a, b, r) = settled-same t in
      (
        sym a ∙ uncertain,
        sym b ∙ exposed,
        λ e. mode (ap (λ (q : StartTurnRequest). q.tool_execution_mode) r ∙ e),
      )
