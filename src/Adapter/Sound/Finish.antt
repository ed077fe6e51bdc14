-- ===== src/Adapter/Sound/Finish.antt =====
-- The end of a turn keeps it sound: at most one terminal frame follows the others, and then the turn
-- is over and its tables are empty.
use agent_runtime_foundry.Base.Text.{size}
use agent_runtime_foundry.Base.Map.{Map, get}
use agent_runtime_foundry.Harness.Types.{pos}
use agent_runtime_foundry.Harness.Messages.{HarnessEventFrame}
use agent_runtime_foundry.Adapter.Types.{AdapterConfig, AdapterPlatform, TurnState}
use agent_runtime_foundry.Adapter.Frames.{new_frame, append_frame}
use agent_runtime_foundry.Adapter.Finish.{
  Ending, or_turn, seal, closed_request, failure_frame, minimal_failure, completed_frame,
  record_response, settle_output, append_completed, append_failed, append_cancelled, append_ending,
  finish,
}
use agent_runtime_foundry.Adapter.Sound.Sequence.{
  Numbered, Ended, Prefix, is_terminal_frame, Numbered-append, Prefix-append, length-snoc,
}
use agent_runtime_foundry.Adapter.Sound.Tables.{
  TablesSound, TablesOf, CountsOf, TurnSound, OpenSound,
}
use agent_runtime_foundry.Adapter.Sound.Frames.{
  append_frame-elim, ensure_terminal_started-Sound, flush_best_effort-Sound, clash,
}
use agent_runtime_foundry.Base.{
  ℕ, suc, ◌+◌, ◌≤◌, ◌<◌, String, ◌≡◌, inr, refl, Bool, true, false, not, ◌&&◌, if_elim, some, List,
  [], ◌∷◌, ◌++◌, length, ◌==◌, string_eq, arith,
}

-- The frames of a turn whose last frame was appended, and that is to be sealed.
record ClosingFrames (c : AdapterConfig) (f0 frames : List HarnessEventFrame) : Type 0 where
  numbered : Numbered 0 frames
  ended : Ended frames
  bounded : 1 < c.max_events → length frames ≤ c.max_events
  grown : Prefix f0 frames

abbrev Closing : AdapterConfig → TurnState → TurnState → Type 0
Closing c t0 t =
    (t.completed ≡ false)
    × (t0.completed ≡ false)
    × ClosingFrames c t0.frames t.frames
    × TablesOf t0 t
    × CountsOf c t0 t

module _ (p : AdapterPlatform) (c : AdapterConfig) (now : ℕ) (t0 : TurnState) where
  earlier_open :
      (t : TurnState) → OpenSound c t0 t → (b : Bool) → t0.completed ≡ b → t0.completed ≡ false
  earlier_open t s true e = clash t.completed ((s.1.frozen e).1) s.0
  earlier_open t s false e = e

  OpenSound-Closing : (t : TurnState) → OpenSound c t0 t → Closing c t0 t
  OpenSound-Closing t s = (
    s.0,
    earlier_open t s t0.completed refl,
    record { numbered = s.1.numbered; ended = s.1.ended; bounded = s.1.bounded; grown = s.1.grown },
    s.2,
    s.3,
  )

  append-Closing :
      (f : HarnessEventFrame) (t : TurnState) (n : ℕ)
      → OpenSound c t0 t
      → f.seq ≡ pos (suc (length t.frames))
      → is_terminal_frame f ≡ true
      → Closing c t0
          (record t { frames = t.frames ++ f ∷ []; retained_bytes = t.retained_bytes + n })
  append-Closing f t n s seq last =
      let longer = length-snoc t.frames f in
      (
        s.0,
        earlier_open t s t0.completed refl,
        record {
          numbered = Numbered-append 0 t.frames f s.1.numbered (ground (arith, seq));
          ended = inr (t.frames, f, refl, s.1.open_frames s.0, last);
          bounded = λ h. let room = s.1.room h s.0 in omega (arith, longer);
          grown = Prefix-append t0.frames t.frames f s.1.grown;
        },
        s.2,
        s.3,
      )

  minimal_failure-Closing :
      (message : String) (t : TurnState)
      → OpenSound c t0 t
      → Closing c t0 (minimal_failure p c now message t)
  unfolding minimal_failure failure_frame new_frame
  minimal_failure-Closing message t s =
      append_frame-elim p c now (λ o. Closing c t0 o.1)
        (failure_frame p c now "terminal_frame_too_large" message false t) t
        (λ e. OpenSound-Closing t s) (λ n. append-Closing _ t n s refl refl)

  append_last :
      (f : HarnessEventFrame) (message : String) (t : TurnState)
      → OpenSound c t0 t
      → f.seq ≡ pos (suc (length t.frames))
      → is_terminal_frame f ≡ true
      → Closing c t0 (or_turn (append_frame p c now f t) (minimal_failure p c now message))
  append_last f message t s seq last =
      append_frame-elim p c now (λ o. Closing c t0 (or_turn o (minimal_failure p c now message))) f
        t (λ e. minimal_failure-Closing message t s) (λ n. append-Closing f t n s seq last)

  append_ending-Closing :
      (ending : Ending) (t : TurnState)
      → OpenSound c t0 t
      → Closing c t0 (append_ending p c now ending t)
  unfolding append_ending append_completed append_failed append_cancelled completed_frame
      failure_frame new_frame record_response
  append_ending-Closing Ending.completed t s =
      if_elim (λ (u : TurnState). Closing c t0 (append_completed p c now t.text u))
        (true && not (t.response_id == "")) _ _
        (λ _. append_last _ _ (record t { previous_response = t.response_id }) s refl refl)
        (λ _. append_last _ _ t s refl refl)
  append_ending-Closing (Ending.failed reason message retryable) t s = append_last _ _ t s refl refl
  append_ending-Closing Ending.cancelled t s = append_last _ _ t s refl refl

  empty_tables :
      (submitted : Map String String)
      → ((k d : String) → get k t0.submitted_result_digests ≡ some d → get k submitted ≡ some d)
      → TablesSound t0.submitted_result_digests [] [] [] [] [] submitted
  unfolding get
  empty_tables submitted kept = record {
    same_digests = λ k. refl;
    same_ids = λ k. refl;
    same_buffered = λ k. refl;
    buffered_pending = λ k h. h;
    not_pending = λ k h. refl;
    kept = kept;
    distinct_pending = tt;
    distinct_buffered = tt;
  }

  seal-Sound : (t : TurnState) → Closing c t0 t → TurnSound c t0 (seal p c now t)
  unfolding seal closed_request
  seal-Sound t (op, op0, frames, tables, counts) =
      if_elim (λ (u : TurnState). TurnSound c t0 u) t.completed _ _ (λ e. clash t.completed e op)
        λ _. (
          record {
            numbered = frames.numbered;
            open_frames = λ h. absurd (cc);
            ended = frames.ended;
            room = λ h k. absurd (cc);
            bounded = frames.bounded;
            idle = λ h. absurd (cc);
            grown = frames.grown;
            frozen = λ h. clash t0.completed h op0;
          },
          empty_tables _ tables.kept,
          record {
            same_session = counts.same_session;
            text_bounded = unfold size in omega arith;
            calls_bounded = counts.calls_bounded;
            bytes_bounded = counts.bytes_bounded;
          },
        )

  pub settle_output-Sound :
      (t : TurnState) → OpenSound c t0 t → OpenSound c t0 (settle_output p c now t)
  unfolding settle_output
  settle_output-Sound t s =
      flush_best_effort-Sound p c now t0 _ (ensure_terminal_started-Sound p c now t0 t s)

  -- Whatever a turn ends with, it ends sound.
  pub finish-Sound :
      (ending : Ending) (t : TurnState)
      → OpenSound c t0 t
      → TurnSound c t0 (finish p c now ending t)
  unfolding finish
  finish-Sound ending t s = seal-Sound _ (append_ending-Closing ending _ (settle_output-Sound t s))
