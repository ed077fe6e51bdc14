-- ===== src/Adapter/Sound/Continue.antt =====
-- continueTurn and prepareContinuationLocked keep a turn sound: the results of all pending calls become
-- frames, and then submitted results, and the calls are not pending any more.
use agent_runtime_foundry.Base.Map.{Map, keys, get, insert, delete, get-insert}
use agent_runtime_foundry.Harness.Types.{HarnessError, ToolCallResult, ContinueTurnRequest}
use agent_runtime_foundry.Harness.Validate.{validate_continue}
use agent_runtime_foundry.Adapter.Types.{
  AdapterError, AdapterConfig, AdapterPlatform, TurnState, Outcome, ◌>>=◌, unless_elim,
}
use agent_runtime_foundry.Adapter.Frames.{new_frame, frame_capacity}
use agent_runtime_foundry.Adapter.Stage.{
  StagedToolResult, stage_results, buffer_results, additional_bytes, validate_result_frames,
}
use agent_runtime_foundry.Adapter.Checks.{provider_safe_message}
use agent_runtime_foundry.Adapter.Continue.{
  Handoff, nothing, invalid, refused, fault, dispatch, sort, result_frame, note_emitted,
  emit_result, emit_results, submit_result, submit_results, previous_id, send_results, submit_all,
  emit_and_submit, prepare_continuation, end_fault, all_buffered, continue_buffered,
  continue_staged, staged_or_refused, continue_locked, continue_matches, continue_matching,
  valid_or_refused, continue_turn,
}
use agent_runtime_foundry.Adapter.Sound.Tables.{TablesSound, TurnSound, OpenSound, Distinct, has}
use agent_runtime_foundry.Adapter.Sound.Keys.{
  has-keys, is_some-insert, is_some-delete, Distinct-delete,
}
use agent_runtime_foundry.Adapter.Sound.Sorted.{length-sort, has-sort, Distinct-sort}
use agent_runtime_foundry.Adapter.Sound.Stage.{
  IsPending, AllPending, stage_results-AllPending, buffer_results-Sound, closed_staged,
}
use agent_runtime_foundry.Adapter.Sound.Frames.{
  append_frame-elim, frame_capacity-none, FramesSound-append, FramesSound-flags, or_false, clash,
}
use agent_runtime_foundry.Adapter.Sound.Finish.{finish-Sound}
use agent_runtime_foundry.Base.{
  ℕ, suc, ◌+◌, ◌≤◌, ◌<◌, String, ◌≡◌, ◌∙◌, ap, sym, subst, refl, inl, inr, ◌⊎◌, Bool, true, false,
  not, ◌&&◌, ◌||◌, any, Bool-cases, if_elim, Option, none, some, is_some, List, [], ◌∷◌, All,
  length, length-append, ltb, ◌==◌, string_eq, nat_eq, arith, text_eq_iff,
}

-- A result goes from the pending and buffered ones to the submitted ones.
TablesSound-submit :
    (s0 pending digests ids : Map String String) (buffered : Map String ToolCallResult)
    (buffered_digests submitted : Map String String) (id digest : String)
    → TablesSound s0 pending digests ids buffered buffered_digests submitted
    → is_some (get id pending) ≡ true
    → TablesSound s0
        (delete id pending)
        (delete id digests)
        (delete id ids)
        (delete id buffered)
        (delete id buffered_digests)
        (insert id digest submitted)
TablesSound-submit s0 pending digests ids buffered buffered_digests submitted id digest s there =
    record {
      same_digests = λ k.
          is_some-delete id k digests
          ∙ ap (λ (b : Bool). not (id == k) && b) (s.same_digests k)
          ∙ sym (is_some-delete id k pending);
      same_ids = λ k.
          is_some-delete id k ids
          ∙ ap (λ (b : Bool). not (id == k) && b) (s.same_ids k)
          ∙ sym (is_some-delete id k pending);
      same_buffered = λ k.
          is_some-delete id k buffered_digests
          ∙ ap (λ (b : Bool). not (id == k) && b) (s.same_buffered k)
          ∙ sym (is_some-delete id k buffered);
      buffered_pending = λ k h.
          ground (
            arith,
            is_some-delete id k buffered,
            is_some-delete id k pending,
            s.buffered_pending k,
          );
      not_pending = λ k h. ground (
        arith,
        is_some-insert id k digest submitted,
        is_some-delete id k pending,
        s.not_pending k,
      );
      kept = λ k d h.
          let before = s.kept k d h in
          elim (Bool-cases (id == k)) [
            | inl e ↦
                let same : id ≡ k = (text_eq_iff id k).0 e in
                let known : is_some (get id submitted) ≡ true =
                  subst (λ (x : String). is_some (get x submitted) ≡ true) (sym same)
                    (ap is_some before) in
                clash (is_some (get id pending)) there (s.not_pending id known)
            | inr e ↦ get-insert id k digest submitted ∙ (rw e before)
          ];
      distinct_pending = Distinct-delete id pending s.distinct_pending;
      distinct_buffered = Distinct-delete id buffered s.distinct_buffered;
    }

abbrev Pending : TurnState → String → Type 0
Pending t id = is_some (get id t.pending_tools) ≡ true

module _ (p : AdapterPlatform) (c : AdapterConfig) (now : ℕ) (t0 : TurnState) where
  -- The ids that are left stay pending while one is submitted.
  submit_result-Pending :
      (id : String) (ids : List String) (t : TurnState)
      → has id ids ≡ false
      → All (Pending t) ids
      → All (Pending (submit_result p c now id t)) ids
  unfolding submit_result
  submit_result-Pending id [] t h there = tt
  submit_result-Pending id (k ∷ ids) t h there = (
    ground (arith, is_some-delete id k t.pending_tools, text_eq_iff id k, text_eq_iff k id),
    submit_result-Pending id ids t (ground arith) there.1,
  )

  submit_results-Sound :
      (ids : List String) (t : TurnState)
      → OpenSound c t0 t
      → t.started ≡ true
      → Distinct ids
      → All (Pending t) ids
      → OpenSound c t0 (submit_results p c now ids t)
  unfolding submit_results submit_result
  submit_results-Sound [] t s st d there = s
  submit_results-Sound (id ∷ ids) t s st d there =
      submit_results-Sound ids (submit_result p c now id t)
        (
          s.0,
          FramesSound-flags c _ _ t.frames t.completed t.started t.started t.pending_output
              t.pending_output t.pending_tools _ s.1 (λ _ ns. clash t.started st ns),
          TablesSound-submit _ _ _ _ _ _ _ id _ s.2 there.0,
          s.3,
        )
        st d.1 (submit_result-Pending id ids t d.0 there.1)

  emit_result-Sound :
      (id : String) (t : TurnState)
      → OpenSound c t0 t
      → t.started ≡ true
      → (1 < c.max_events → suc (length t.frames) < c.max_events)
      → OpenSound c t0 (emit_result p c now id t).1
  unfolding emit_result note_emitted result_frame new_frame
  emit_result-Sound id t s st room =
      if_elim (λ (o : Outcome). OpenSound c t0 o.1)
        (any (λ emitted. emitted == id) t.emitted_results) _ _ (λ _. s)
        λ _.
          append_frame-elim p c now (λ o. OpenSound c t0 (o >>= note_emitted p c now id).1)
            (result_frame p c now id t) t (λ e. s)
            (λ n. (
              s.0,
              FramesSound-append c _ _ t.frames t.completed t.started t.started t.pending_output
                  t.pending_output t.pending_tools t.pending_tools _ s.1 s.0 st (refl, refl) refl
                  room,
              s.2,
              s.3,
            ))

  -- What a frame of a result leaves as it was, and how many frames there are then.
  abbrev Emitted : TurnState → TurnState → Type 0
  Emitted t u =
      (u.pending_tools ≡ t.pending_tools)
      × (u.started ≡ t.started)
      × (length u.frames ≤ suc (length t.frames))

  emit_result-Emitted : (id : String) (t : TurnState) → Emitted t (emit_result p c now id t).1
  unfolding emit_result note_emitted
  emit_result-Emitted id t =
      let same : Emitted t t = (refl, refl, omega arith) in
      if_elim (λ (o : Outcome). Emitted t o.1) (any (λ emitted. emitted == id) t.emitted_results) _
        _ (λ _. same)
        λ _.
          append_frame-elim p c now (λ o. Emitted t (o >>= note_emitted p c now id).1)
            (result_frame p c now id t) t (λ e. same)
            (λ n.
              (refl, refl, omega (arith, length-append t.frames (result_frame p c now id t ∷ []))))

  abbrev EmittedAll : TurnState → Outcome → Type 0
  EmittedAll t o =
      OpenSound c t0 o.1 × (o.1.pending_tools ≡ t.pending_tools) × (o.1.started ≡ t.started)

  -- There is room for some more frames before the last one.
  abbrev Room : TurnState → ℕ → Type 0
  Room t n = 1 < c.max_events → length t.frames + n < c.max_events

  emit_rest :
      (ids : List String) (t : TurnState) (o : Outcome)
      → OpenSound c t0 o.1
      → Emitted t o.1
      → t.started ≡ true
      → Room t (suc (length ids))
      → ((u : TurnState)
          → OpenSound c t0 u
          → u.started ≡ true
          → Room u (length ids)
          → EmittedAll u (emit_results p c now ids u))
      → EmittedAll t (o >>= emit_results p c now ids)
  emit_rest ids t (some e, u) s (pending, started, longer) st room rest = (s, pending, started)
  emit_rest ids t (none, u) s (pending, started, longer) st room rest =
      let (s', pending', started') =
        rest u s (started ∙ st) (λ h. let r = room h in omega (arith, longer)) in
      (s', pending' ∙ pending, started' ∙ started)

  emit_results-Sound :
      (ids : List String) (t : TurnState)
      → OpenSound c t0 t
      → t.started ≡ true
      → Room t (length ids)
      → EmittedAll t (emit_results p c now ids t)
  unfolding emit_results
  emit_results-Sound [] t s st room = (s, refl, refl)
  emit_results-Sound (id ∷ ids) t s st room =
      emit_rest ids t (emit_result p c now id t)
        (emit_result-Sound id t s st (λ h. let r = room h in omega (arith, r)))
        (emit_result-Emitted id t) st room (emit_results-Sound ids)

  submit_all-Sound :
      (ids : List String) (t : TurnState)
      → OpenSound c t0 t
      → t.started ≡ true
      → Distinct ids
      → All (Pending t) ids
      → OpenSound c t0 (submit_all p c now ids t).1
  unfolding submit_all send_results
  submit_all-Sound ids t s st d there =
      if_elim (λ (h : Handoff × TurnState). OpenSound c t0 h.1) (previous_id p c now t == "") _ _
        (λ _. s) (λ _. submit_results-Sound ids t s st d there)

  All-Pending :
      (ids : List String) (m : Map String String)
      → ((k : String) → has k ids ≡ true → is_some (get k m) ≡ true)
      → All (λ k. is_some (get k m) ≡ true) ids
  All-Pending [] m h = tt
  All-Pending (id ∷ ids) m h =
      (h id (ground (arith, text_eq_iff id id)), All-Pending ids m (λ k there. h k (ground arith)))

  emit_and_submit-Sound :
      (ids : List String) (t : TurnState)
      → OpenSound c t0 t
      → t.started ≡ true
      → Room t (length ids)
      → Distinct ids
      → All (Pending t) ids
      → OpenSound c t0 (emit_and_submit p c now ids t).1
  unfolding emit_and_submit
  emit_and_submit-Sound ids t s st room d there =
      let u : TurnState = (emit_results p c now ids t).1 in
      let (s', pending, started) = emit_results-Sound ids t s st room in
      unless_elim (λ (h : Handoff × TurnState). OpenSound c t0 h.1) _ _
        (emit_results p c now ids t).0 (λ _ _. s')
        λ _. submit_all-Sound ids u s' (started ∙ st) d (
          subst (λ (m : Map String String). All (λ k. is_some (get k m) ≡ true) ids) (sym pending)
            there)

  -- With nothing pending nothing is emitted; otherwise the turn is started.
  emit_none-Sound :
      (t : TurnState)
      → OpenSound c t0 t
      → (m : Map String String) → m ≡ []
      → t.started ≡ false
      → OpenSound c t0 (emit_and_submit p c now (sort (keys m)) t).1
  unfolding emit_and_submit submit_all emit_results send_results submit_results sort
  emit_none-Sound t s m e ns =
      subst
        (λ (m : Map String String). OpenSound c t0 (emit_and_submit p c now (sort (keys m)) t).1)
        (sym e)
        (if_elim (λ (h : Handoff × TurnState). OpenSound c t0 h.1) (previous_id p c now t == "") _ _
          (λ _. s) (λ _. s))

  pub prepare_continuation-Sound :
      (t : TurnState) → OpenSound c t0 t → OpenSound c t0 (prepare_continuation p c now t).1
  unfolding prepare_continuation
  prepare_continuation-Sound t s =
      let l : List String = keys t.pending_tools in
      if_elim (λ (h : Handoff × TurnState). OpenSound c t0 h.1) t.continuation_in_flight _ _
        (λ _. s)
        λ _.
          unless_elim (λ (h : Handoff × TurnState). OpenSound c t0 h.1) _ _
            (frame_capacity p c now t (length l)) (λ _ _. s)
            λ h. elim (Bool-cases t.started) [
              | inr ns ↦ emit_none-Sound t s t.pending_tools (s.1.idle s.0 ns).2 ns
              | inl st ↦
                  emit_and_submit-Sound (sort l) t s st
                    (λ k.
                      let room = frame_capacity-none p c now t (length l) h k in
                      omega (arith, length-sort l))
                    (Distinct-sort l s.2.distinct_pending)
                    (All-Pending (sort l) t.pending_tools
                      (λ k there. sym (has-keys k t.pending_tools) ∙ sym (has-sort k l) ∙ there))
            ]

  -- The turn after a continuation that may have failed: it is sound, and over only after a failure.
  pub end_fault-Sound :
      (message : AdapterError → String) (h : Handoff × TurnState)
      → OpenSound c t0 h.1
      → TurnSound c t0 (end_fault p c now message h).1
  unfolding end_fault
  end_fault-Sound message (fault e, t) s = finish-Sound p c now t0 _ t s
  end_fault-Sound message (nothing, t) s = (s.1, s.2, s.3)
  end_fault-Sound message (invalid e, t) s = (s.1, s.2, s.3)
  end_fault-Sound message (refused e, t) s = (s.1, s.2, s.3)
  end_fault-Sound message (dispatch request, t) s = (s.1, s.2, s.3)

  abbrev SoundAfter : Handoff × TurnState → Type 0
  SoundAfter h = TurnSound c t0 h.1

  continue_buffered-Sound :
      (n : ℕ) (t : TurnState) → OpenSound c t0 t → SoundAfter (continue_buffered p c now n t)
  unfolding continue_buffered
  continue_buffered-Sound n t s =
      if_elim SoundAfter (t.completed || n == 0 || not (all_buffered p c now t)) _ _
        (λ _. (s.1, s.2, s.3))
        (λ _. end_fault-Sound provider_safe_message _ (prepare_continuation-Sound t s))

  continue_staged-Sound :
      (staged : List StagedToolResult) (t : TurnState)
      → OpenSound c t0 t
      → All (IsPending t) staged
      → SoundAfter (continue_staged p c now staged t)
  unfolding continue_staged
  continue_staged-Sound staged t s there =
      if_elim SoundAfter
        (ltb 0 c.max_brokered_turn_bytes
          && ltb c.max_brokered_turn_bytes (t.brokered_state_bytes + additional_bytes staged))
        _ _ (λ _. (s.1, s.2, s.3))
        λ small. continue_buffered-Sound (length staged) _ (
          buffer_results-Sound c t0 staged t s.0 s.1 s.2
            (record {
              same_session = s.3.same_session;
              text_bounded = s.3.text_bounded;
              calls_bounded = s.3.calls_bounded;
              bytes_bounded = λ h. ground (arith, small);
            })
            there)

  staged_or_refused-Sound :
      (staged : AdapterError ⊎ List StagedToolResult) (t : TurnState)
      → OpenSound c t0 t
      → AllPending t staged
      → SoundAfter (staged_or_refused p c now staged t)
  unfolding staged_or_refused
  staged_or_refused-Sound (inl e) t s there = (s.1, s.2, s.3)
  staged_or_refused-Sound (inr staged) t s there = continue_staged-Sound staged t s there

  continue_locked-Sound :
      (results : List ToolCallResult) (t : TurnState)
      → OpenSound c t0 t
      → SoundAfter (continue_locked p c now results t)
  unfolding continue_locked
  continue_locked-Sound results t s =
      staged_or_refused-Sound (stage_results p t results) t s (stage_results-AllPending p t results)

  continue_matching-Sound :
      (request : ContinueTurnRequest) (t : TurnState)
      → OpenSound c t0 t
      → SoundAfter (continue_matching p c now request t)
  unfolding continue_matching
  continue_matching-Sound request t s =
      if_elim SoundAfter (not (continue_matches p c now request t.request)) _ _
        (λ _. (s.1, s.2, s.3))
        λ _.
          unless_elim SoundAfter _ _
            (validate_result_frames p c.max_brokered_bytes request.tool_results)
            (λ _ _. (s.1, s.2, s.3)) (λ _. continue_locked-Sound request.tool_results t s)

  valid_or_refused-Sound :
      (e : Option HarnessError) (request : ContinueTurnRequest) (t : TurnState)
      → OpenSound c t0 t
      → SoundAfter (valid_or_refused p c now e request t)
  unfolding valid_or_refused
  valid_or_refused-Sound (some e) request t s = (s.1, s.2, s.3)
  valid_or_refused-Sound none request t s = continue_matching-Sound request t s

  pub continue_turn-Sound :
      (request : ContinueTurnRequest) (t : TurnState)
      → OpenSound c t0 t
      → SoundAfter (continue_turn p c now request t)
  unfolding continue_turn
  continue_turn-Sound request t s = valid_or_refused-Sound (validate_continue request) request t s

  closed_buffered :
      (n : ℕ) (t : TurnState) → t.completed ≡ true → (continue_buffered p c now n t).1 ≡ t
  unfolding continue_buffered
  closed_buffered n t h =
      if_elim (λ (a : Handoff × TurnState). a.1 ≡ t)
        (t.completed || n == 0 || not (all_buffered p c now t)) _ _ (λ _. refl)
        (λ k. clash t.completed h (
          or_false t.completed (n == 0)
            (or_false (t.completed || n == 0) (not (all_buffered p c now t)) k)))

  -- A turn that is over stays as it is.
  closed_same :
      (staged : List StagedToolResult) (t : TurnState)
      → t.completed ≡ true
      → staged ≡ []
      → (continue_staged p c now staged t).1 ≡ t
  unfolding continue_staged buffer_results
  closed_same staged t h e =
      subst (λ (l : List StagedToolResult). (continue_staged p c now l t).1 ≡ t) (sym e)
        (if_elim (λ (a : Handoff × TurnState). a.1 ≡ t)
          (ltb 0 c.max_brokered_turn_bytes
            && ltb c.max_brokered_turn_bytes (t.brokered_state_bytes + 0))
          _ _ (λ _. refl) (λ _. closed_buffered 0 t h))

  closed_refused :
      (staged : AdapterError ⊎ List StagedToolResult) (t : TurnState)
      → t.completed ≡ true
      → AllPending t staged
      → (staged_or_refused p c now staged t).1 ≡ t
  unfolding staged_or_refused
  closed_refused (inl e) t h there = refl
  closed_refused (inr staged) t h there = closed_same staged t h (closed_staged t staged h there)

  closed_valid :
      (e : Option HarnessError) (request : ContinueTurnRequest) (t : TurnState)
      → t.completed ≡ true
      → (valid_or_refused p c now e request t).1 ≡ t
  unfolding valid_or_refused continue_matching continue_locked
  closed_valid (some e) request t h = refl
  closed_valid none request t h =
      if_elim (λ (a : Handoff × TurnState). a.1 ≡ t)
        (not (continue_matches p c now request t.request)) _ _ (λ _. refl)
        λ _.
          unless_elim (λ (a : Handoff × TurnState). a.1 ≡ t) _ _
            (validate_result_frames p c.max_brokered_bytes request.tool_results) (λ _ _. refl)
            (λ _. closed_refused _ t h (stage_results-AllPending p t request.tool_results))

  pub continue_turn-closed :
      (request : ContinueTurnRequest) (t : TurnState)
      → t.completed ≡ true
      → (continue_turn p c now request t).1 ≡ t
  unfolding continue_turn
  continue_turn-closed request t h = closed_valid (validate_continue request) request t h
