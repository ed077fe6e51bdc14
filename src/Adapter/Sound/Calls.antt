-- ===== src/Adapter/Sound/Calls.antt =====
-- recordFunctionCall keeps a turn sound: a call that is new goes into all three tables, within the
-- limits, and only if its id was never submitted.
use agent_runtime_foundry.Base.Text.{size}
use agent_runtime_foundry.Base.Map.{Map, get, insert}
use agent_runtime_foundry.Foundry.Responses.{OutputItem}
use agent_runtime_foundry.Harness.Types.{ToolCallResult}
use agent_runtime_foundry.Adapter.Types.{
  AdapterError, AdapterConfig, AdapterPlatform, TurnState, Outcome, ◌>>=◌, unless_elim,
}
use agent_runtime_foundry.Adapter.Tools.{tool_class}
use agent_runtime_foundry.Adapter.Frames.{
  new_frame, frame_capacity, ensure_turn_started, set_started, started_frame, flush_output,
  flush_pending,
}
use agent_runtime_foundry.Adapter.Calls.{
  FunctionCall, check_call, call_state_bytes, call_frame, add_pending, call_limits, store_call,
  bound_call, expose_call, admit_call, call_conflict, same_call, new_call, seen_or_new, record_call,
  checked_call, record_function_call,
}
use agent_runtime_foundry.Adapter.Sound.Tables.{
  TablesSound, CountsSound, FramesOf, TablesOf, CountsOf, OpenSound,
}
use agent_runtime_foundry.Adapter.Sound.Keys.{is_some-insert, Distinct-insert}
use agent_runtime_foundry.Adapter.Sound.Frames.{
  append_frame-elim, append_checked-elim, frame_capacity-none, ensure_turn_started-Sound,
  ensure-started, flush_output-Sound, FramesSound-append, FramesSound-flags, clash,
}
use agent_runtime_foundry.Base.{
  ℕ, suc, ◌+◌, ◌<◌, String, ◌≡◌, ◌∙◌, ap, sym, inl, inr, ◌⊎◌, refl, Bool, true, false, ◌||◌,
  if_elim, Option, none, some, is_some, length, ◌==◌, string_eq, nat_eq, arith, text_eq_iff,
}

-- A new call in the tables.
pub TablesSound-insert :
    (s0 pending digests ids : Map String String) (buffered : Map String ToolCallResult)
    (buffered_digests submitted : Map String String) (id name digest provider : String)
    → TablesSound s0 pending digests ids buffered buffered_digests submitted
    → is_some (get id submitted) ≡ false
    → TablesSound s0
        (insert id name pending)
        (insert id digest digests)
        (insert id provider ids)
        buffered
        buffered_digests
        submitted
TablesSound-insert s0 pending digests ids buffered buffered_digests submitted id name digest
      provider s fresh =
    record {
      same_digests = λ k.
          is_some-insert id k digest digests
          ∙ ap (λ (b : Bool). id == k || b) (s.same_digests k)
          ∙ sym (is_some-insert id k name pending);
      same_ids = λ k.
          is_some-insert id k provider ids
          ∙ ap (λ (b : Bool). id == k || b) (s.same_ids k)
          ∙ sym (is_some-insert id k name pending);
      same_buffered = s.same_buffered;
      buffered_pending = λ k h.
          let there = s.buffered_pending k h in ground (arith, is_some-insert id k name pending);
      not_pending = λ k h.
          let there = s.not_pending k h in
          ground (arith, is_some-insert id k name pending, text_eq_iff id k);
      kept = s.kept;
      distinct_pending = Distinct-insert id name pending s.distinct_pending;
      distinct_buffered = s.distinct_buffered;
    }

-- A turn that may take the call with an id: it is started, and the id was not submitted.
abbrev Ready : AdapterConfig → TurnState → String → TurnState → Type 0
Ready c t0 id t =
    (t.started ≡ true)
    × (is_some (get id t.submitted_result_digests) ≡ false)
    × (t.completed ≡ false)
    × FramesOf c t0 t
    × TablesOf t0 t
    × CountsOf c t0 t

module _ (p : AdapterPlatform) (c : AdapterConfig) (now : ℕ) (t0 : TurnState) where
  abbrev Kept : TurnState → Outcome → Type 0
  Kept t o = o.1.submitted_result_digests ≡ t.submitted_result_digests

  ensure-submitted : (t : TurnState) → Kept t (ensure_turn_started p c now t)
  unfolding ensure_turn_started set_started
  ensure-submitted t =
      if_elim (Kept t) t.started _ _ (λ _. refl)
        λ _.
          append_checked-elim p c now (λ o. Kept t (o >>= set_started p c now))
            (started_frame p c now t) t (λ e. refl) (λ n room. refl)

  abbrev Same : TurnState → Outcome → Type 0
  Same t o = (o.1.started ≡ t.started) × (o.1.submitted_result_digests ≡ t.submitted_result_digests)

  flush_output-Same : (t : TurnState) → Same t (flush_output p c now t)
  unfolding flush_output flush_pending
  flush_output-Same t =
      if_elim (Same t) (size t.pending_output == 0) _ _ (λ _. (refl, refl))
        λ _.
          unless_elim (Same t) _ _
            (frame_capacity p c now (record t { output_flush_timer = false }) 1)
            (λ _ _. (refl, refl))
            λ _. append_frame-elim p c now (Same t) _ _ (λ e. (refl, refl)) (λ n. (refl, refl))

  call_limits-none :
      (call : FunctionCall) (t : TurnState)
      → call_limits p c now call t ≡ none
      → CountsOf c t0 t
      → CountsSound c t0.request.runtime_session_id t.request.runtime_session_id t.text
          (suc t.brokered_call_count)
          (t.brokered_state_bytes + call_state_bytes call)
  unfolding call_limits
  call_limits-none call t h s = record {
    same_session = s.same_session;
    text_bounded = s.text_bounded;
    calls_bounded = λ k. ground arith;
    bytes_bounded = λ k. ground arith;
  }

  store_call-Sound :
      (call : FunctionCall) (t : TurnState)
      → Ready c t0 call.call_id t
      → (1 < c.max_events → length t.frames + 1 < c.max_events)
      → CountsSound c t0.request.runtime_session_id t.request.runtime_session_id t.text
          (suc t.brokered_call_count)
          (t.brokered_state_bytes + call_state_bytes call)
      → OpenSound c t0 (store_call p c now call t).1
  unfolding store_call add_pending call_frame new_frame
  store_call-Sound call t (st, fresh, op, frames, tables, counts) room bounded =
      let filled =
        TablesSound-insert _ _ _ _ _ _ _ call.call_id call.name call.call_digest
          call.provider_call_id tables fresh in
      append_frame-elim p c now (λ o. OpenSound c t0 o.1)
        (call_frame p c now call (add_pending p c now call t)) (add_pending p c now call t)
        (λ e. (
          op,
          FramesSound-flags c _ _ t.frames t.completed t.started t.started t.pending_output
              t.pending_output t.pending_tools _ frames (λ _ ns. clash t.started st ns),
          filled,
          bounded,
        ))
        (λ n. (
          op,
          FramesSound-append c _ _ t.frames t.completed t.started t.started t.pending_output
              t.pending_output t.pending_tools _ _ frames op st (refl, refl) refl
              (λ k. let r = room k in omega (arith, r)),
          filled,
          bounded,
        ))

  admit_call-Sound :
      (call : FunctionCall) (t : TurnState)
      → Ready c t0 call.call_id t
      → OpenSound c t0 (admit_call p c now call t).1
  unfolding admit_call expose_call bound_call
  admit_call-Sound call t s =
      let exposed : TurnState = record t {
        exposed_brokered_write =
            tool_class t.request.input.tools call.name == "write" || t.exposed_brokered_write;
      } in
      let still : OpenSound c t0 t = (s.2, s.3, s.4, s.5) in
      unless_elim (λ (o : Outcome). OpenSound c t0 o.1) _ _ (frame_capacity p c now t 1)
        (λ _ _. still)
        λ h.
          unless_elim (λ (o : Outcome). OpenSound c t0 o.1) _ _ (call_limits p c now call exposed)
            (λ _ _. still)
            λ k.
              store_call-Sound call exposed s (frame_capacity-none p c now t 1 h)
                (call_limits-none call exposed k s.5)

  flushed_case :
      (call : FunctionCall) (o : Outcome)
      → OpenSound c t0 o.1
      → o.1.started ≡ true
      → is_some (get call.call_id o.1.submitted_result_digests) ≡ false
      → OpenSound c t0 (o >>= admit_call p c now call).1
  flushed_case call (some e, t) s st fresh = s
  flushed_case call (none, t) s st fresh = admit_call-Sound call t (st, fresh, s.0, s.1, s.2, s.3)

  started_case :
      (call : FunctionCall) (o : Outcome)
      → OpenSound c t0 o.1
      → (o.0 ≡ none → o.1.started ≡ true)
      → is_some (get call.call_id o.1.submitted_result_digests) ≡ false
      → OpenSound c t0 (o >>= λ t. flush_output p c now t >>= admit_call p c now call).1
  started_case call (some e, t) s st fresh = s
  started_case call (none, t) s st fresh =
      flushed_case call (flush_output p c now t) (flush_output-Sound p c now t0 t s)
        ((flush_output-Same t).0 ∙ st refl)
        (ap (λ (m : Map String String). is_some (get call.call_id m)) (flush_output-Same t).1
          ∙ fresh)

  new_call-Sound :
      (call : FunctionCall) (t : TurnState)
      → OpenSound c t0 t
      → is_some (get call.call_id t.submitted_result_digests) ≡ false
      → OpenSound c t0 (new_call p c now call t).1
  unfolding new_call
  new_call-Sound call t s fresh =
      started_case call (ensure_turn_started p c now t) (ensure_turn_started-Sound p c now t0 t s)
        (ensure-started p c now t0 t)
        (ap (λ (m : Map String String). is_some (get call.call_id m)) (ensure-submitted t) ∙ fresh)

  call_conflict-none :
      (call : FunctionCall) (t : TurnState)
      → call_conflict p c now call t ≡ none
      → is_some (get call.call_id t.submitted_result_digests) ≡ false
  unfolding call_conflict
  call_conflict-none call t h = ground arith

  seen_or_new-Sound :
      (call : FunctionCall) (seen : Option String) (t : TurnState)
      → OpenSound c t0 t
      → is_some (get call.call_id t.submitted_result_digests) ≡ false
      → OpenSound c t0 (seen_or_new p c now call seen t).1
  unfolding seen_or_new
  seen_or_new-Sound call none t s fresh = new_call-Sound call t s fresh
  seen_or_new-Sound call (some name) t s fresh =
      if_elim (λ (o : Outcome). OpenSound c t0 o.1) (same_call p c now call name t) _ _ (λ _. s)
        (λ _. s)

  record_call-Sound :
      (call : FunctionCall) (t : TurnState)
      → OpenSound c t0 t
      → OpenSound c t0 (record_call p c now call t).1
  unfolding record_call
  record_call-Sound call t s =
      if_elim (λ (o : Outcome). OpenSound c t0 o.1) t.completed _ _ (λ _. s)
        λ _.
          unless_elim (λ (o : Outcome). OpenSound c t0 o.1) _ _ (call_conflict p c now call t)
            (λ _ _. s)
            λ h.
              seen_or_new-Sound call (get call.call_id t.pending_tools) t s
                (call_conflict-none call t h)

  checked_call-Sound :
      (checked : AdapterError ⊎ FunctionCall) (t : TurnState)
      → OpenSound c t0 t
      → OpenSound c t0 (checked_call p c now checked t).1
  unfolding checked_call
  checked_call-Sound (inl e) t s = s
  checked_call-Sound (inr call) t s = record_call-Sound call t s

  pub record_function_call-Sound :
      (item : OutputItem) (t : TurnState)
      → OpenSound c t0 t
      → OpenSound c t0 (record_function_call p c now item t).1
  unfolding record_function_call
  record_function_call-Sound item t s = checked_call-Sound (check_call p t item) t s
