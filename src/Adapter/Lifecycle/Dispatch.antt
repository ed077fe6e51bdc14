-- ===== src/Adapter/Lifecycle/Dispatch.antt =====
-- What a continuation hands to the provider: the results of all pending calls, each once.
use agent_runtime_foundry.Base.Map.{Map, keys, get, get-insert, get-delete}
use agent_runtime_foundry.Foundry.Responses.{ResponseRequest}
use agent_runtime_foundry.Harness.Types.{HarnessError, ContinueTurnRequest}
use agent_runtime_foundry.Harness.Validate.{validate_continue}
use agent_runtime_foundry.Adapter.Types.{
  AdapterError, AdapterConfig, AdapterPlatform, TurnState, Outcome, ◌>>=◌, unless_elim,
}
use agent_runtime_foundry.Adapter.Frames.{frame_capacity}
use agent_runtime_foundry.Adapter.Calls.{or_empty}
use agent_runtime_foundry.Adapter.Stage.{
  StagedToolResult, stage_results, buffer_results, additional_bytes, validate_result_frames,
}
use agent_runtime_foundry.Adapter.Checks.{provider_safe_message}
use agent_runtime_foundry.Adapter.Continue.{
  Handoff, nothing, invalid, refused, fault, dispatch, sort, emit_result, emit_results,
  note_emitted, submit_result, submit_results, previous_id, send_results, submit_all,
  emit_and_submit, prepare_continuation, end_fault, all_buffered, continue_buffered,
  continue_staged, staged_or_refused, continue_locked, continue_matches, continue_matching,
  valid_or_refused, continue_turn,
}
use agent_runtime_foundry.Adapter.Sound.{TablesOf, OpenSound, Distinct, has}
use agent_runtime_foundry.Adapter.Sound.Sorted.{has-sort, Distinct-sort}
use agent_runtime_foundry.Adapter.Sound.Keys.{has-keys}
use agent_runtime_foundry.Adapter.Sound.Pigeonhole.{covers}
use agent_runtime_foundry.Adapter.Sound.Frames.{append_frame-elim}
use agent_runtime_foundry.Adapter.Sound.Stage.{
  AllPending, stage_results-AllPending, buffer_results-Sound,
}
use agent_runtime_foundry.Base.{
  ℕ, suc, ◌+◌, ◌≤◌, String, ◌≡◌, ◌∙◌, ap, sym, subst, refl, inl, inr, ◌⊎◌, Bool, true, false, not,
  ◌&&◌, ◌||◌, any, Bool-cases, if_elim, if◌then◌else◌, Option, none, some, is_some, List, [], ◌∷◌,
  length, ltb, ◌==◌, string_eq, nat_eq, arith, text_eq_iff,
}

-- Where a list of calls goes when it is submitted.
Moved : List String → TurnState → TurnState → Type 0
Moved ids t u =
    (k : String)
    → (get k u.pending_tools ≡ (if has k ids then none else get k t.pending_tools))
      × (get k u.submitted_result_digests ≡ (
          if has k ids
          then some (or_empty (get k t.buffered_result_digests))
          else get k t.submitted_result_digests))

-- Every pending call has a result, is submitted with its digest and is not pending any more; the other
-- submitted results stay.
abbrev pub Answered : TurnState → TurnState → Type 0
Answered t u =
    (k : String)
    → (get k u.pending_tools ≡ none)
      × (is_some (get k t.pending_tools) ≡ true
          → (is_some (get k t.buffered_results) ≡ true)
            × (is_some (get k t.buffered_result_digests) ≡ true)
            × (get k u.submitted_result_digests ≡ get k t.buffered_result_digests))
      × (is_some (get k t.pending_tools) ≡ false
          → get k u.submitted_result_digests ≡ get k t.submitted_result_digests)

length-keys {ℓ} : {V : Type ℓ} (m : Map String V) → length (keys m) ≡ length m
length-keys [] = refl
length-keys ((k, v) ∷ m) = ap suc (length-keys m)

now_none :
    (b : Bool) (before : Option String) {after : Option String}
    → b ≡ is_some before
    → after ≡ (if b then none else before)
    → after ≡ none
now_none true before known e = e
now_none false none known e = e
now_none false (some x) known e = absurd (cc)

now_digest :
    (b : Bool) (digest other : Option String) {after : Option String}
    → is_some digest ≡ true
    → b ≡ true
    → after ≡ (if b then some (or_empty digest) else other)
    → after ≡ digest
now_digest true (some d) other there h e = e
now_digest true none other there h e = absurd (cc)
now_digest false digest other there h e = absurd (cc)

now_same :
    (b : Bool) (digest other : Option String) {after : Option String}
    → b ≡ false
    → after ≡ (if b then digest else other)
    → after ≡ other
now_same true digest other h e = absurd (cc)
now_same false digest other h e = e

module _ (p : AdapterPlatform) (c : AdapterConfig) (now : ℕ) where
  submit_results-Moved :
      (ids : List String) (t : TurnState)
      → Distinct ids
      → Moved ids t (submit_results p c now ids t)
  unfolding submit_results submit_result Moved
  submit_results-Moved [] t d k = (refl, refl)
  submit_results-Moved (id ∷ ids) t d k =
      let rest = submit_results-Moved ids (submit_result p c now id t) d.1 k in
      elim (Bool-cases (id == k)) [
        | inl e ↦
            let same : id ≡ k = (text_eq_iff id k).0 e in
            let absent : has k ids ≡ false = subst (λ (s : String). has s ids ≡ false) same d.0 in
            (
              ground (arith, e, rest.0, absent, get-delete id k t.pending_tools),
              ground (
                arith,
                e,
                rest.1,
                absent,
                ap (λ (s : String). get s t.buffered_result_digests) same,
                get-insert id k (or_empty (get id t.buffered_result_digests))
                    t.submitted_result_digests,
              ),
            )
        | inr e ↦ (
          ground (arith, e, rest.0, get-delete id k t.pending_tools),
          ground (
            arith,
            e,
            rest.1,
            get-delete id k t.buffered_result_digests,
            get-insert id k (or_empty (get id t.buffered_result_digests))
                t.submitted_result_digests,
          ),
        )
      ]

  -- What the frames of the results leave as it was.
  abbrev SameTables : TurnState → TurnState → Type 0
  SameTables t u =
      (u.pending_tools ≡ t.pending_tools)
      × (u.buffered_result_digests ≡ t.buffered_result_digests)
      × (u.submitted_result_digests ≡ t.submitted_result_digests)

  emit_result-same : (id : String) (t : TurnState) → SameTables t (emit_result p c now id t).1
  unfolding emit_result note_emitted
  emit_result-same id t =
      if_elim (λ (o : Outcome). SameTables t o.1) (any (λ emitted. emitted == id) t.emitted_results)
        _ _ (λ _. (refl, refl, refl))
        λ _.
          append_frame-elim p c now (λ o. SameTables t (o >>= note_emitted p c now id).1) _ t
            (λ e. (refl, refl, refl)) (λ n. (refl, refl, refl))

  same_rest :
      (ids : List String) (t : TurnState) (o : Outcome)
      → SameTables t o.1
      → ((u : TurnState) → SameTables u (emit_results p c now ids u).1)
      → SameTables t (o >>= emit_results p c now ids).1
  same_rest ids t (some e, u) s rest = s
  same_rest ids t (none, u) s rest = let r = rest u in (r.0 ∙ s.0, r.1 ∙ s.1, r.2 ∙ s.2)

  emit_results-same :
      (ids : List String) (t : TurnState) → SameTables t (emit_results p c now ids t).1
  unfolding emit_results
  emit_results-same [] t = (refl, refl, refl)
  emit_results-same (id ∷ ids) t =
      same_rest ids t (emit_result p c now id t) (emit_result-same id t) (emit_results-same ids)

  -- A dispatched continuation moved what was to be moved.
  abbrev MovedIf : ResponseRequest → List String → TurnState → Handoff × TurnState → Type 0
  MovedIf r ids t h = h.0 ≡ dispatch r → Moved ids t h.1

  submit_all-Moved :
      (r : ResponseRequest) (ids : List String) (t : TurnState)
      → Distinct ids
      → MovedIf r ids t (submit_all p c now ids t)
  unfolding submit_all send_results Moved
  submit_all-Moved r ids t d =
      if_elim (MovedIf r ids t) (previous_id p c now t == "") _ _ (λ _ h. absurd (cc))
        (λ _ h. submit_results-Moved ids t d)

  emit_and_submit-Moved :
      (r : ResponseRequest) (ids : List String) (t : TurnState)
      → Distinct ids
      → MovedIf r ids t (emit_and_submit p c now ids t)
  unfolding emit_and_submit Moved
  emit_and_submit-Moved r ids t d =
      let u : TurnState = (emit_results p c now ids t).1 in
      let same = emit_results-same ids t in
      unless_elim (MovedIf r ids t) _ _ (emit_results p c now ids t).0 (λ e _ h. absurd (cc))
        λ _ h k.
          let moved = submit_all-Moved r ids u d h k in
          (
            subst
                (λ (m : Map String String).
                  get k (submit_all p c now ids u).1.pending_tools
                  ≡ (if has k ids then none else get k m))
                same.0 moved.0,
            subst
                (λ (m : Map String String).
                  get k (submit_all p c now ids u).1.submitted_result_digests ≡ (
                    if has k ids
                    then some (or_empty (get k m))
                    else get k t.submitted_result_digests))
                same.1
                (subst
                  (λ (m : Map String String).
                    get k (submit_all p c now ids u).1.submitted_result_digests ≡ (
                      if has k ids
                      then some (or_empty (get k u.buffered_result_digests))
                      else get k m))
                  same.2 moved.1),
          )

  prepare_continuation-Moved :
      (r : ResponseRequest) (t : TurnState)
      → Distinct (keys t.pending_tools)
      → MovedIf r (sort (keys t.pending_tools)) t (prepare_continuation p c now t)
  unfolding prepare_continuation
  prepare_continuation-Moved r t d =
      let ids : List String = sort (keys t.pending_tools) in
      if_elim (MovedIf r ids t) t.continuation_in_flight _ _ (λ _ h. absurd (cc))
        λ _.
          unless_elim (MovedIf r ids t) _ _
            (frame_capacity p c now t (length (keys t.pending_tools))) (λ e _ h. absurd (cc))
            (λ _. emit_and_submit-Moved r ids t (Distinct-sort (keys t.pending_tools) d))

  Moved-Answered :
      (t0 t u : TurnState)
      → TablesOf t0 t
      → length t.pending_tools ≤ length t.buffered_results
      → Moved (sort (keys t.pending_tools)) t u
      → Answered t u
  unfolding Moved
  Moved-Answered t0 t u s enough moved k =
      let ids : List String = keys t.pending_tools in
      let known : has k (sort ids) ≡ is_some (get k t.pending_tools) =
        has-sort k ids ∙ has-keys k t.pending_tools in
      let fits : length ids ≤ length (keys t.buffered_results) =
        omega (arith, length-keys t.pending_tools, length-keys t.buffered_results) in
      let inside = λ (j : String) (h : has j (keys t.buffered_results) ≡ true).
        has-keys j t.pending_tools
        ∙ s.buffered_pending j (sym (has-keys j t.buffered_results) ∙ h) in
      let all =
        covers (keys t.buffered_results) ids s.distinct_buffered s.distinct_pending inside fits in
      let buffered : is_some (get k t.pending_tools) ≡ true
          → is_some (get k t.buffered_results) ≡ true =
        λ h. sym (has-keys k t.buffered_results) ∙ all k (has-keys k t.pending_tools ∙ h) in
      (
        now_none (has k (sort ids)) (get k t.pending_tools) known (moved k).0,
        (λ h.
            let there = buffered h in
            let digest = s.same_buffered k ∙ there in
            (
              there,
              digest,
              now_digest (has k (sort ids)) (get k t.buffered_result_digests)
                  (get k t.submitted_result_digests) digest (known ∙ h) (moved k).1,
            )),
        (λ h.
            now_same (has k (sort ids)) (some (or_empty (get k t.buffered_result_digests)))
              (get k t.submitted_result_digests) (known ∙ h) (moved k).1),
      )

  end_fault-dispatch :
      (r : ResponseRequest) (message : AdapterError → String) (P : TurnState → Type 0)
      (h : Handoff × TurnState)
      → (h.0 ≡ dispatch r → P h.1)
      → (end_fault p c now message h).0 ≡ dispatch r
      → P (end_fault p c now message h).1
  unfolding end_fault
  end_fault-dispatch r message P (nothing, t) k e = absurd (cc)
  end_fault-dispatch r message P (invalid x, t) k e = absurd (cc)
  end_fault-dispatch r message P (refused x, t) k e = absurd (cc)
  end_fault-dispatch r message P (fault x, t) k e = absurd (cc)
  end_fault-dispatch r message P (dispatch q, t) k e = k e

  module _ (t0 : TurnState) (r : ResponseRequest) where
    enough_buffered :
        (n : ℕ) (t : TurnState)
        → (t.completed || n == 0 || not (all_buffered p c now t)) ≡ false
        → length t.pending_tools ≤ length t.buffered_results
    unfolding all_buffered
    enough_buffered n t h = ground (arith, h)

    continue_buffered-Answered :
        (n : ℕ) (t : TurnState)
        → OpenSound c t0 t
        → (continue_buffered p c now n t).0 ≡ dispatch r
        → Answered t (continue_buffered p c now n t).1
    unfolding continue_buffered
    continue_buffered-Answered n t s =
        if_elim (λ (h : Handoff × TurnState). h.0 ≡ dispatch r → Answered t h.1)
          (t.completed || n == 0 || not (all_buffered p c now t)) _ _ (λ _ e. absurd (cc))
          λ enough.
            end_fault-dispatch r provider_safe_message (Answered t) (prepare_continuation p c now t)
              (λ e.
                Moved-Answered t0 t _ s.2 (enough_buffered n t enough)
                  (prepare_continuation-Moved r t s.2.distinct_pending e))

    -- The staged results of a request, and what became of the turn that buffered them.
    abbrev AnsweredBy :
        TurnState → AdapterError ⊎ List StagedToolResult → Handoff × TurnState → Type 0
    AnsweredBy t results h =
        h.0 ≡ dispatch r
        → (staged : List StagedToolResult) × (results ≡ inr staged)
          × Answered (buffer_results staged t) h.1

    staged_or_refused-Answered :
        (results : AdapterError ⊎ List StagedToolResult) (t : TurnState)
        → OpenSound c t0 t
        → AllPending t results
        → AnsweredBy t results (staged_or_refused p c now results t)
    unfolding staged_or_refused continue_staged
    staged_or_refused-Answered (inl e) t s there = λ h. absurd (cc)
    staged_or_refused-Answered (inr staged) t s there =
        if_elim (AnsweredBy t (inr staged))
          (ltb 0 c.max_brokered_turn_bytes
            && ltb c.max_brokered_turn_bytes (t.brokered_state_bytes + additional_bytes staged))
          _ _ (λ _ h. absurd (cc))
          (λ small h. (
            staged,
            refl,
            continue_buffered-Answered (length staged) (buffer_results staged t)
                (buffer_results-Sound c t0 staged t s.0 s.1 s.2
                  (record {
                    same_session = s.3.same_session;
                    text_bounded = s.3.text_bounded;
                    calls_bounded = s.3.calls_bounded;
                    bytes_bounded = λ k. ground (arith, small);
                  })
                  there)
                h,
          ))

    valid_or_refused-Answered :
        (e : Option HarnessError) (request : ContinueTurnRequest) (t : TurnState)
        → OpenSound c t0 t
        → AnsweredBy t
            (stage_results p t request.tool_results)
            (valid_or_refused p c now e request t)
    unfolding valid_or_refused continue_matching continue_locked
    valid_or_refused-Answered (some x) request t s = λ h. absurd (cc)
    valid_or_refused-Answered none request t s =
        let results = stage_results p t request.tool_results in
        if_elim (AnsweredBy t results) (not (continue_matches p c now request t.request)) _ _
          (λ _ h. absurd (cc))
          λ _.
            unless_elim (AnsweredBy t results) _ _
              (validate_result_frames p c.max_brokered_bytes request.tool_results)
              (λ _ _ h. absurd (cc))
              (λ _.
                staged_or_refused-Answered results t s
                  (stage_results-AllPending p t request.tool_results))

  -- When a continue request to a sound open turn makes a continuation go out, then with the results
  -- of the request buffered every pending call has a result; afterwards no call is pending, each call
  -- that was has been submitted with the digest of its result, and the other submitted results stay.
  pub continue_turn-Answered :
      (t0 t : TurnState) (request : ContinueTurnRequest) (r : ResponseRequest)
      → OpenSound c t0 t
      → (continue_turn p c now request t).0 ≡ dispatch r
      → (staged : List StagedToolResult) × (stage_results p t request.tool_results ≡ inr staged)
        × Answered (buffer_results staged t) (continue_turn p c now request t).1
  unfolding continue_turn
  continue_turn-Answered t0 t request r s h =
      valid_or_refused-Answered t0 r (validate_continue request) request t s h
