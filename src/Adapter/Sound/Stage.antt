-- ===== src/Adapter/Sound/Stage.antt =====
-- The results that continueTurn buffers are those of pending calls, and their bytes were counted
-- against the limit.
use agent_runtime_foundry.Base.Text.{trim_space}
use agent_runtime_foundry.Base.Map.{Map, get, insert}
use agent_runtime_foundry.Harness.Types.{ToolCallResult}
use agent_runtime_foundry.Adapter.Types.{
  AdapterError, AdapterConfig, AdapterPlatform, TurnState, unless_elim,
}
use agent_runtime_foundry.Adapter.Stage.{
  StagedToolResult, tool_result_fingerprint, stage_new, stage_result, stage_item, stage_round,
  stage_results, additional_bytes, buffer_result, buffer_results,
}
use agent_runtime_foundry.Adapter.Sound.Tables.{
  TablesSound, CountsSound, FramesOf, TablesOf, OpenSound,
}
use agent_runtime_foundry.Adapter.Sound.Keys.{is_some-insert, Distinct-insert}
use agent_runtime_foundry.Base.{
  ℕ, ◌+◌, String, ◌≡◌, ◌∙◌, ap, sym, subst, refl, inl, inr, ◌⊎◌, Bool, true, false, ◌||◌,
  Bool-cases, if_elim, Option, none, some, is_some, List, [], ◌∷◌, All, ◌==◌, string_eq, arith,
  text_eq_iff,
}

abbrev pub IsPending : TurnState → StagedToolResult → Type 0
IsPending t item = (is_some (get item.call_id t.pending_tools) ≡ true) × (t.completed ≡ false)

-- A result that is staged is of a pending call of an open turn.
stage_result-pending :
    (p : AdapterPlatform) (t : TurnState) (id digest : String)
    → (stage_result p t id digest).1 ≡ true
    → (is_some (get id t.pending_tools) ≡ true) × (t.completed ≡ false)
unfolding stage_result stage_new
stage_result-pending p t id digest h = (ground arith, ground arith)

abbrev pub AllPending : TurnState → AdapterError ⊎ List StagedToolResult → Type 0
AllPending t (inl e) = Unit
AllPending t (inr staged) = All (IsPending t) staged

stage_item-AllPending :
    (p : AdapterPlatform) (t : TurnState) (item : StagedToolResult)
    (rest : AdapterError ⊎ List StagedToolResult)
    → IsPending t item
    → AllPending t rest
    → AllPending t (stage_item p item rest)
unfolding stage_item
stage_item-AllPending p t item (inl e) h rest = tt
stage_item-AllPending p t item (inr staged) h rest = (h, rest)

stage_round-AllPending :
    (p : AdapterPlatform) (t : TurnState) (result : ToolCallResult)
    (rest : AdapterError ⊎ List StagedToolResult) (print : Option (String × ℕ))
    → AllPending t rest
    → AllPending t (stage_round p t result rest print)
unfolding stage_round
stage_round-AllPending p t result rest none h = tt
stage_round-AllPending p t result rest (some (digest, encoded)) h =
    let id = trim_space result.tool_call_id in
    unless_elim (AllPending t) _ _ (stage_result p t id digest).0 (λ _ _. tt)
      λ _.
        if_elim (AllPending t) (stage_result p t id digest).1 _ _
          (λ e. stage_item-AllPending p t _ rest (stage_result-pending p t id digest e) h) (λ _. h)

pub stage_results-AllPending :
    (p : AdapterPlatform) (t : TurnState) (results : List ToolCallResult)
    → AllPending t (stage_results p t results)
unfolding stage_results
stage_results-AllPending p t [] = tt
stage_results-AllPending p t (result ∷ results) =
    stage_round-AllPending p t result _ (tool_result_fingerprint p result)
      (stage_results-AllPending p t results)

TablesSound-buffer :
    (s0 pending digests ids : Map String String) (buffered : Map String ToolCallResult)
    (buffered_digests submitted : Map String String) (id digest : String) (result : ToolCallResult)
    → TablesSound s0 pending digests ids buffered buffered_digests submitted
    → is_some (get id pending) ≡ true
    → TablesSound s0 pending digests ids
        (insert id result buffered)
        (insert id digest buffered_digests)
        submitted
TablesSound-buffer s0 pending digests ids buffered buffered_digests submitted id digest result s
      there =
    record {
      same_digests = s.same_digests;
      same_ids = s.same_ids;
      same_buffered = λ k.
          is_some-insert id k digest buffered_digests
          ∙ ap (λ (b : Bool). id == k || b) (s.same_buffered k)
          ∙ sym (is_some-insert id k result buffered);
      buffered_pending = λ k h. elim (Bool-cases (id == k)) [
        | inl e ↦
            subst (λ (x : String). is_some (get x pending) ≡ true) ((text_eq_iff id k).0 e) there
        | inr e ↦ s.buffered_pending k (ground (arith, is_some-insert id k result buffered))
      ];
      not_pending = s.not_pending;
      kept = s.kept;
      distinct_pending = s.distinct_pending;
      distinct_buffered = Distinct-insert id result buffered s.distinct_buffered;
    }

-- The loop over the staged results, with room for the bytes of those that are left.
pub buffer_results-Sound :
    (c : AdapterConfig) (t0 : TurnState) (staged : List StagedToolResult) (t : TurnState)
    → t.completed ≡ false
    → FramesOf c t0 t
    → TablesOf t0 t
    → CountsSound c t0.request.runtime_session_id t.request.runtime_session_id t.text
        t.brokered_call_count
        (t.brokered_state_bytes + additional_bytes staged)
    → All (IsPending t) staged
    → OpenSound c t0 (buffer_results staged t)
unfolding buffer_results buffer_result
buffer_results-Sound c t0 [] t op frames tables counts there = (
  op,
  frames,
  tables,
  record {
    same_session = counts.same_session;
    text_bounded = counts.text_bounded;
    calls_bounded = counts.calls_bounded;
    bytes_bounded = λ h. let below = counts.bytes_bounded h in omega (arith, below);
  },
)
buffer_results-Sound c t0 (item ∷ staged) t op frames tables counts there =
    buffer_results-Sound c t0 staged (buffer_result item t) op frames
      (TablesSound-buffer _ _ _ _ _ _ _ item.call_id item.digest item.result tables there.0.0)
      (record {
        same_session = counts.same_session;
        text_bounded = counts.text_bounded;
        calls_bounded = counts.calls_bounded;
        bytes_bounded = λ h. let below = counts.bytes_bounded h in omega (arith, below);
      })
      there.1

-- A turn that is over stages nothing.
pub closed_staged :
    (t : TurnState) (staged : List StagedToolResult)
    → t.completed ≡ true
    → All (IsPending t) staged
    → staged ≡ []
closed_staged t [] h there = refl
closed_staged t (item ∷ staged) h there = absurd (cc (there.0.1))
