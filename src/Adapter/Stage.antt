-- ===== src/Adapter/Stage.antt =====
-- How continueTurn of internal/adapter/adapter.go takes the results of a request: it checks each
-- against what was submitted, is pending and is buffered, and buffers those that are new.
use agent_runtime_foundry.Base.Text.{append, trim_space}
use agent_runtime_foundry.Base.Map.{get, insert}
use agent_runtime_foundry.Foundry.Digest.{hex_encode}
use agent_runtime_foundry.Harness.Types.{ToolCallResult}
use agent_runtime_foundry.Adapter.Types.{
  AdapterError, plain, limit, validation, AdapterPlatform, unless, TurnState,
}
use agent_runtime_foundry.Adapter.Checks.{plain_error}
use agent_runtime_foundry.Base.{
  ℕ, ◌+◌, String, Bool, true, false, not, Option, none, some, ◌⊎◌, inl, inr, List, [], ◌∷◌, ltb,
  ◌==◌, nat_eq, string_eq, if◌then◌else◌, is_some, length,
}

-- toolResultFingerprint: the digest and the size of a result.
unfoldable pub tool_result_fingerprint : AdapterPlatform → ToolCallResult → Option (String × ℕ)
tool_result_fingerprint p result = elim (p.encode_result result) [
  | none ↦ none
  | some encoded ↦ some (hex_encode (p.sha256 encoded), length encoded)
]

-- validateBrokeredResultFrames
unfoldable pub validate_result_frames :
    AdapterPlatform → ℕ → List ToolCallResult → Option AdapterError
validate_result_frames p max_bytes [] = none
validate_result_frames p max_bytes (result ∷ results) = elim (p.encode_result result) [
  | none ↦ some (validation p.marshal_error)
  | some encoded ↦
      if ltb max_bytes (length encoded)
      then some (
          limit (
            append "brokered tool result " (
              append (p.quote result.tool_call_id) (
                append " frame exceeds adapter limit of "
                  (append (p.decimal max_bytes) " bytes")))))
      else validate_result_frames p max_bytes results
]

pub record StagedToolResult : Type 0 where
  pub call_id : String
  pub digest : String
  pub size : ℕ
  pub result : ToolCallResult

module _ (p : AdapterPlatform) where
  unfoldable pub conflict : String → String → String → Option AdapterError
  conflict before call_id after = plain_error (append before (append (p.quote call_id) after))

  -- What the loop over the results does with one: an error, nothing (none), or a staged result.
  unfoldable pub stage_new : TurnState → String → String → Option AdapterError × Bool
  stage_new t call_id digest =
      if t.completed
      then (
        conflict "tool result " call_id " was not submitted before the turn became terminal",
        false,
      )
      else if not (is_some (get call_id t.pending_tools))
      then (conflict "tool result " call_id " is not pending for this turn", false)
      else elim (get call_id t.buffered_result_digests) [
        | none ↦ (none, true)
        | some buffered ↦
            if buffered == digest
            then (none, false)
            else (conflict "tool result " call_id " conflicts with a buffered result", false)
      ]

  unfoldable pub stage_result : TurnState → String → String → Option AdapterError × Bool
  stage_result t call_id digest = elim (get call_id t.submitted_result_digests) [
    | some submitted ↦
        if submitted == digest
        then (none, false)
        else (conflict "tool result " call_id " conflicts with an already submitted result", false)
    | none ↦ stage_new t call_id digest
  ]

  unfoldable pub stage_item :
      StagedToolResult → AdapterError ⊎ List StagedToolResult → AdapterError ⊎ List StagedToolResult
  stage_item item (inl e) = inl e
  stage_item item (inr staged) = inr (item ∷ staged)

  -- One round of the loop, with its fingerprint and what the later rounds stage.
  unfoldable pub stage_round :
      TurnState
      → ToolCallResult
      → AdapterError ⊎ List StagedToolResult
      → Option (String × ℕ)
      → AdapterError ⊎ List StagedToolResult
  stage_round t result rest none = inl (plain p.marshal_error)
  stage_round t result rest (some (digest, encoded)) =
      let id = trim_space result.tool_call_id in
      unless (stage_result t id digest).0 inl (
        if (stage_result t id digest).1
        then stage_item (record { call_id = id; digest = digest; size = encoded; result = result })
            rest
        else rest)

  -- The loop over the results of a request: the first error, or what is staged.
  unfoldable pub stage_results :
      TurnState → List ToolCallResult → AdapterError ⊎ List StagedToolResult
  stage_results t [] = inr []
  stage_results t (result ∷ results) =
      stage_round t result (stage_results t results) (tool_result_fingerprint p result)

abbrev pub additional_bytes : List StagedToolResult → ℕ
additional_bytes [] = 0
additional_bytes (item ∷ staged) = item.size + additional_bytes staged

-- One write of the loop over the staged results.
unfoldable pub buffer_result : StagedToolResult → TurnState → TurnState
buffer_result item t = record t {
  brokered_state_bytes = t.brokered_state_bytes + item.size;
  buffered_results = insert item.call_id item.result t.buffered_results;
  buffered_result_digests = insert item.call_id item.digest t.buffered_result_digests;
}

unfoldable pub buffer_results : List StagedToolResult → TurnState → TurnState
buffer_results [] t = t
buffer_results (item ∷ staged) t = buffer_results staged (buffer_result item t)
