-- ===== src/Adapter/Lifecycle/History.antt =====
-- What can be relied on over the whole life of a turn.
use agent_runtime_foundry.Base.Map.{get}
use agent_runtime_foundry.Base.Text.{size}
use agent_runtime_foundry.Harness.Types.{StartTurnRequest}
use agent_runtime_foundry.Adapter.Types.{
  AdapterConfig, AdapterPlatform, RuntimeSessionState, TurnState,
}
use agent_runtime_foundry.Adapter.Requests.{new_turn}
use agent_runtime_foundry.Adapter.Sound.{Numbered, Ended, IsNonterminal, Prefix, TurnSound}
use agent_runtime_foundry.Adapter.Lifecycle.{TurnReaches}
use agent_runtime_foundry.Adapter.Lifecycle.Invariant.{TurnReaches-Sound, new_turn-Sound, rebased}
use agent_runtime_foundry.Base.{
  ℕ, ◌<◌, ◌≤◌, String, ◌≡◌, true, false, Option, some, is_some, length, All, string_eq,
}

-- A turn as startTurn makes it.
module _ (p : AdapterPlatform) (c : AdapterConfig) (r : StartTurnRequest) (bytes : ℕ)
    (session : Option RuntimeSessionState) {t : TurnState}
    (reached : TurnReaches p c (new_turn p r bytes session) t) where
  pub reached-Sound : TurnSound c (new_turn p r bytes session) t
  reached-Sound = TurnReaches-Sound p c _ (new_turn-Sound p c r bytes session) reached

  -- At every moment of a turn's life its frames are numbered from one with no gap; none of them is
  -- terminal or only the last one is, and none is while the turn is open.
  pub reached-Ordered :
      Numbered 0 t.frames × Ended t.frames × (t.completed ≡ false → All IsNonterminal t.frames)
  reached-Ordered = let s = reached-Sound in (s.0.numbered, s.0.ended, s.0.open_frames)

  -- At every moment of a turn's life, if the limit on frames is above one, then the turn has at most
  -- that many frames; its text fits the limit on output, and its calls and their bytes the limits on
  -- brokered state, where there are any.
  pub reached-Bounded :
      (1 < c.max_events → length t.frames ≤ c.max_events)
      × (size t.text ≤ c.max_output_bytes)
      × (0 < c.max_brokered_calls → t.brokered_call_count ≤ c.max_brokered_calls)
      × (0 < c.max_brokered_turn_bytes → t.brokered_state_bytes ≤ c.max_brokered_turn_bytes)
  reached-Bounded =
      let s = reached-Sound in (s.0.bounded, s.2.text_bounded, s.2.calls_bounded, s.2.bytes_bounded)

  -- At every moment of a turn's life the three tables of calls have the same keys, the two tables of
  -- buffered results too, every buffered result is of a pending call, and no submitted call is pending.
  pub reached-Matched :
      (k : String)
      → (is_some (get k t.pending_call_digests) ≡ is_some (get k t.pending_tools))
        × (is_some (get k t.provider_call_ids) ≡ is_some (get k t.pending_tools))
        × (is_some (get k t.buffered_result_digests) ≡ is_some (get k t.buffered_results))
        × (is_some (get k t.buffered_results) ≡ true → is_some (get k t.pending_tools) ≡ true)
        × (is_some (get k t.submitted_result_digests) ≡ true
            → is_some (get k t.pending_tools) ≡ false)
  reached-Matched k =
      let s = reached-Sound in
      (
        s.1.same_digests k,
        s.1.same_ids k,
        s.1.same_buffered k,
        s.1.buffered_pending k,
        s.1.not_pending k,
      )

  -- Whatever happens after a moment of a turn's life, its frames stay and more may only follow them, a
  -- submitted result stays submitted with its digest, and if the turn is over at that moment, then it
  -- stays over with the very frames that it has.
  pub reached-Kept :
      {u : TurnState}
      → TurnReaches p c t u
      → Prefix t.frames u.frames
        × ((k d : String)
            → get k t.submitted_result_digests ≡ some d
            → get k u.submitted_result_digests ≡ some d)
        × (t.completed ≡ true → (u.frames ≡ t.frames) × (u.completed ≡ true))
  reached-Kept later =
      let s =
        TurnReaches-Sound p c t (rebased c (new_turn p r bytes session) t reached-Sound) later in
      (s.0.grown, s.1.kept, s.0.frozen)
