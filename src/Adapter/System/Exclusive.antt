-- ===== src/Adapter/System/Exclusive.antt =====
-- One runtime session has one active turn, at every moment.
use agent_runtime_foundry.Base.Map.{get}
use agent_runtime_foundry.Base.Text.{size}
use agent_runtime_foundry.Adapter.Types.{AdapterConfig, AdapterPlatform, TurnState, empty_turn}
use agent_runtime_foundry.Adapter.Run.{SessionChange, leave, forget, remember}
use agent_runtime_foundry.Adapter.Retain.{Adapter, record_session}
use agent_runtime_foundry.Adapter.Start.{is_active, start_locked, change_session}
use agent_runtime_foundry.Adapter.Sound.{TurnSound, Prefix-refl}
use agent_runtime_foundry.Adapter.Lifecycle.Invariant.{TurnStep-Sound, rebased}
use agent_runtime_foundry.Adapter.System.{
  AdapterStep, begin, change, session, clean, look, drop, AdapterReaches, empty, next,
}
use agent_runtime_foundry.Adapter.System.Inactive.{TurnStep-Idle}
use agent_runtime_foundry.Base.{
  ℕ, String, ◌≡◌, refl, inl, true, ◌&&◌, if_elim, some, [], ◌==◌, nat_eq, string_eq, arith,
}
use agent_runtime_foundry.Adapter.System.Turns.{
  TurnsOf, delete-TurnsSound, maybe_delete-TurnsSound, prune-TurnsSound, commit_turn-TurnsSound,
}
use agent_runtime_foundry.Adapter.System.Added.{start_buried-TurnsSound}

none-made : (i : String) (x : ℕ) → get i [] ≡ some x → ⊥
unfolding get
none-made i x h = cc

empty_turn-Sound : (c : AdapterConfig) → TurnSound c empty_turn empty_turn
unfolding get size
empty_turn-Sound c = (
  record {
    numbered = tt;
    open_frames = λ _. tt;
    ended = inl tt;
    room = λ h _. omega arith;
    bounded = λ h. omega arith;
    idle = λ _ _. (refl, refl, refl);
    grown = Prefix-refl [];
    frozen = λ h. absurd (cc);
  },
  record {
    same_digests = λ k. refl;
    same_ids = λ k. refl;
    same_buffered = λ k. refl;
    buffered_pending = λ k h. h;
    not_pending = λ k h. refl;
    kept = λ k d h. h;
    distinct_pending = tt;
    distinct_buffered = tt;
  },
  record {
    same_session = refl;
    text_bounded = omega arith;
    calls_bounded = λ h. omega arith;
    bytes_bounded = λ h. omega arith;
  },
)

module _ (p : AdapterPlatform) (c : AdapterConfig) (now : ℕ) where
  change_session-TurnsSound :
      (how : SessionChange) (t : TurnState) (a : Adapter)
      → TurnsOf c a
      → TurnsOf c (change_session p c now how t a)
  unfolding change_session record_session
  change_session-TurnsSound leave t a s = s
  change_session-TurnsSound forget t a s = s
  change_session-TurnsSound remember t a s =
      if_elim (TurnsOf c) (t.agent_session_id == "" && t.previous_response == "") _ _ (λ _. s)
        (λ _. s)

module _ (p : AdapterPlatform) (c : AdapterConfig) where
  AdapterStep-TurnsSound : {a b : Adapter} → AdapterStep p c a b → TurnsOf c a → TurnsOf c b
  unfolding start_locked
  AdapterStep-TurnsSound (begin now r a) s =
      start_buried-TurnsSound p c now r (get r.turn_id a.turn_tombstones) a s
  AdapterStep-TurnsSound (change now at u a step) s =
      let su = TurnStep-Sound p c (a.heap at) step (s.each at) in
      commit_turn-TurnsSound c now at u a s (rebased c (a.heap at) u su) su.2.same_session
        (TurnStep-Idle p c step)
  AdapterStep-TurnsSound (session now how t a) s = change_session-TurnsSound p c now how t a s
  AdapterStep-TurnsSound (clean now t a) s = maybe_delete-TurnsSound c now t a s
  AdapterStep-TurnsSound (look now a) s = prune-TurnsSound c now a s
  AdapterStep-TurnsSound (drop id a) s = delete-TurnsSound c a.heap a.next_turn a.turns id s

  reached-TurnsSound : {a : Adapter} → AdapterReaches p c a → TurnsOf c a
  reached-TurnsSound empty = record {
    each = λ x. empty_turn-Sound c;
    made = λ i x h. absurd (none-made i x h);
    exclusive = λ i j x y hi. absurd (none-made i x hi);
  }
  reached-TurnsSound (next before step) = AdapterStep-TurnsSound step (reached-TurnsSound before)

  -- At every moment of an adapter, however its sections were ordered, two turns of its table that are
  -- active and of the same runtime session are one turn: they have the same turn id.
  pub reached-exclusive :
      (a : Adapter) (i j : String) (x y : ℕ)
      → AdapterReaches p c a
      → get i a.turns ≡ some x
      → get j a.turns ≡ some y
      → is_active (a.heap x) ≡ true
      → is_active (a.heap y) ≡ true
      → (a.heap x).request.runtime_session_id ≡ (a.heap y).request.runtime_session_id
      → i ≡ j
  reached-exclusive a i j x y r = (reached-TurnsSound r).exclusive i j x y
