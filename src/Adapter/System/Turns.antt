-- ===== src/Adapter/System/Turns.antt =====
-- The turns of an adapter, and the changes of them that register none.
use agent_runtime_foundry.Base.Map.{Map, get, delete, get-delete}
use agent_runtime_foundry.Adapter.Types.{AdapterConfig, TurnState}
use agent_runtime_foundry.Adapter.Retain.{
  Adapter, put_turn, prune_retained_turns, prune_retained, within_limits, oldest_retained,
  maybe_delete_expired, delete_expired, is_retained, prune, bury, commit_turn, prune_sessions,
}
use agent_runtime_foundry.Adapter.Start.{is_active}
use agent_runtime_foundry.Adapter.Sound.{TurnSound}
use agent_runtime_foundry.Adapter.Sound.Frames.{clash}
use agent_runtime_foundry.Base.{
  ℕ, zero, suc, ◌<◌, String, ◌≡◌, ◌∙◌, refl, sym, subst, Bool, true, false, not, ◌&&◌, ◌||◌,
  if_elim, if◌then◌else◌, some, [], ◌∷◌, length, ltb, ◌==◌, nat_eq, string_eq, arith,
}

-- The turns of an adapter: each is sound, the registered ones were made, and two that are active are
-- of different runtime sessions.
pub record TurnsSound (c : AdapterConfig) (heap : ℕ → TurnState) (next_turn : ℕ)
    (turns : Map String ℕ) : Type 0 where
  pub each : (x : ℕ) → TurnSound c (heap x) (heap x)
  pub made : (i : String) (x : ℕ) → get i turns ≡ some x → x < next_turn
  pub exclusive :
      (i j : String) (x y : ℕ)
      → get i turns ≡ some x
      → get j turns ≡ some y
      → is_active (heap x) ≡ true
      → is_active (heap y) ≡ true
      → (heap x).request.runtime_session_id ≡ (heap y).request.runtime_session_id
      → i ≡ j

abbrev pub TurnsOf : AdapterConfig → Adapter → Type 0
TurnsOf c a = TurnsSound c a.heap a.next_turn a.turns

was_active :
    (u : TurnState) (b : Bool) → (b ≡ false → is_active u ≡ false) → is_active u ≡ true → b ≡ true
was_active u true idle h = refl
was_active u false idle h = clash (is_active u) h (idle refl)

-- What is known of a turn after a change at a pointer was true of it before.
looked :
    (heap : ℕ → TurnState) (at : ℕ) (u : TurnState)
    → u.request.runtime_session_id ≡ (heap at).request.runtime_session_id
    → (is_active (heap at) ≡ false → is_active u ≡ false)
    → (x : ℕ) → is_active (if x == at then u else heap x) ≡ true
    → (is_active (heap x) ≡ true)
      × ((if x == at then u else heap x).request.runtime_session_id
          ≡ (heap x).request.runtime_session_id)
looked heap at u same idle x =
    if_elim
      (λ (t : TurnState).
        is_active t ≡ true
        → (is_active (heap x) ≡ true)
          × (t.request.runtime_session_id ≡ (heap x).request.runtime_session_id))
      (x == at) _ _
      (λ e h.
        let here : at ≡ x = sym ((nat_eq.same_iff x at).0 e) in
        subst
          (λ (y : ℕ).
            (is_active (heap y) ≡ true)
            × (u.request.runtime_session_id ≡ (heap y).request.runtime_session_id))
          here (was_active u (is_active (heap at)) idle h, same))
      (λ _ h. (h, refl))

module _ (c : AdapterConfig) where
  -- Fewer turns are registered.
  fewer-TurnsSound :
      (heap : ℕ → TurnState) (made : ℕ) (turns turns' : Map String ℕ)
      → TurnsSound c heap made turns
      → ((i : String) (x : ℕ) → get i turns' ≡ some x → get i turns ≡ some x)
      → TurnsSound c heap made turns'
  fewer-TurnsSound heap made turns turns' s sub = record {
    each = s.each;
    made = λ i x h. s.made i x (sub i x h);
    exclusive = λ i j x y hi hj. s.exclusive i j x y (sub i x hi) (sub j y hj);
  }

  deleted :
      (k : String) (turns : Map String ℕ) (i : String) (x : ℕ)
      → get i (delete k turns) ≡ some x
      → get i turns ≡ some x
  deleted k turns i x h = ground (arith, h, get-delete k i turns)

  pub delete-TurnsSound :
      (heap : ℕ → TurnState) (made : ℕ) (turns : Map String ℕ) (k : String)
      → TurnsSound c heap made turns
      → TurnsSound c heap made (delete k turns)
  delete-TurnsSound heap made turns k s =
      fewer-TurnsSound heap made turns (delete k turns) s (deleted k turns)

  prune_retained_turns-TurnsSound :
      (fuel : ℕ) (heap : ℕ → TurnState) (made : ℕ) (keep : String) (turns : Map String ℕ)
      → TurnsSound c heap made turns
      → TurnsSound c heap made (prune_retained_turns fuel heap keep turns)
  unfolding prune_retained_turns
  prune_retained_turns-TurnsSound zero heap made keep turns s = s
  prune_retained_turns-TurnsSound (suc fuel) heap made keep turns s =
      if_elim (TurnsSound c heap made)
        (within_limits heap turns || oldest_retained heap keep turns == "") _ _ (λ _. s)
        (λ _.
          prune_retained_turns-TurnsSound fuel heap made keep
            (delete (oldest_retained heap keep turns) turns)
            (delete-TurnsSound heap made turns (oldest_retained heap keep turns) s))

  pub maybe_delete-TurnsSound :
      (now : ℕ) (t : TurnState) (a : Adapter)
      → TurnsOf c a
      → TurnsOf c (maybe_delete_expired now t a)
  unfolding maybe_delete_expired
  maybe_delete-TurnsSound now t a s =
      if_elim (TurnsOf c) (not (is_retained t) || ltb now t.cleanup_at) _ _ (λ _. s)
        (λ _. delete-TurnsSound a.heap a.next_turn a.turns t.request.turn_id s)

  delete_expired-TurnsSound :
      (now : ℕ) (turns : Map String ℕ) (a : Adapter)
      → TurnsOf c a
      → TurnsOf c (delete_expired now turns a)
  unfolding delete_expired
  delete_expired-TurnsSound now [] a s = s
  delete_expired-TurnsSound now ((id, at) ∷ turns) a s =
      delete_expired-TurnsSound now turns (maybe_delete_expired now (a.heap at) a)
        (maybe_delete-TurnsSound now (a.heap at) a s)

  pub prune-TurnsSound : (now : ℕ) (a : Adapter) → TurnsOf c a → TurnsOf c (prune now a)
  unfolding prune prune_retained
  prune-TurnsSound now a s =
      let b : Adapter =
        prune_retained "" (record a { runtime_sessions = prune_sessions now a.runtime_sessions }) in
      delete_expired-TurnsSound now b.turns b
        (prune_retained_turns-TurnsSound (length a.turns) a.heap a.next_turn "" a.turns s)

  -- The turn at a pointer changes: it stays sound, of its session, and inactive if it was.
  pub put-TurnsSound :
      (heap : ℕ → TurnState) (made at : ℕ) (turns : Map String ℕ) (u : TurnState)
      → TurnsSound c heap made turns
      → TurnSound c u u
      → u.request.runtime_session_id ≡ (heap at).request.runtime_session_id
      → (is_active (heap at) ≡ false → is_active u ≡ false)
      → TurnsSound c (λ other. if other == at then u else heap other) made turns
  put-TurnsSound heap made at turns u s su same idle = record {
    each =
        λ x. if_elim (λ (t : TurnState). TurnSound c t t) (x == at) _ _ (λ _. su) (λ _. s.each x);
    made = s.made;
    exclusive = λ i j x y hi hj ax ay e.
        let (ax', ex) = looked heap at u same idle x ax in
        let (ay', ey) = looked heap at u same idle y ay in
        s.exclusive i j x y hi hj ax' ay' (sym ex ∙ e ∙ ey);
  }

  pub commit_turn-TurnsSound :
      (now at : ℕ) (u : TurnState) (a : Adapter)
      → TurnsOf c a
      → TurnSound c u u
      → u.request.runtime_session_id ≡ (a.heap at).request.runtime_session_id
      → (is_active (a.heap at) ≡ false → is_active u ≡ false)
      → TurnsOf c (commit_turn now at u a)
  unfolding commit_turn bury prune_retained put_turn
  commit_turn-TurnsSound now at u a s su same idle =
      let put = put-TurnsSound a.heap a.next_turn at a.turns u s su same idle in
      if_elim (TurnsOf c) (u.completed && not (a.heap at).completed) _ _
        (λ _.
          prune_retained_turns-TurnsSound (length a.turns)
            (λ other. if other == at then u else a.heap other) a.next_turn u.request.turn_id a.turns
            put)
        (λ _. put)
