-- ===== src/Adapter/System/Added.antt =====
-- A start of a turn registers it only when no active turn has its runtime session.
use agent_runtime_foundry.Base.Map.{Map, get, insert, delete, get-insert}
use agent_runtime_foundry.Harness.Types.{StartTurnRequest}
use agent_runtime_foundry.Adapter.Types.{
  AdapterConfig, AdapterPlatform, RuntimeSessionState, TurnTombstone, TurnState,
}
use agent_runtime_foundry.Adapter.Requests.{new_turn, compact_request, start_fingerprint}
use agent_runtime_foundry.Adapter.Retain.{Adapter, prune}
use agent_runtime_foundry.Adapter.Start.{
  Started, is_active, active_count, session_busy, register, owner_differs, start_owned, start_new,
  start_existing, start_pruned, start_buried,
}
use agent_runtime_foundry.Adapter.Sound.{TurnSound}
use agent_runtime_foundry.Adapter.Sound.Frames.{clash}
use agent_runtime_foundry.Adapter.Lifecycle.Invariant.{new_turn-Sound}
use agent_runtime_foundry.Base.{
  ℕ, suc, ◌<◌, String, ◌≡◌, ◌∙◌, refl, sym, ap, subst, inl, inr, Bool, true, false, ◌&&◌, ◌||◌,
  Bool-cases, if_elim, if◌then◌else◌, Option, none, some, [], ◌∷◌, ltb, leb, ◌==◌, nat_eq,
  string_eq, arith, text_eq_iff,
}
use agent_runtime_foundry.Adapter.System.Turns.{TurnsSound, TurnsOf, prune-TurnsSound}

first_free :
    (session_id : String) (turns : Map String ℕ) (heap : ℕ → TurnState) (x : ℕ)
    → (is_active (heap x) && (heap x).request.runtime_session_id == session_id
        || session_busy heap session_id turns)
      ≡ false
    → is_active (heap x) ≡ true
    → ((heap x).request.runtime_session_id == session_id) ≡ false
first_free session_id turns heap x free active = ground (arith, free, active)

session_of_new :
    (p : AdapterPlatform) (r : StartTurnRequest) (bytes : ℕ) (cached : Option RuntimeSessionState)
    → (new_turn p r bytes cached).request.runtime_session_id ≡ r.runtime_session_id
unfolding new_turn compact_request
session_of_new p r bytes cached = refl

same_value : {x y : ℕ} → some x ≡ some y → x ≡ y
same_value h = cc

-- What an insertion leaves to be found.
at_key :
    (id i : String) (fresh : ℕ) (turns : Map String ℕ) (x : ℕ)
    → (id == i) ≡ true
    → get i (insert id fresh turns) ≡ some x
    → fresh ≡ x
at_key id i fresh turns x e h = same_value (
    subst (λ (b : Bool). (if b then some fresh else get i turns) ≡ some x) e
      (sym (get-insert id i fresh turns) ∙ h))

off_key :
    (id i : String) (fresh : ℕ) (turns : Map String ℕ) (x : ℕ)
    → (id == i) ≡ false
    → get i (insert id fresh turns) ≡ some x
    → get i turns ≡ some x
off_key id i fresh turns x e h =
    subst (λ (b : Bool). (if b then some fresh else get i turns) ≡ some x) e
      (sym (get-insert id i fresh turns) ∙ h)

registered :
    (id : String) (fresh : ℕ) (turns : Map String ℕ) (i : String) (x : ℕ)
    → ((i : String) (x : ℕ) → get i turns ≡ some x → x < fresh)
    → get i (insert id fresh turns) ≡ some x
    → x < suc fresh
registered id fresh turns i x made h = elim (Bool-cases (id == i)) [
  | inl e ↦ let here : fresh ≡ x = at_key id i fresh turns x e h in omega (arith, here)
  | inr e ↦ let before = made i x (off_key id i fresh turns x e h) in omega (arith, before)
]

module _ (c : AdapterConfig) where
  -- A session that is not busy has no active turn.
  session_busy-get :
      (heap : ℕ → TurnState) (session_id : String) (turns : Map String ℕ) (i : String) (x : ℕ)
      → session_busy heap session_id turns ≡ false
      → get i turns ≡ some x
      → is_active (heap x) ≡ true
      → ((heap x).request.runtime_session_id == session_id) ≡ false
  unfolding session_busy get
  session_busy-get heap session_id [] i x free h active = absurd (cc)
  session_busy-get heap session_id ((j, y) ∷ turns) i x free h active = elim (Bool-cases (j == i)) [
    | inl e ↦
        let same : y ≡ x =
          same_value (subst (λ (b : Bool). (if b then some y else get i turns) ≡ some x) e h) in
        first_free session_id turns heap x
          (subst
            (λ (z : ℕ).
              (is_active (heap z) && (heap z).request.runtime_session_id == session_id
                || session_busy heap session_id turns)
              ≡ false)
            same free)
          active
    | inr e ↦ session_busy-get heap session_id turns i x (ground (arith, free)) (rw e at h) active
  ]

-- A new pointer is no old one, so the turn there is the one given.
at_fresh :
    (heap : ℕ → TurnState) (fresh : ℕ) (u : TurnState)
    → (if fresh == fresh then u else heap fresh) ≡ u
at_fresh heap fresh u =
    let e : (fresh == fresh) ≡ true = (nat_eq.same_iff fresh fresh).1 refl in rw e refl

off_fresh :
    (heap : ℕ → TurnState) (fresh : ℕ) (u : TurnState) (x : ℕ)
    → x < fresh
    → (if x == fresh then u else heap x) ≡ heap x
off_fresh heap fresh u x h =
    if_elim (λ (t : TurnState). t ≡ heap x) (x == fresh) _ _
      (λ e. let same : x ≡ fresh = (nat_eq.same_iff x fresh).0 e in absurd (omega (arith, same, h)))
      (λ _. refl)

module _ (c : AdapterConfig) (heap : ℕ → TurnState) (fresh : ℕ) (id : String) where
  module _ (turns : Map String ℕ) (u : TurnState) (s : TurnsSound c heap fresh turns)
      (free : (i : String) (x : ℕ)
        → get i turns ≡ some x
        → is_active (heap x) ≡ true
        → (heap x).request.runtime_session_id ≡ u.request.runtime_session_id
        → ⊥) where
    abbrev heap' : ℕ → TurnState
    heap' other = if other == fresh then u else heap other

    -- An old turn that is active has another session than the new one.
    apart :
        (j : String) (x y : ℕ)
        → fresh ≡ x
        → get j turns ≡ some y
        → is_active (heap' y) ≡ true
        → (heap' x).request.runtime_session_id ≡ (heap' y).request.runtime_session_id
        → ⊥
    apart j x y here hj ay e =
        let old : heap' y ≡ heap y = off_fresh heap fresh u y (s.made j y hj) in
        let new : heap' x ≡ u = subst (λ (z : ℕ). heap' z ≡ u) here (at_fresh heap fresh u) in
        free j y hj (sym (ap is_active old) ∙ ay) (
          sym (ap (λ (t : TurnState). t.request.runtime_session_id) old)
          ∙ sym e
          ∙ ap (λ (t : TurnState). t.request.runtime_session_id) new)

    added_exclusive :
        (i j : String) (x y : ℕ)
        → get i (insert id fresh turns) ≡ some x
        → get j (insert id fresh turns) ≡ some y
        → is_active (heap' x) ≡ true
        → is_active (heap' y) ≡ true
        → (heap' x).request.runtime_session_id ≡ (heap' y).request.runtime_session_id
        → i ≡ j
    added_exclusive i j x y hi hj ax ay e = elim (Bool-cases (id == i)) [
      | inl ei ↦ elim (Bool-cases (id == j)) [
        | inl ej ↦ sym ((text_eq_iff id i).0 ei) ∙ (text_eq_iff id j).0 ej
        | inr ej ↦
            absurd (
              apart j x y (at_key id i fresh turns x ei hi) (off_key id j fresh turns y ej hj) ay e)
      ]
      | inr ei ↦ elim (Bool-cases (id == j)) [
        | inl ej ↦ absurd (
            apart i y x (at_key id j fresh turns y ej hj) (off_key id i fresh turns x ei hi) ax
              (sym e))
        | inr ej ↦
            let hx = off_key id i fresh turns x ei hi in
            let hy = off_key id j fresh turns y ej hj in
            let ox : heap' x ≡ heap x = off_fresh heap fresh u x (s.made i x hx) in
            let oy : heap' y ≡ heap y = off_fresh heap fresh u y (s.made j y hy) in
            s.exclusive i j x y hx hy (sym (ap is_active ox) ∙ ax) (sym (ap is_active oy) ∙ ay) (
              sym (ap (λ (t : TurnState). t.request.runtime_session_id) ox)
              ∙ e
              ∙ ap (λ (t : TurnState). t.request.runtime_session_id) oy)
      ]
    ]

module _ (p : AdapterPlatform) (c : AdapterConfig) (now : ℕ) where
  abbrev StartSound : Started × Adapter → Type 0
  StartSound result = TurnsOf c result.1

  register-TurnsSound :
      (r : StartTurnRequest) (bytes : ℕ) (a : Adapter)
      → TurnsOf c a
      → session_busy a.heap r.runtime_session_id a.turns ≡ false
      → StartSound (register p c now r bytes a)
  unfolding register
  register-TurnsSound r bytes a s free =
      let cached = get r.runtime_session_id a.runtime_sessions in
      let u : TurnState = new_turn p r bytes cached in
      record {
        each = λ x.
            if_elim (λ (t : TurnState). TurnSound c t t) (x == a.next_turn) _ _
              (λ _. new_turn-Sound p c r bytes cached) (λ _. s.each x);
        made = λ i x h. registered r.turn_id a.next_turn a.turns i x s.made h;
        exclusive = added_exclusive c a.heap a.next_turn r.turn_id a.turns u s (λ i x h active e.
            clash ((a.heap x).request.runtime_session_id == r.runtime_session_id)
              ((text_eq_iff (a.heap x).request.runtime_session_id r.runtime_session_id).1
                (e ∙ session_of_new p r bytes cached))
              (session_busy-get c a.heap r.runtime_session_id a.turns i x free h active));
      }

  start_owned-TurnsSound :
      (r : StartTurnRequest) (bytes : Option ℕ) (a : Adapter)
      → TurnsOf c a
      → session_busy a.heap r.runtime_session_id a.turns ≡ false
      → StartSound (start_owned p c now r bytes a)
  unfolding start_owned
  start_owned-TurnsSound r none a s free = s
  start_owned-TurnsSound r (some bytes) a s free =
      if_elim StartSound (owner_differs p c now r (get r.runtime_session_id a.runtime_sessions)) _ _
        (λ _. s) (λ _. register-TurnsSound r bytes a s free)

  start_new-TurnsSound :
      (r : StartTurnRequest) (a : Adapter) → TurnsOf c a → StartSound (start_new p c now r a)
  unfolding start_new
  start_new-TurnsSound r a s =
      if_elim StartSound (session_busy a.heap r.runtime_session_id a.turns) _ _ (λ _. s)
        (λ free.
          if_elim StartSound
            (ltb 0 c.max_concurrent && leb c.max_concurrent (active_count a.heap a.turns)) _ _
            (λ _. s) (λ _. start_owned-TurnsSound r (p.request_size (compact_request r)) a s free))

  start_existing-TurnsSound :
      (r : StartTurnRequest) (found : Option ℕ) (a : Adapter)
      → TurnsOf c a
      → StartSound (start_existing p c now r found a)
  unfolding start_existing
  start_existing-TurnsSound r none a s = start_new-TurnsSound r a s
  start_existing-TurnsSound r (some at) a s =
      if_elim StartSound ((a.heap at).request_fingerprint == start_fingerprint p r) _ _ (λ _. s)
        (λ _. s)

  pub start_buried-TurnsSound :
      (r : StartTurnRequest) (grave : Option TurnTombstone) (a : Adapter)
      → TurnsOf c a
      → StartSound (start_buried p c now r grave a)
  unfolding start_buried start_pruned
  start_buried-TurnsSound r none a s =
      let b = prune now a in
      start_existing-TurnsSound r (get r.turn_id b.turns) b (prune-TurnsSound c now a s)
  start_buried-TurnsSound r (some grave) a s =
      let cleared : Adapter = record a { turn_tombstones = delete r.turn_id a.turn_tombstones } in
      let b = prune now cleared in
      if_elim StartSound (ltb now grave.expires_at) _ _
        (λ _. if_elim StartSound (grave.fingerprint == start_fingerprint p r) _ _ (λ _. s) (λ _. s))
        (λ _. start_existing-TurnsSound r (get r.turn_id b.turns) b (
          prune-TurnsSound c now cleared
            (record { each = s.each; made = s.made; exclusive = s.exclusive })))
