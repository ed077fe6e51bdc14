-- ===== src/Adapter/System/Buried.antt =====
-- A turn that is over cannot be started again while its tombstone stands, whatever the adapter does.
use agent_runtime_foundry.Base.Map.{
  Map, get, insert, delete, get-insert, get-insert_self, get-delete,
}
use agent_runtime_foundry.Harness.Types.{StartTurnRequest}
use agent_runtime_foundry.Adapter.Types.{
  AdapterConfig, AdapterPlatform, TurnTombstone, TurnState, default_tombstone_retention,
  max_turn_tombstones,
}
use agent_runtime_foundry.Adapter.Requests.{compact_request, start_fingerprint}
use agent_runtime_foundry.Adapter.Run.{SessionChange, leave, forget, remember}
use agent_runtime_foundry.Adapter.Retain.{
  Adapter, put_turn, keep_entries, trim, prune_tombstones, prune_sessions, prune_retained, prune,
  is_retained, maybe_delete_expired, delete_expired, bury, commit_turn, record_session,
}
use agent_runtime_foundry.Adapter.Start.{
  Started, failed, turn_completed, turn_id_consumed, session_busy, active_count, owner_differs,
  register, start_owned, start_new, start_existing, start_pruned, start_buried, start_locked,
  change_session,
}
use agent_runtime_foundry.Adapter.System.{AdapterStep, begin, change, session, clean, look, drop}
use agent_runtime_foundry.Base.{
  ℕ, zero, suc, ◌+◌, ◌<◌, ◌≤◌, String, ◌≡◌, ◌∙◌, refl, sym, ap, subst, ◌⊎◌, inl, inr, Bool, true,
  false, not, ◌&&◌, ◌||◌, Bool-cases, if_elim, Option, none, some, some-injective, [], ◌∷◌, length,
  ltb, leb, ◌==◌, nat_eq, string_eq, arith, text_eq_iff,
}

-- A tombstone of a turn id that stands at least until an instant.
abbrev pub Entombed : String → ℕ → Map String TurnTombstone → Type 0
Entombed id until graves =
    (grave : TurnTombstone) × (get id graves ≡ some grave) × (until ≤ grave.expires_at)

keep_entries-get :
    (test : TurnTombstone → Bool) (id : String) (grave : TurnTombstone)
    (m : Map String TurnTombstone)
    → test grave ≡ true
    → get id m ≡ some grave
    → get id (keep_entries test m) ≡ some grave
unfolding keep_entries get
keep_entries-get test id grave [] kept there = there
keep_entries-get test id grave ((k, v) ∷ m) kept there =
    ground (arith, kept, there, keep_entries-get test id grave m kept)

length-keep_entries :
    (test : TurnTombstone → Bool) (m : Map String TurnTombstone)
    → length (keep_entries test m) ≤ length m
unfolding keep_entries
length-keep_entries test [] = omega arith
length-keep_entries test ((k, v) ∷ m) = ground (arith, length-keep_entries test m)

trim_small :
    (fuel limit : ℕ) (time : TurnTombstone → ℕ) (m : Map String TurnTombstone)
    → length m ≤ limit
    → trim fuel limit time m ≡ m
unfolding trim
trim_small zero limit time m h = refl
trim_small (suc fuel) limit time m h = ground (arith, h)

prune_tombstones-Entombed :
    (now until : ℕ) (id : String) (graves : Map String TurnTombstone)
    → now < until
    → length graves ≤ max_turn_tombstones
    → Entombed id until graves
    → Entombed id until (prune_tombstones now graves)
unfolding prune_tombstones
prune_tombstones-Entombed now until id graves early few (grave, there, late) =
    let test : TurnTombstone → Bool = λ t. ltb now t.expires_at in
    let fresh = keep_entries test graves in
    let small = length-keep_entries test graves in
    (
      grave,
      subst (λ m. get id m ≡ some grave)
          (sym (
            trim_small (length fresh) max_turn_tombstones (λ t. t.expires_at) fresh
              (omega (arith, few, small))))
          (keep_entries-get test id grave graves (ground (arith, early, late)) there),
      late,
    )

maybe_delete-tombstones :
    (now : ℕ) (t : TurnState) (a : Adapter)
    → (maybe_delete_expired now t a).turn_tombstones ≡ a.turn_tombstones
unfolding maybe_delete_expired
maybe_delete-tombstones now t a =
    if_elim (λ (b : Adapter). b.turn_tombstones ≡ a.turn_tombstones)
      (not (is_retained t) || ltb now t.cleanup_at) _ _ (λ _. refl) (λ _. refl)

delete_expired-tombstones :
    (now : ℕ) (turns : Map String ℕ) (a : Adapter)
    → (delete_expired now turns a).turn_tombstones ≡ a.turn_tombstones
unfolding delete_expired
delete_expired-tombstones now [] a = refl
delete_expired-tombstones now ((id, at) ∷ turns) a =
    delete_expired-tombstones now turns (maybe_delete_expired now (a.heap at) a)
    ∙ maybe_delete-tombstones now (a.heap at) a

prune-tombstones :
    (now : ℕ) (a : Adapter) → (prune now a).turn_tombstones ≡ prune_tombstones now a.turn_tombstones
unfolding prune prune_retained
prune-tombstones now a =
    let b : Adapter =
      prune_retained "" (record a { runtime_sessions = prune_sessions now a.runtime_sessions }) in
    ap (prune_tombstones now) (delete_expired-tombstones now b.turns b)

module _ (id : String) (until : ℕ) where
  abbrev Grave : Adapter → Type 0
  Grave a = Entombed id until a.turn_tombstones

  prune-Grave :
      (now : ℕ) (a : Adapter)
      → now < until
      → length a.turn_tombstones ≤ max_turn_tombstones
      → Grave a
      → Grave (prune now a)
  prune-Grave now a early few g =
      subst (Entombed id until) (sym (prune-tombstones now a))
        (prune_tombstones-Entombed now until id a.turn_tombstones early few g)

  delete-Grave :
      (other : String) (graves : Map String TurnTombstone)
      → (other == id) ≡ false
      → Entombed id until graves
      → Entombed id until (delete other graves)
  delete-Grave other graves differ (grave, there, late) =
      (grave, ground (arith, get-delete other id graves, differ, there), late)

  insert-Grave :
      (other : String) (new : TurnTombstone) (graves : Map String TurnTombstone)
      → until ≤ new.expires_at
      → Entombed id until graves
      → Entombed id until (insert other new graves)
  insert-Grave other new graves late_too (grave, there, late) = elim (Bool-cases (other == id)) [
    | inl e ↦ (new, ground (arith, get-insert other id new graves, e), late_too)
    | inr e ↦ (grave, ground (arith, get-insert other id new graves, e, there), late)
  ]

same_grave : {g h : TurnTombstone} → some g ≡ some h → g ≡ h
same_grave e = some-injective _ _ e

length-delete :
    (k : String) (graves : Map String TurnTombstone) → length (delete k graves) ≤ length graves
unfolding delete
length-delete k [] = omega arith
length-delete k ((j, v) ∷ m) = ground (arith, length-delete k m)

length_cleared :
    (other : String) (graves : Map String TurnTombstone)
    → length graves ≤ max_turn_tombstones
    → length (delete other graves) ≤ max_turn_tombstones
length_cleared other graves few = let less = length-delete other graves in omega (arith, few, less)

-- A tombstone that has expired is not the one that stands.
other_grave :
    (id other : String) (until now : ℕ) (grave : TurnTombstone) (graves : Map String TurnTombstone)
    → get other graves ≡ some grave
    → ltb now grave.expires_at ≡ false
    → now < until
    → Entombed id until graves
    → (other == id) ≡ false
other_grave id other until now grave graves there expired early (own, here, late) =
    elim (Bool-cases (other == id)) [
      | inr differ ↦ differ
      | inl e ↦
          let is_id : other ≡ id = (text_eq_iff other id).0 e in
          let same : grave ≡ own = same_grave (sym there ∙ ap (λ k. get k graves) is_id ∙ here) in
          let equal : grave.expires_at ≡ own.expires_at = ap (λ g. g.expires_at) same in
          absurd (ground (arith, expired, early, late, equal))
    ]

-- A start leaves the tombstones alone once it is past them.
module _ (p : AdapterPlatform) (c : AdapterConfig) (now : ℕ) (r : StartTurnRequest)
    (a : Adapter) where
  abbrev SameGraves : Started × Adapter → Type 0
  SameGraves result = result.1.turn_tombstones ≡ a.turn_tombstones

  start_owned-tombstones : (bytes : Option ℕ) → SameGraves (start_owned p c now r bytes a)
  unfolding start_owned register
  start_owned-tombstones none = refl
  start_owned-tombstones (some bytes) =
      if_elim SameGraves (owner_differs p c now r (get r.runtime_session_id a.runtime_sessions)) _ _
        (λ _. refl) (λ _. refl)

  start_existing-tombstones : (found : Option ℕ) → SameGraves (start_existing p c now r found a)
  unfolding start_existing start_new
  start_existing-tombstones (some at) =
      if_elim SameGraves ((a.heap at).request_fingerprint == start_fingerprint p r) _ _ (λ _. refl)
        (λ _. refl)
  start_existing-tombstones none =
      if_elim SameGraves (session_busy a.heap r.runtime_session_id a.turns) _ _ (λ _. refl)
        (λ _.
          if_elim SameGraves
            (ltb 0 c.max_concurrent && leb c.max_concurrent (active_count a.heap a.turns)) _ _
            (λ _. refl) (λ _. start_owned-tombstones (p.request_size (compact_request r))))

module _ (p : AdapterPlatform) (c : AdapterConfig) (id : String) (until : ℕ) where
  start_pruned-Grave :
      (now : ℕ) (r : StartTurnRequest) (a : Adapter)
      → now < until
      → length a.turn_tombstones ≤ max_turn_tombstones
      → Grave id until a
      → Grave id until (start_pruned p c now r (prune now a)).1
  unfolding start_pruned
  start_pruned-Grave now r a early few g =
      let b = prune now a in
      subst (Entombed id until)
        (sym (start_existing-tombstones p c now r b (get r.turn_id b.turns)))
        (prune-Grave id until now a early few g)

  start_buried-Grave :
      (now : ℕ) (r : StartTurnRequest) (a : Adapter) (found : Option TurnTombstone)
      → get r.turn_id a.turn_tombstones ≡ found
      → now < until
      → length a.turn_tombstones ≤ max_turn_tombstones
      → Grave id until a
      → Grave id until (start_buried p c now r found a).1
  unfolding start_buried
  start_buried-Grave now r a none there early few g = start_pruned-Grave now r a early few g
  start_buried-Grave now r a (some grave) there early few g =
      let graves = a.turn_tombstones in
      let cleared : Adapter = record a { turn_tombstones = delete r.turn_id graves } in
      if_elim (λ (x : Started × Adapter). Grave id until x.1) (ltb now grave.expires_at) _ _
        (λ _.
          if_elim (λ (x : Started × Adapter). Grave id until x.1)
            (grave.fingerprint == start_fingerprint p r) _ _ (λ _. g) (λ _. g))
        (λ expired. start_pruned-Grave now r cleared early (length_cleared r.turn_id graves few) (
          delete-Grave id until r.turn_id graves
            (other_grave id r.turn_id until now grave graves there expired early g) g))

  commit_turn-Grave :
      (now at : ℕ) (t : TurnState) (a : Adapter)
      → until ≤ now + default_tombstone_retention
      → Grave id until a
      → Grave id until (commit_turn now at t a)
  unfolding commit_turn bury prune_retained put_turn
  commit_turn-Grave now at t a late g =
      if_elim (Grave id until) (t.completed && not (a.heap at).completed) _ _
        (λ _. insert-Grave id until t.request.turn_id _ a.turn_tombstones late g) (λ _. g)

  change_session-Grave :
      (now : ℕ) (how : SessionChange) (t : TurnState) (a : Adapter)
      → Grave id until a
      → Grave id until (change_session p c now how t a)
  unfolding change_session record_session
  change_session-Grave now leave t a g = g
  change_session-Grave now forget t a g = g
  change_session-Grave now remember t a g =
      if_elim (Grave id until) (t.agent_session_id == "" && t.previous_response == "") _ _ (λ _. g)
        (λ _. g)

-- The clock of a step is not before an instant, and is before another.
abbrev pub Between :
    {p : AdapterPlatform} {c : AdapterConfig}
    → ℕ
    → ℕ
    → {a b : Adapter} → AdapterStep p c a b
    → Type 0
Between first until (begin now r a) = (first ≤ now) × (now < until)
Between first until (change now at u a step) = (first ≤ now) × (now < until)
Between first until (session now how t a) = (first ≤ now) × (now < until)
Between first until (clean now t a) = (first ≤ now) × (now < until)
Between first until (look now a) = (first ≤ now) × (now < until)
Between first until (drop id a) = Unit

-- Steps of an adapter between two instants, in any order, with at most 10,000 tombstones before each.
pub data Meanwhile (p : AdapterPlatform) (c : AdapterConfig) (first until : ℕ)
    : Adapter → Adapter → Type 0 where
  still : {a : Adapter} → Meanwhile p c first until a a
  on :
      {a b d : Adapter}
      → Meanwhile p c first until a b
      → (s : AdapterStep p c b d) → Between first until s
      → length b.turn_tombstones ≤ 10000
      → Meanwhile p c first until a d

module _ (p : AdapterPlatform) (c : AdapterConfig) (id : String) (first : ℕ) where
  abbrev end : ℕ
  end = first + default_tombstone_retention

  AdapterStep-Grave :
      {a b : Adapter}
      → (s : AdapterStep p c a b) → Between first end s
      → length a.turn_tombstones ≤ max_turn_tombstones
      → Grave id end a
      → Grave id end b
  unfolding start_locked
  AdapterStep-Grave (begin now r a) (_, early) few g =
      start_buried-Grave p c id end now r a (get r.turn_id a.turn_tombstones) refl early few g
  AdapterStep-Grave (change now at u a step) (from, _) few g =
      commit_turn-Grave p c id end now at u a (omega (arith, from)) g
  AdapterStep-Grave (session now how t a) _ few g = change_session-Grave p c id end now how t a g
  AdapterStep-Grave (clean now t a) _ few g =
      subst (Entombed id end) (sym (maybe_delete-tombstones now t a)) g
  AdapterStep-Grave (look now a) (_, early) few g = prune-Grave id end now a early few g
  AdapterStep-Grave (drop other a) _ few g = g

  Meanwhile-Grave : {a b : Adapter} → Meanwhile p c first end a b → Grave id end a → Grave id end b
  Meanwhile-Grave still g = g
  Meanwhile-Grave (on before s clock few) g =
      AdapterStep-Grave s clock few (Meanwhile-Grave before g)

committed-Grave :
    (now at : ℕ) (t : TurnState) (a : Adapter)
    → t.completed ≡ true
    → (a.heap at).completed ≡ false
    → Grave t.request.turn_id (now + default_tombstone_retention) (commit_turn now at t a)
unfolding commit_turn bury prune_retained put_turn
committed-Grave now at t a h k =
    if_elim (Grave t.request.turn_id (now + default_tombstone_retention))
      (t.completed && not (a.heap at).completed) _ _
      (λ _. (_, get-insert_self t.request.turn_id _ a.turn_tombstones, omega arith))
      (λ no. absurd (ground (arith, no, h, k)))

start_locked-refused :
    (p : AdapterPlatform) (c : AdapterConfig) (later until : ℕ) (r : StartTurnRequest) (a : Adapter)
    → later < until
    → Grave r.turn_id until a
    → (start_locked p c later r a ≡ (failed turn_completed, a))
      ⊎ (start_locked p c later r a ≡ (failed turn_id_consumed, a))
unfolding start_locked start_buried
start_locked-refused p c later until r a early (grave, there, late) =
    rw there (ground (arith, early, late))

-- When a section has ended a turn, then for 24 hours every start request with the turn's id is refused
-- and changes nothing, as a completed turn's or for a consumed id, whatever sections of any turns came
-- since, in any order: if the clock of each is not before the end of the turn and within the 24 hours,
-- and there were at most 10,000 tombstones before each, so that none is dropped for another.
pub commit_turn-start_locked :
    (p : AdapterPlatform) (c : AdapterConfig) (now at : ℕ) (t : TurnState) (a b : Adapter)
    (later : ℕ) (r : StartTurnRequest)
    → t.completed ≡ true
    → (a.heap at).completed ≡ false
    → Meanwhile p c now (now + default_tombstone_retention) (commit_turn now at t a) b
    → r.turn_id ≡ t.request.turn_id
    → later < now + default_tombstone_retention
    → (start_locked p c later r b ≡ (failed turn_completed, b))
      ⊎ (start_locked p c later r b ≡ (failed turn_id_consumed, b))
commit_turn-start_locked p c now at t a b later r h k since same soon =
    let until = now + default_tombstone_retention in
    let g = Meanwhile-Grave p c t.request.turn_id now since (committed-Grave now at t a h k) in
    start_locked-refused p c later until r b soon (subst (λ id. Grave id until b) (sym same) g)
