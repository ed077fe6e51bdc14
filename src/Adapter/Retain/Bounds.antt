-- ===== src/Adapter/Retain/Bounds.antt =====
-- How much the adapter keeps: the loops of pruneLocked end, within the limits.
use agent_runtime_foundry.Base.Map.{Map, get, delete, get-delete}
use agent_runtime_foundry.Adapter.Types.{
  RuntimeSessionState, TurnTombstone, TurnState, max_runtime_sessions, max_turn_tombstones,
  max_retained_turns, max_retained_turn_state_bytes,
}
use agent_runtime_foundry.Adapter.Retain.{
  Adapter, oldest, prune_sessions, prune_tombstones, is_retained, retained_count, retained_total,
  within_limits, oldest_retained, prune_retained_turns, prune_retained, maybe_delete_expired,
  delete_expired, prune,
}
use agent_runtime_foundry.Adapter.Retain.Oldest.{length-delete-lt, oldest-found, trim_bounded}
use agent_runtime_foundry.Base.{
  ℕ, zero, suc, ◌*◌, ◌^◌, ◌≤◌, String, ◌≡◌, inl, inr, refl, Bool, true, false, not, ◌&&◌, ◌||◌,
  Bool-cases, if_elim, if◌then◌else◌, is_some, [], ◌∷◌, length, ltb, ◌==◌, nat_eq, string_eq, arith,
  text_eq_iff,
}

-- Once an id was found, the search does not lose it.
oldest-kept :
    (candidate : String → ℕ → Bool) (time : ℕ → ℕ) (m : Map String ℕ) (id : String) (when : ℕ)
    → is_some (get "" m) ≡ false
    → oldest candidate time m id when ≡ ""
    → id ≡ ""
unfolding oldest get
oldest-kept candidate time [] id when h e = e
oldest-kept candidate time ((k, at) ∷ m) id when h e =
    let better = candidate k at && (id == "" || ltb (time at) when) in
    let before =
      oldest-kept candidate time m (if better then k else id) (if better then time at else when)
        (ground arith) e in
    ground (arith, before, text_eq_iff k "", text_eq_iff id "")

-- Where no turn is found that may go, none is retained.
none_retained :
    (heap : ℕ → TurnState) (turns : Map String ℕ) (when : ℕ)
    → is_some (get "" turns) ≡ false
    → oldest
        (λ id at. is_retained (heap at) && not (id == ""))
        (λ at. (heap at).cleanup_at)
        turns
        ""
        when
      ≡ ""
    → (retained_count heap turns ≡ 0) × (retained_total heap turns ≡ 0)
unfolding retained_count retained_total oldest get
none_retained heap [] when h e = (refl, refl)
none_retained heap ((k, at) ∷ turns) when h e = elim (Bool-cases (is_retained (heap at))) [
  | inl r ↦
      let kept =
        oldest-kept (λ id at. is_retained (heap at) && not (id == "")) (λ at. (heap at).cleanup_at)
          turns k (heap at).cleanup_at (ground arith) (ground (arith, r, e)) in
      absurd (ground (arith, kept, text_eq_iff k ""))
  | inr r ↦
      let rest = none_retained heap turns when (ground arith) (ground (arith, r, e)) in
      (ground (arith, r, rest.0), ground (arith, r, rest.1))
]

abbrev Within : (ℕ → TurnState) → Map String ℕ → Type 0
Within heap turns =
    (retained_count heap turns ≤ max_retained_turns)
    × (retained_total heap turns ≤ max_retained_turn_state_bytes)

stopped :
    (heap : ℕ → TurnState) (turns : Map String ℕ)
    → is_some (get "" turns) ≡ false
    → (within_limits heap turns || oldest_retained heap "" turns == "") ≡ true
    → Within heap turns
stopped heap turns named stop = elim (Bool-cases (within_limits heap turns)) [
  | inl w ↦ ground (arith, w)
  | inr w ↦
      let empty =
        none_retained heap turns 0 named
          ((text_eq_iff (oldest_retained heap "" turns) "").0 (ground (arith, stop, w))) in
      omega (arith, empty.0, empty.1)
]

first_there :
    (heap : ℕ → TurnState) (turns : Map String ℕ)
    → (oldest_retained heap "" turns == "") ≡ false
    → is_some (get (oldest_retained heap "" turns) turns) ≡ true
first_there heap turns h =
    elim (oldest-found (λ id at. is_retained (heap at) && not (id == ""))
      (λ at. (heap at).cleanup_at) turns "" 0) [
        | inr there ↦ there
        | inl e ↦ absurd (ground (arith, h, text_eq_iff (oldest_retained heap "" turns) ""))
      ]

-- With a round of fuel for each turn the loop ends by its test.
prune_retained_turns-Within :
    (fuel : ℕ) (heap : ℕ → TurnState) (turns : Map String ℕ)
    → is_some (get "" turns) ≡ false
    → length turns ≤ fuel
    → Within heap (prune_retained_turns fuel heap "" turns)
unfolding prune_retained_turns
prune_retained_turns-Within zero heap [] named h =
    unfold retained_count retained_total in omega arith
prune_retained_turns-Within zero heap ((k, at) ∷ turns) named h = absurd (omega arith)
prune_retained_turns-Within (suc fuel) heap turns named h =
    let first = oldest_retained heap "" turns in
    if_elim (Within heap) (within_limits heap turns || first == "") _ _
      (λ stop. stopped heap turns named stop)
      (λ go.
        let there = first_there heap turns (ground (arith, go)) in
        let shorter = length-delete-lt first turns there in
        prune_retained_turns-Within fuel heap (delete first turns)
          (ground (arith, get-delete first "" turns)) (omega (arith, shorter)))

count-delete :
    (heap : ℕ → TurnState) (k : String) (turns : Map String ℕ)
    → (retained_count heap (delete k turns) ≤ retained_count heap turns)
      × (retained_total heap (delete k turns) ≤ retained_total heap turns)
unfolding retained_count retained_total delete
count-delete heap k [] = omega arith
count-delete heap k ((j, at) ∷ turns) =
    let rest = count-delete heap k turns in (ground (arith, rest.0), ground (arith, rest.1))

abbrev Kept : Adapter → Type 0
Kept a = (length a.runtime_sessions ≤ max_runtime_sessions) × Within a.heap a.turns

maybe_delete_expired-Kept :
    (now : ℕ) (t : TurnState) (a : Adapter) → Kept a → Kept (maybe_delete_expired now t a)
unfolding maybe_delete_expired
maybe_delete_expired-Kept now t a s =
    if_elim Kept (not (is_retained t) || ltb now t.cleanup_at) _ _ (λ _. s)
      (λ _.
        let less = count-delete a.heap t.request.turn_id a.turns in
        (s.0, (omega (arith, less.0, s.1), omega (arith, less.1, s.1))))

delete_expired-Kept :
    (now : ℕ) (turns : Map String ℕ) (a : Adapter) → Kept a → Kept (delete_expired now turns a)
unfolding delete_expired
delete_expired-Kept now [] a s = s
delete_expired-Kept now ((id, at) ∷ turns) a s =
    delete_expired-Kept now turns (maybe_delete_expired now (a.heap at) a)
      (maybe_delete_expired-Kept now (a.heap at) a s)

prune_sessions_bounded :
    (now : ℕ) (sessions : Map String RuntimeSessionState)
    → length (prune_sessions now sessions) ≤ max_runtime_sessions
unfolding prune_sessions
prune_sessions_bounded now sessions =
    trim_bounded _ max_runtime_sessions (λ s. s.last_seen) _ (omega arith)

prune_tombstones_bounded :
    (now : ℕ) (tombstones : Map String TurnTombstone)
    → length (prune_tombstones now tombstones) ≤ max_turn_tombstones
unfolding prune_tombstones
prune_tombstones_bounded now tombstones =
    trim_bounded _ max_turn_tombstones (λ t. t.expires_at) _ (omega arith)

-- If no turn has the empty id, then after pruneLocked the adapter keeps at most 10,000 runtime
-- sessions, 10,000 tombstones and 256 turns that are over and unused, with at most 64 MiB of state: its
-- loops have fuel for each entry and end by their tests.
pub prune_bounded :
    (now : ℕ) (a : Adapter)
    → is_some (get "" a.turns) ≡ false
    → (length (prune now a).runtime_sessions ≤ 10000)
      × (length (prune now a).turn_tombstones ≤ 10000)
      × (retained_count (prune now a).heap (prune now a).turns ≤ 256)
      × (retained_total (prune now a).heap (prune now a).turns ≤ 64 * 2 ^ 20)
unfolding prune prune_retained
prune_bounded now a named =
    let b : Adapter =
      prune_retained "" (record a { runtime_sessions = prune_sessions now a.runtime_sessions }) in
    let d : Adapter = delete_expired now b.turns b in
    let kept : Kept d = delete_expired-Kept now b.turns b (
      prune_sessions_bounded now a.runtime_sessions,
      prune_retained_turns-Within (length a.turns) a.heap a.turns named (omega arith),
    ) in
    (kept.0, prune_tombstones_bounded now d.turn_tombstones, kept.1.0, kept.1.1)
