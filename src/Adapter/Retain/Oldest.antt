-- ===== src/Adapter/Retain/Oldest.antt =====
-- The oldest entry of a map of internal/adapter/adapter.go, and what the deletion of it leaves.
use agent_runtime_foundry.Base.Map.{Map, get, delete}
use agent_runtime_foundry.Adapter.Retain.{oldest, trim}
use agent_runtime_foundry.Base.{
  ℕ, zero, suc, ◌≤◌, ◌<◌, String, ◌≡◌, ◌⊎◌, inl, inr, refl, Bool, true, ◌&&◌, ◌||◌, Bool-cases,
  if_elim, if◌then◌else◌, is_some, [], ◌∷◌, length, ltb, ◌==◌, nat_eq, string_eq, arith,
  text_eq_iff,
}

module _ {V : Type 0} where
  pub length-delete-le : (k : String) (m : Map String V) → length (delete k m) ≤ length m
  unfolding delete
  length-delete-le k [] = omega arith
  length-delete-le k ((j, v) ∷ m) = ground (arith, length-delete-le k m)

  pub length-delete-lt :
      (k : String) (m : Map String V) → is_some (get k m) ≡ true → length (delete k m) < length m
  unfolding delete get
  length-delete-lt k [] h = absurd (cc)
  length-delete-lt k ((j, v) ∷ m) h = ground (arith, length-delete-le k m, length-delete-lt k m)

  -- The oldest entry is one of the map, unless none was found.
  pub oldest-found :
      (candidate : String → V → Bool) (time : V → ℕ) (m : Map String V) (id : String) (when : ℕ)
      → (oldest candidate time m id when ≡ id)
        ⊎ (is_some (get (oldest candidate time m id when) m) ≡ true)
  unfolding oldest get
  oldest-found candidate time [] id when = inl refl
  oldest-found candidate time ((k, v) ∷ m) id when =
      let better = candidate k v && (id == "" || ltb (time v) when) in
      let next = if better then k else id in
      let next_time = if better then time v else when in
      elim (oldest-found candidate time m next next_time) [
        | inr h ↦ inr (ground (arith, h))
        | inl e ↦ elim (Bool-cases better) [
          | inl b ↦
              inr (ground (arith, e, b, text_eq_iff k (oldest candidate time m next next_time)))
          | inr b ↦ inl (ground (arith, e, b))
        ]
      ]

  found_first :
      (time : V → ℕ) (k : String) (v : V) (m : Map String V)
      → is_some (get (oldest (λ k v. true) time ((k, v) ∷ m) "" 0) ((k, v) ∷ m)) ≡ true
  unfolding oldest get
  found_first time k v m = elim (oldest-found (λ k v. true) time m k (time v)) [
    | inl e ↦ ground (arith, e, text_eq_iff k (oldest (λ k v. true) time m k (time v)))
    | inr h ↦ ground (arith, h)
  ]

  found_any :
      (time : V → ℕ) (m : Map String V)
      → 0 < length m
      → is_some (get (oldest (λ k v. true) time m "" 0) m) ≡ true
  found_any time [] h = absurd (omega arith)
  found_any time ((k, v) ∷ m) h = found_first time k v m

  -- With a round of fuel for each entry the loop ends by its test.
  pub trim_bounded :
      (fuel limit : ℕ) (time : V → ℕ) (m : Map String V)
      → length m ≤ fuel
      → length (trim fuel limit time m) ≤ limit
  unfolding trim
  trim_bounded zero limit time m h = omega arith
  trim_bounded (suc fuel) limit time m h =
      let first = oldest (λ k v. true) time m "" 0 in
      if_elim (λ (l : Map String V). length l ≤ limit) (ltb limit (length m)) _ _
        (λ over.
          let shorter = length-delete-lt first m (found_any time m (ground (arith, over))) in
          trim_bounded fuel limit time (delete first m) (omega (arith, shorter)))
        (λ fits. ground (arith, fits))
