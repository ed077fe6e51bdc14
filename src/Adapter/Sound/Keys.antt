-- ===== src/Adapter/Sound/Keys.antt =====
-- The keys of a Go map: each once, whatever is written.
use agent_runtime_foundry.Base.Map.{Map, get, insert, delete, get-insert, get-delete, keys}
use agent_runtime_foundry.Adapter.Sound.Tables.{has, Distinct}
use agent_runtime_foundry.Base.{
  String, ◌≡◌, ◌∙◌, ap, sym, refl, inl, inr, Bool, false, not, ◌&&◌, ◌||◌, Bool-cases, if_elim,
  subst, is_some, [], ◌∷◌, ◌==◌, string_eq, arith, text_eq_iff,
}

module _ {ℓ} {V : Type ℓ} where
  pub has-keys : (k : String) (m : Map String V) → has k (keys m) ≡ is_some (get k m)
  unfolding get
  has-keys k [] = refl
  has-keys k ((j, v) ∷ m) = elim (Bool-cases (j == k)) [
    | inl e ↦ rw e refl
    | inr e ↦ rw e (has-keys k m)
  ]

  pub is_some-insert :
      (k j : String) (v : V) (m : Map String V)
      → is_some (get j (insert k v m)) ≡ (k == j || is_some (get j m))
  is_some-insert k j v m = ground (arith, get-insert k j v m)

  pub has-insert :
      (k j : String) (v : V) (m : Map String V)
      → has j (keys (insert k v m)) ≡ (k == j || has j (keys m))
  has-insert k j v m =
      has-keys j (insert k v m)
      ∙ is_some-insert k j v m
      ∙ ap (λ (b : Bool). k == j || b) (sym (has-keys j m))

  distinct_later :
      (k j : String) (v : V) (m : Map String V)
      → (j == k) ≡ false
      → has j (keys m) ≡ false
      → has j (keys (insert k v m)) ≡ false
  distinct_later k j v m e h = ground (arith, has-insert k j v m, text_eq_iff j k, text_eq_iff k j)

  pub Distinct-insert :
      (k : String) (v : V) (m : Map String V) → Distinct (keys m) → Distinct (keys (insert k v m))
  unfolding insert
  Distinct-insert k v [] d = (refl, tt)
  Distinct-insert k v ((j, w) ∷ m) d =
      if_elim (λ (l : Map String V). Distinct (keys l)) (j == k) _ _
        (λ e. (subst (λ (s : String). has s (keys m) ≡ false) ((text_eq_iff j k).0 e) d.0, d.1))
        (λ e. (distinct_later k j v m e d.0, Distinct-insert k v m d.1))

  pub is_some-delete :
      (k j : String) (m : Map String V)
      → is_some (get j (delete k m)) ≡ (not (k == j) && is_some (get j m))
  is_some-delete k j m = ground (arith, get-delete k j m)

  absent-delete :
      (k j : String) (m : Map String V) → has j (keys m) ≡ false → has j (keys (delete k m)) ≡ false
  absent-delete k j m h =
      ground (arith, has-keys j (delete k m), has-keys j m, is_some-delete k j m)

  pub Distinct-delete :
      (k : String) (m : Map String V) → Distinct (keys m) → Distinct (keys (delete k m))
  unfolding delete
  Distinct-delete k [] d = tt
  Distinct-delete k ((j, w) ∷ m) d =
      let rest = Distinct-delete k m d.1 in
      if_elim (λ (l : Map String V). Distinct (keys l)) (j == k) _ _ (λ _. rest)
        (λ _. (absent-delete k j m d.0, rest))
