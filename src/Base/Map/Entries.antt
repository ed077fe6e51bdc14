-- ===== src/Base/Map/Entries.antt =====
-- A predicate of every entry that a map has, and how the operations keep it.
use mathlib.Core.Path.{◌≡◌, subst}
use mathlib.Core.Logic.{inl, inr}
use mathlib.Core.Bool.{Bool, true, false}
use mathlib.Core.Option.{some}
use mathlib.Core.List.{[], ◌∷◌}
use native.Mathlib.Omega.{arith}
use agent_runtime_foundry.Base.Tests.{Comparable, ◌==◌, Bool-cases, Option-cases}
use agent_runtime_foundry.Base.Lists.{any, all}
use agent_runtime_foundry.Base.Map.Defs.{Map, get, insert, map_values, get-insert, get-map_values}

module _ {ℓ κ μ} {K : Type ℓ} {V : Type κ} ⦃e : Comparable K⦄ (P : K → V → Type μ) where
  abbrev pub Every : Map K V → Type (ℓ ⊔ κ ⊔ μ)
  Every m = (k : K) (v : V) → get k m ≡ some v → P k v

  pub Every-empty : Every []
  unfolding get
  Every-empty k v g = cc

  pub Every-insert : (k : K) (v : V) (m : Map K V) → Every m → P k v → Every (insert k v m)
  Every-insert k v m h p j w g = elim (Bool-cases (k == j)) [
    | inl same ↦
        subst (λ x. P x w) ((e.same_iff k j).0 same)
          (subst (P k) (ground (arith, get-insert k j v m)) p)
    | inr differ ↦ h j w (ground (arith, get-insert k j v m))
  ]

module _ {ℓ κ λ' μ ν} {K : Type ℓ} {V : Type κ} {W : Type λ'} ⦃e : Comparable K⦄
    (P : K → V → Type μ) (Q : K → W → Type ν) where
  pub Every-map_values :
      (f : V → W) (m : Map K V)
      → ((k : K) (v : V) → P k v → Q k (f v))
      → Every P m
      → Every Q (map_values f m)
  Every-map_values f m step h k w g = elim (Option-cases (get k m)) [
    | inl missing ↦ cc (get-map_values f k m, missing)
    | inr (v, there) ↦
        subst (Q k) (ground (arith, get-map_values f k m, there)) (step k v (h k v there))
  ]

module _ {ℓ κ} {K : Type ℓ} {V : Type κ} ⦃e : Comparable K⦄ where
  pub any-get :
      (test : K × V → Bool) (m : Map K V)
      → any test m ≡ false
      → Every (λ k v. test (k, v) ≡ false) m
  unfolding get
  any-get test [] h k v g = cc
  any-get test ((j, w) ∷ m) h k v g = elim (Bool-cases (j == k)) [
    | inl same ↦ ground (arith, (e.same_iff j k).0 same)
    | inr differ ↦ any-get test m (ground arith) k v (rw differ at g)
  ]

  pub all-get :
      (test : K × V → Bool) (m : Map K V) → all test m ≡ true → Every (λ k v. test (k, v) ≡ true) m
  unfolding get
  all-get test [] h k v g = cc
  all-get test ((j, w) ∷ m) h k v g = elim (Bool-cases (j == k)) [
    | inl same ↦ ground (arith, (e.same_iff j k).0 same)
    | inr differ ↦ all-get test m (ground arith) k v (rw differ at g)
  ]
