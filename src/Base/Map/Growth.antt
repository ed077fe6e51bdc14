-- ===== src/Base/Map/Growth.antt =====
-- A map that grows: every entry is still there, with a value that is related to the old one.
use mathlib.Core.Path.{◌≡◌, sym, subst}
use mathlib.Core.Logic.{inl, inr}
use mathlib.Core.Option.{some}
use native.Mathlib.Omega.{arith}
use agent_runtime_foundry.Base.Tests.{Comparable, ◌==◌, Bool-cases}
use agent_runtime_foundry.Base.Map.Defs.{Map, get, insert, map_values, get-insert, get-map_values}
use agent_runtime_foundry.Base.Map.Entries.{Every}

module _ {ℓ κ μ} {K : Type ℓ} {V : Type κ} ⦃e : Comparable K⦄ (R : V → V → Type μ) where
  abbrev pub Grown : Map K V → Map K V → Type (ℓ ⊔ κ ⊔ μ)
  Grown m m' = Every (λ k v. (w : V) × (get k m' ≡ some w) × R v w) m

  pub Grown-refl : ((v : V) → R v v) → (m : Map K V) → Grown m m
  Grown-refl reflexive m k v g = (v, g, reflexive v)

  pub Grown-trans :
      ((u v w : V) → R u v → R v w → R u w)
      → (m m' m'' : Map K V) → Grown m m'
      → Grown m' m''
      → Grown m m''
  Grown-trans transitive m m' m'' h h' k u g =
      let (v, g', r) = h k u g in let (w, g'', r') = h' k v g' in (w, g'', transitive u v w r r')

  pub Grown-insert :
      ((v : V) → R v v)
      → (k : K) (w : V) (m : Map K V) → ((v : V) → get k m ≡ some v → R v w)
      → Grown m (insert k w m)
  Grown-insert reflexive k w m step j v g = elim (Bool-cases (k == j)) [
    | inl same ↦ (
      w,
      ground (arith, get-insert k j w m),
      step v (subst (λ x. get x m ≡ some v) (sym ((e.same_iff k j).0 same)) g),
    )
    | inr differ ↦ (v, ground (arith, get-insert k j w m), reflexive v)
  ]

  pub Grown-map_values :
      (f : V → V) (m : Map K V) → ((v : V) → R v (f v)) → Grown m (map_values f m)
  Grown-map_values f m step k v g = (f v, ground (arith, get-map_values f k m, g), step v)
