-- ===== src/Base/Map/Defs.antt =====
-- Go's maps as association lists: the first entry with a key is its value. `insert` writes in
-- place, so a key occurs once. Where the source ranges over a map, in no fixed order, the model
-- walks the list; what is proved of such a walk does not depend on the order.
use Prim.Native.Nat.{suc}
use mathlib.Core.Path.{◌≡◌, refl}
use mathlib.Core.Logic.{◌≢◌, inl, inr}
use mathlib.Core.Bool.{true}
use mathlib.Core.Option.{Option, none, some}
use mathlib.Core.List.{List, [], ◌∷◌}
use native.Mathlib.Omega.{arith}
use agent_runtime_foundry.Base.Tests.{Comparable, ◌==◌, Bool-cases, if◌then◌else◌}
use agent_runtime_foundry.Base.Lists.{length}

abbrev pub Map {ℓ κ} : Type ℓ → Type κ → Type (ℓ ⊔ κ)
Map K V = List (K × V)

abbrev pub keys {ℓ κ} : {K : Type ℓ} {V : Type κ} → Map K V → List K
keys [] = []
keys ((k, v) ∷ m) = k ∷ keys m

-- A loop that changes every value.
unfoldable pub map_values {ℓ κ μ} :
    {K : Type ℓ} {V : Type κ} {W : Type μ} → (V → W) → Map K V → Map K W
map_values f [] = []
map_values f ((j, v) ∷ m) = (j, f v) ∷ map_values f m

pub beq_self {ℓ} : {K : Type ℓ} ⦃e : Comparable K⦄ (a : K) → (a == a) ≡ true
beq_self ⦃e⦄ a = (e.same_iff a a).1 refl

module _ {ℓ κ} {K : Type ℓ} {V : Type κ} ⦃e : Comparable K⦄ where
  unfoldable pub get : K → Map K V → Option V
  get key [] = none
  get key ((head, value) ∷ rest) = if head == key then some value else get key rest

  -- The write of an entry, in the place of an old one with its key.
  unfoldable pub insert : K → V → Map K V → Map K V
  insert key value [] = (key, value) ∷ []
  insert key value ((head, old) ∷ rest) =
      if head == key then (key, value) ∷ rest else (head, old) ∷ insert key value rest

  unfoldable pub delete : K → Map K V → Map K V
  delete k [] = []
  delete k ((j, w) ∷ m) = let rest = delete k m in if j == k then rest else (j, w) ∷ rest

  pub get-insert :
      (k j : K) (v : V) (m : Map K V) → get j (insert k v m) ≡ (if k == j then some v else get j m)
  unfolding get insert
  get-insert k j v [] = refl
  get-insert k j v ((i, w) ∷ m) =
      ground (arith, e.same_iff k j, e.same_iff i k, e.same_iff i j, get-insert k j v m)

  pub get-insert_self : (k : K) (v : V) (m : Map K V) → get k (insert k v m) ≡ some v
  get-insert_self k v m = rw get-insert (rw beq_self)

  pub get-insert_ne : (k j : K) (v : V) (m : Map K V) → k ≢ j → get j (insert k v m) ≡ get j m
  get-insert_ne k j v m h = rw get-insert (ground (arith, e.same_iff k j))

  pub get-delete : (k j : K) (m : Map K V) → get j (delete k m) ≡ (if k == j then none else get j m)
  unfolding get delete
  get-delete k j [] = ground arith
  get-delete k j ((i, w) ∷ m) =
      ground (arith, e.same_iff k j, e.same_iff i k, e.same_iff i j, get-delete k j m)

  -- A write to a key that is there keeps the size; to a new key it adds one.
  pub length-insert-some :
      (k : K) (v : V) (m : Map K V) {w : V} → get k m ≡ some w → length (insert k v m) ≡ length m
  unfolding get insert
  length-insert-some k v [] h = ground arith
  length-insert-some k v ((i, x) ∷ m) {w} h = ground (arith, length-insert-some k v m {w = w})

  pub length-insert-none :
      (k : K) (v : V) (m : Map K V) → get k m ≡ none → length (insert k v m) ≡ suc (length m)
  unfolding get insert
  length-insert-none k v [] h = refl
  length-insert-none k v ((i, x) ∷ m) h = ground (arith, length-insert-none k v m)

abbrev pub map_option {ℓ κ} : {A : Type ℓ} {B : Type κ} → (A → B) → Option A → Option B
map_option f none = none
map_option f (some a) = some (f a)

pub get-map_values {ℓ κ μ} :
    {K : Type ℓ} {V : Type κ} {W : Type μ} ⦃e : Comparable K⦄ (f : V → W) (k : K) (m : Map K V)
    → get k (map_values f m) ≡ map_option f (get k m)
unfolding get map_values
get-map_values f k [] = refl
get-map_values f k ((j, v) ∷ m) = elim (Bool-cases (j == k)) [
  | inl same ↦ rw same
  | inr differ ↦ rw differ (get-map_values f k m)
]
