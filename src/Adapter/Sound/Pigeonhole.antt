-- ===== src/Adapter/Sound/Pigeonhole.antt =====
-- A list of distinct texts that is as long as one that holds all of them holds the same texts.
use agent_runtime_foundry.Adapter.Sound.Tables.{has, Distinct}
use agent_runtime_foundry.Adapter.Sound.Frames.{clash}
use agent_runtime_foundry.Base.{
  subst, suc, ◌≤◌, String, ◌≡◌, ◌∙◌, refl, inl, inr, true, false, not, ◌&&◌, Bool-cases, if_elim,
  if◌then◌else◌, List, [], ◌∷◌, length, ◌==◌, string_eq, arith, text_eq_iff,
}

remove : String → List String → List String
remove s [] = []
remove s (t ∷ l) = let rest = remove s l in if t == s then rest else t ∷ rest

has-remove : (s k : String) (l : List String) → has k (remove s l) ≡ (not (s == k) && has k l)
unfolding remove
has-remove s k [] = ground arith
has-remove s k (t ∷ l) =
    ground (arith, has-remove s k l, text_eq_iff t s, text_eq_iff s k, text_eq_iff t k)

Distinct-remove : (s : String) (l : List String) → Distinct l → Distinct (remove s l)
unfolding remove
Distinct-remove s [] d = tt
Distinct-remove s (t ∷ l) d =
    let rest = Distinct-remove s l d.1 in
    if_elim Distinct (t == s) _ _ (λ _. rest) (λ _. (ground (arith, has-remove s t l, d.0), rest))

remove_absent : (s : String) (l : List String) → has s l ≡ false → remove s l ≡ l
unfolding remove
remove_absent s [] h = refl
remove_absent s (t ∷ l) h = ground (arith, remove_absent s l)

length-remove :
    (s : String) (l : List String)
    → Distinct l
    → has s l ≡ true
    → suc (length (remove s l)) ≡ length l
unfolding remove
length-remove s [] d h = absurd (cc)
length-remove s (t ∷ l) d h =
    ground (arith, d.0, text_eq_iff t s, remove_absent s l, length-remove s l d.1)

kept_after :
    (x j : String) (xs ys : List String)
    → has x xs ≡ false
    → has j xs ≡ true
    → has j ys ≡ true
    → has j (remove x ys) ≡ true
kept_after x j xs ys absent hx hy = elim (Bool-cases (x == j)) [
  | inl e ↦
      clash (has j xs) hx (subst (λ (s : String). has s xs ≡ false) ((text_eq_iff x j).0 e) absent)
  | inr e ↦ has-remove x j ys ∙ (rw e hy)
]

-- The keys of the buffered results are those of the pending calls, once there are as many.
pub covers :
    (xs ys : List String)
    → Distinct xs
    → Distinct ys
    → ((k : String) → has k xs ≡ true → has k ys ≡ true)
    → length ys ≤ length xs
    → (k : String) → has k ys ≡ true
    → has k xs ≡ true
covers [] [] dx dy sub le k h = h
covers [] (y ∷ ys) dx dy sub le k h = absurd (omega arith)
covers (x ∷ xs) ys dx dy sub le k h =
    let there : has x ys ≡ true = sub x (ground (arith, text_eq_iff x x)) in
    let shorter = length-remove x ys dy there in
    let rest =
      covers xs (remove x ys) dx.1 (Distinct-remove x ys dy)
        (λ j hj. kept_after x j xs ys dx.0 hj (sub j (ground arith))) (omega (arith, shorter)) in
    elim (Bool-cases (x == k)) [
      | inl e ↦ ground arith
      | inr e ↦ ground (arith, rest k (has-remove x k ys ∙ (rw e h)))
    ]
