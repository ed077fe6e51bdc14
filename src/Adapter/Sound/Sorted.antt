-- ===== src/Adapter/Sound/Sorted.antt =====
-- The sorted keys of prepareContinuationLocked are the keys, each once.
use agent_runtime_foundry.Adapter.Continue.{text_le, insert_sorted, sort}
use agent_runtime_foundry.Adapter.Sound.Tables.{has, Distinct}
use agent_runtime_foundry.Base.{
  suc, String, ◌≡◌, ◌∙◌, ap, refl, Bool, false, ◌||◌, if_elim, List, [], ◌∷◌, length, ◌==◌,
  string_eq, arith, text_eq_iff,
}

length-insert_sorted : (s : String) (l : List String) → length (insert_sorted s l) ≡ suc (length l)
unfolding insert_sorted
length-insert_sorted s [] = refl
length-insert_sorted s (t ∷ l) =
    if_elim (λ (r : List String). length r ≡ suc (suc (length l))) (text_le s t) _ _ (λ _. refl)
      (λ _. ap suc (length-insert_sorted s l))

pub length-sort : (l : List String) → length (sort l) ≡ length l
unfolding sort
length-sort [] = refl
length-sort (s ∷ l) = length-insert_sorted s (sort l) ∙ ap suc (length-sort l)

has-insert_sorted :
    (k s : String) (l : List String) → has k (insert_sorted s l) ≡ (s == k || has k l)
unfolding insert_sorted
has-insert_sorted k s [] = refl
has-insert_sorted k s (t ∷ l) =
    if_elim (λ (r : List String). has k r ≡ (s == k || has k (t ∷ l))) (text_le s t) _ _ (λ _. refl)
      (λ _. ground (arith, has-insert_sorted k s l))

pub has-sort : (k : String) (l : List String) → has k (sort l) ≡ has k l
unfolding sort
has-sort k [] = refl
has-sort k (s ∷ l) = has-insert_sorted k s (sort l) ∙ ap (λ (b : Bool). s == k || b) (has-sort k l)

Distinct-insert_sorted :
    (s : String) (l : List String) → has s l ≡ false → Distinct l → Distinct (insert_sorted s l)
unfolding insert_sorted
Distinct-insert_sorted s [] h d = (h, tt)
Distinct-insert_sorted s (t ∷ l) h d =
    if_elim Distinct (text_le s t) _ _ (λ _. (h, d))
      (λ _. (
        ground (arith, has-insert_sorted t s l, text_eq_iff s t, text_eq_iff t s),
        Distinct-insert_sorted s l (ground arith) d.1,
      ))

pub Distinct-sort : (l : List String) → Distinct l → Distinct (sort l)
unfolding sort
Distinct-sort [] d = tt
Distinct-sort (s ∷ l) d =
    Distinct-insert_sorted s (sort l) (has-sort s l ∙ d.0) (Distinct-sort l d.1)
