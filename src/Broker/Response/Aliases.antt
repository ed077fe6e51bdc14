-- ===== src/Broker/Response/Aliases.antt =====
-- The calls of a completed response: the child sees aliases, and the link that is stored gives the
-- provider's call id of each. google/uuid is the supply of texts: no text comes twice.
use agent_runtime_foundry.Base.Text.{append}
use agent_runtime_foundry.Base.Map.{Map, get, insert, get-insert_self, get-insert_ne}
use agent_runtime_foundry.Foundry.Limits.{max_identifier_bytes}
use agent_runtime_foundry.Foundry.Strings.{safe_string}
use agent_runtime_foundry.Foundry.Responses.{OutputItem}
use agent_runtime_foundry.Broker.Types.{ok, conflict, ok-injective, bind-ok, refuse-ok}
use agent_runtime_foundry.Broker.Response.{alias_calls}
use agent_runtime_foundry.Base.{
  ℕ, ◌+◌, ◌≤◌, String, ◌≡◌, ◌≢◌, refl, ap, subst, ◌∙◌, Bool, true, not, ◌||◌, some, List, [], ◌∷◌,
  arith, is_some, string_eq,
}

-- The released items: each carries an alias that the link maps to the provider's call id, and the name
-- and the arguments of the provider's call.
abbrev pub Released : Map String String → List OutputItem → List OutputItem → Type 0
Released calls [] [] = Unit
Released calls (item ∷ items) (out ∷ outs) =
    (get out.call_id calls ≡ some item.call_id)
    × (out.name ≡ item.name)
    × (out.arguments ≡ item.arguments)
    × Released calls items outs
Released calls _ _ = ⊥

abbrev pub Distinct : (ℕ → String) → Type 0
Distinct uuids = (i j : ℕ) → uuids i ≡ uuids j → i ≡ j

text_tail : String → String
text_tail String.[] = String.[]
text_tail (String.◌∷◌ c s) = s

alias-injective : (s t : String) → append "fc_" s ≡ append "fc_" t → s ≡ t
unfolding append text_tail
alias-injective s t h = ap (λ x. text_tail (text_tail (text_tail x))) h

module _ (uuids : ℕ → String) (distinct : Distinct uuids) where
  -- An alias that was given stays as it is.
  alias_calls_keep :
      (items outs : List OutputItem) (n k : ℕ) (seen : Map String Bool)
      (calls after : Map String String) (remote : String)
      → k ≤ n
      → get (append "fc_" (uuids k)) calls ≡ some remote
      → alias_calls uuids n seen calls items ≡ ok (after, outs)
      → get (append "fc_" (uuids k)) after ≡ some remote
  unfolding alias_calls
  alias_calls_keep [] outs n k seen calls after remote below there e =
      subst (λ m. get (append "fc_" (uuids k)) m ≡ some remote) (ap (λ r. r.0) (ok-injective e))
        there
  alias_calls_keep (item ∷ items) outs n k seen calls after remote below there e =
      let (fresh, e1) =
        refuse-ok
          (not (safe_string item.call_id max_identifier_bytes) || is_some (get item.call_id seen))
          conflict _ e in
      let alias = append "fc_" (uuids (n + 1)) in
      let ((calls', output), rest, e2) =
        bind-ok
          (alias_calls uuids (n + 2) (insert item.call_id true seen)
            (insert alias item.call_id calls) items)
          _ e1 in
      let differ : alias ≢ append "fc_" (uuids k) =
        λ same. omega (arith, below, distinct (n + 1) k (alias-injective _ _ same)) in
      let kept =
        alias_calls_keep items output (n + 2) k (insert item.call_id true seen)
          (insert alias item.call_id calls) calls' remote (omega (arith, below))
          (get-insert_ne alias (append "fc_" (uuids k)) item.call_id calls differ ∙ there) rest in
      subst (λ m. get (append "fc_" (uuids k)) m ≡ some remote) (ap (λ r. r.0) (ok-injective e2))
        kept

  -- The loop over the calls releases each under an alias that its map gives the provider's call id for.
  pub alias_calls-Released :
      (items outs : List OutputItem) (n : ℕ) (seen : Map String Bool)
      (calls after : Map String String)
      → alias_calls uuids n seen calls items ≡ ok (after, outs)
      → Released after items outs
  unfolding alias_calls
  alias_calls-Released [] outs n seen calls after e =
      subst (Released after []) (ap (λ r. r.1) (ok-injective e)) tt
  alias_calls-Released (item ∷ items) outs n seen calls after e =
      let (fresh, e1) =
        refuse-ok
          (not (safe_string item.call_id max_identifier_bytes) || is_some (get item.call_id seen))
          conflict _ e in
      let alias = append "fc_" (uuids (n + 1)) in
      let ((calls', output), rest, e2) =
        bind-ok
          (alias_calls uuids (n + 2) (insert item.call_id true seen)
            (insert alias item.call_id calls) items)
          _ e1 in
      let same : calls' ≡ after = ap (λ r. r.0) (ok-injective e2) in
      let first : get alias calls' ≡ some item.call_id =
        alias_calls_keep items output (n + 2) (n + 1) (insert item.call_id true seen)
          (insert alias item.call_id calls) calls' item.call_id (omega arith)
          (get-insert_self alias item.call_id calls) rest in
      let named : OutputItem = record item { call_id = alias; id = append "fi_" (uuids (n + 2)) } in
      let sound : Released after (item ∷ items) (named ∷ output) = (
        subst (λ m. get alias m ≡ some item.call_id) same first,
        refl,
        refl,
        subst (λ m. Released m items output) same
            (alias_calls-Released items output (n + 2) (insert item.call_id true seen)
              (insert alias item.call_id calls) calls' rest),
      ) in
      subst (Released after (item ∷ items)) (ap (λ r. r.1) (ok-injective e2)) sound
