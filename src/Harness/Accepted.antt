-- ===== src/Harness/Accepted.antt =====
-- What the checks of internal/harness guarantee of a message that they accept.
use agent_runtime_foundry.Base.Text.{trim_space}
use agent_runtime_foundry.Base.Map.{Map, get, insert, get-insert, get-insert_self}
use agent_runtime_foundry.Harness.Types.{HarnessError, ToolCallResult, ContinueTurnRequest}
use agent_runtime_foundry.Harness.Checks.{fails, first_error, tool_request_idempotency_key}
use agent_runtime_foundry.Harness.Validate.{
  continued_checks, continue_checks, validate_continued, validate_results, validate_continue,
}
use agent_runtime_foundry.Base.{
  ℕ, zero, suc, ◌+◌, String, ◌≡◌, ◌≢◌, refl, ap, Bool, true, false, not, ◌&&◌, Option, none, some,
  List, [], ◌∷◌, All, length, ◌==◌, nat_eq, string_eq, is_some, arith, text_eq_iff,
}

abbrev NoError : Option HarnessError → Type 0
NoError e = e ≡ none

abbrev error_at : ℕ → List (Option HarnessError) → Option HarnessError
error_at n [] = none
error_at zero (e ∷ rest) = e
error_at (suc n) (e ∷ rest) = error_at n rest

-- A list whose first error is none has none at any place.
first_error-at :
    (n : ℕ) (l : List (Option HarnessError)) → first_error l ≡ none → error_at n l ≡ none
first_error-at n [] h = refl
first_error-at n (some e ∷ rest) h = cc
first_error-at zero (none ∷ rest) h = refl
first_error-at (suc n) (none ∷ rest) h = first_error-at n rest h

fails-none : (test : Bool) (e : HarnessError) → fails test e ≡ none → test ≡ false
fails-none true e h = cc
fails-none false e h = refl

same_text : (a b : String) (e : HarnessError) → fails (not (a == b)) e ≡ none → a ≡ b
same_text a b e h = let differ = fails-none (not (a == b)) e h in (text_eq_iff a b).0 (ground arith)

-- One accepted tool result: it is of the request's session and turn, has the canonical key, and has an
-- output or an error.
pub record ResultMatches (r : ContinueTurnRequest) (result : ToolCallResult) : Type 0 where
  pub same_session : result.runtime_session_id ≡ r.runtime_session_id
  pub same_turn : result.turn_id ≡ r.turn_id
  pub canonical_key :
      result.idempotency_key
      ≡ tool_request_idempotency_key r.runtime_session_id r.turn_id (trim_space result.tool_call_id)
  pub answered : (result.output == "" && not (is_some result.error)) ≡ false

abbrev NotCalled : String → ToolCallResult → Type 0
NotCalled call result = trim_space result.tool_call_id ≢ call

-- No two results answer the same call.
abbrev pub CallsDistinct : List ToolCallResult → Type 0
CallsDistinct [] = Unit
CallsDistinct (result ∷ rest) =
    All (NotCalled (trim_space result.tool_call_id)) rest × CallsDistinct rest

-- The checks that one accepted result has passed.
continued_passed :
    (r : ContinueTurnRequest) (seen : Map String Bool) (i : ℕ) (result : ToolCallResult)
    → validate_continued r seen i result ≡ none
    → ResultMatches r result × (is_some (get (trim_space result.tool_call_id) seen) ≡ false)
unfolding validate_continued
continued_passed r seen i result h =
    let at : (n : ℕ) → error_at n (continued_checks r seen i result) ≡ none =
      λ n. first_error-at n (continued_checks r seen i result) h in
    (
      record {
        same_session = same_text _ _ _ (at 1);
        same_turn = same_text _ _ _ (at 2);
        canonical_key = same_text _ _ _ (at 4);
        answered = fails-none _ _ (at 5);
      },
      fails-none _ _ (at 3),
    )

abbrev both :
    ContinueTurnRequest
    → Map String Bool
    → ℕ
    → ToolCallResult
    → List ToolCallResult
    → List (Option HarnessError)
both r seen i result rest =
    validate_continued r seen i result
    ∷ validate_results r (insert (trim_space result.tool_call_id) true seen) (i + 1) rest
    ∷ []

-- A call that was seen is in no accepted result after it.
seen_NotCalled :
    (r : ContinueTurnRequest) (call : String) (results : List ToolCallResult)
    (seen : Map String Bool) (i : ℕ)
    → get call seen ≡ some true
    → validate_results r seen i results ≡ none
    → All (NotCalled call) results
unfolding validate_results
seen_NotCalled r call [] seen i was h = tt
seen_NotCalled r call (result ∷ rest) seen i was h =
    let first : validate_continued r seen i result ≡ none =
      first_error-at 0 (both r seen i result rest) h in
    let later : validate_results r (insert (trim_space result.tool_call_id) true seen) (i + 1) rest
        ≡ none =
      first_error-at 1 (both r seen i result rest) h in
    let (matches, fresh) = continued_passed r seen i result first in
    let id = trim_space result.tool_call_id in
    (
      λ same. cc (ap (λ k. is_some (get k seen)) same, fresh, ap is_some was),
      seen_NotCalled r call rest (insert id true seen) (i + 1)
          (ground (arith, get-insert id call true seen, was)) later,
    )

results_passed :
    (r : ContinueTurnRequest) (results : List ToolCallResult) (seen : Map String Bool) (i : ℕ)
    → validate_results r seen i results ≡ none
    → All (ResultMatches r) results × CallsDistinct results
unfolding validate_results
results_passed r [] seen i h = (tt, tt)
results_passed r (result ∷ rest) seen i h =
    let first : validate_continued r seen i result ≡ none =
      first_error-at 0 (both r seen i result rest) h in
    let later : validate_results r (insert (trim_space result.tool_call_id) true seen) (i + 1) rest
        ≡ none =
      first_error-at 1 (both r seen i result rest) h in
    let (matches, fresh) = continued_passed r seen i result first in
    let id = trim_space result.tool_call_id in
    let (all_match, distinct) = results_passed r rest (insert id true seen) (i + 1) later in
    (
      (matches, all_match),
      (
        seen_NotCalled r id rest (insert id true seen) (i + 1) (get-insert_self id true seen) later,
        distinct,
      ),
    )

-- A continuation that passes its check has at least one tool result; each is of the request's session
-- and turn, has the canonical idempotency key of its call, and an output or an error; and no two
-- results have the same call id, up to surrounding space.
pub validate_continue-Matches :
    (r : ContinueTurnRequest)
    → validate_continue r ≡ none
    → ((length r.tool_results == 0) ≡ false)
      × All (ResultMatches r) r.tool_results
      × CallsDistinct r.tool_results
unfolding validate_continue
validate_continue-Matches r h =
    let at : (n : ℕ) → error_at n (continue_checks r) ≡ none =
      λ n. first_error-at n (continue_checks r) h in
    let (all_match, distinct) = results_passed r r.tool_results [] 0 (at 8) in
    (fails-none _ _ (at 7), all_match, distinct)
