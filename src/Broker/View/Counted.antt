-- ===== src/Broker/View/Counted.antt =====
-- The loops of a report over an owner's prompts and their invocations: what they count, and which fields
-- they leave alone.
use agent_runtime_foundry.Base.Map.{Map}
use agent_runtime_foundry.Broker.Types.{
  BrokerContext, BrokerInvocation, BrokerPrompt, InvocationState,
}
use agent_runtime_foundry.Broker.Platform.{Platform, prompt_key}
use agent_runtime_foundry.Broker.Process.{BrokerActive}
use agent_runtime_foundry.Broker.View.{
  BrokerControlResponse, count_invocation, count_invocations, show_prompt, show_prompts,
  active_prompt, add_ambiguous, add_active,
}
use agent_runtime_foundry.Base.{
  ℕ, ◌+◌, ◌<◌, ◌≤◌, ◌^◌, ◌≢◌, ◌⊎◌, inl, inr, length, text_eq_iff, String, ◌≡◌, ◌∙◌, refl, Bool,
  true, false, not, ◌&&◌, Option, [], ◌∷◌, arith, ◌==◌, string_eq, nat_eq, sym, if◌then◌else◌,
  if_elim, suc,
}

-- The fields that only the session sets.
abbrev pub SameOwner : BrokerControlResponse → BrokerControlResponse → Type 0
SameOwner r r' =
    (r'.retirement_proven ≡ r.retirement_proven) × (r'.create_pending ≡ r.create_pending)

SameOwner-trans : (a b c : BrokerControlResponse) → SameOwner a b → SameOwner b c → SameOwner a c
SameOwner-trans a b c (h, h') (k, k') = (k ∙ h, k' ∙ h')

count_invocation-SameOwner :
    (active : Option BrokerActive) (key : String) (prompt : BrokerPrompt)
    (invocation : BrokerInvocation) (r : BrokerControlResponse)
    → SameOwner r (count_invocation active key prompt invocation r)
unfolding count_invocation
count_invocation-SameOwner active key prompt invocation r = ground arith

count_invocations-SameOwner :
    (active : Option BrokerActive) (key : String) (prompt : BrokerPrompt)
    (m : Map ℕ BrokerInvocation) (r : BrokerControlResponse)
    → SameOwner r (count_invocations active key prompt m r)
unfolding count_invocations
count_invocations-SameOwner active key prompt [] r = (refl, refl)
count_invocations-SameOwner active key prompt ((n, invocation) ∷ rest) r =
    SameOwner-trans r (count_invocation active key prompt invocation r)
      (count_invocations active key prompt rest (count_invocation active key prompt invocation r))
      (count_invocation-SameOwner active key prompt invocation r)
      (count_invocations-SameOwner active key prompt rest
        (count_invocation active key prompt invocation r))

-- One prompt of the loop.
abbrev shown :
    Platform
    → Option BrokerActive
    → String
    → BrokerPrompt
    → Bool
    → Bool
    → BrokerControlResponse
    → BrokerControlResponse
shown p active key prompt named other r =
    if named && other
    then r
    else count_invocations active key prompt prompt.invocations
        (if named then show_prompt p prompt r else r)

shown-SameOwner :
    (p : Platform) (active : Option BrokerActive) (key : String) (prompt : BrokerPrompt)
    (named other : Bool) (r : BrokerControlResponse)
    → SameOwner r (shown p active key prompt named other r)
unfolding show_prompt
shown-SameOwner p active key prompt true true r = (refl, refl)
shown-SameOwner p active key prompt true false r =
    SameOwner-trans r (show_prompt p prompt r)
      (count_invocations active key prompt prompt.invocations (show_prompt p prompt r)) (refl, refl)
      (count_invocations-SameOwner active key prompt prompt.invocations (show_prompt p prompt r))
shown-SameOwner p active key prompt false other r =
    count_invocations-SameOwner active key prompt prompt.invocations r

pub show_prompts-SameOwner :
    (p : Platform) (c : BrokerContext) (active : Option BrokerActive) (m : Map String BrokerPrompt)
    (r : BrokerControlResponse)
    → SameOwner r (show_prompts p c active m r)
unfolding show_prompts
show_prompts-SameOwner p c active [] r = (refl, refl)
show_prompts-SameOwner p c active ((key, prompt) ∷ rest) r =
    let named = not (c.prompt_id == "") in
    let other = not (key == prompt_key p c) in
    SameOwner-trans r (shown p active key prompt named other r)
      (show_prompts p c active rest (shown p active key prompt named other r))
      (shown-SameOwner p active key prompt named other r)
      (show_prompts-SameOwner p c active rest (shown p active key prompt named other r))

-- An invocation whose outcome is no question: it is not uncertain, and if it is being submitted, then it
-- is the last one of its prompt and the owner's live request is for that prompt.
abbrev pub Certain : Option BrokerActive → String → BrokerPrompt → BrokerInvocation → Type 0
Certain active key prompt invocation =
    (invocation.state ≢ InvocationState.uncertain)
    × (invocation.state ≡ InvocationState.intent
        → (active_prompt active key ≡ true) × (invocation.sequence ≡ prompt.last_sequence))

abbrev pub CertainAll :
    Option BrokerActive → String → BrokerPrompt → Map ℕ BrokerInvocation → Type 0
CertainAll active key prompt [] = Unit
CertainAll active key prompt ((n, invocation) ∷ rest) =
    Certain active key prompt invocation × CertainAll active key prompt rest

-- A report is on the prompt that its context names, or on all prompts if it names none.
abbrev pub ReportedOn : Platform → BrokerContext → String → Type 0
ReportedOn p c key = (c.prompt_id ≡ "") ⊎ (key ≡ prompt_key p c)

abbrev pub PromptsCertain :
    Platform → BrokerContext → Option BrokerActive → Map String BrokerPrompt → Type 0
PromptsCertain p c active [] = Unit
PromptsCertain p c active ((key, prompt) ∷ rest) =
    (ReportedOn p c key → CertainAll active key prompt prompt.invocations)
    × PromptsCertain p c active rest

abbrev pub invocation_total : Map String BrokerPrompt → ℕ
invocation_total [] = 0
invocation_total ((key, prompt) ∷ rest) = length prompt.invocations + invocation_total rest

-- A prompt of the context is settled.
abbrev pub SettledIn : Platform → BrokerContext → Map String BrokerPrompt → Type 0
SettledIn p c [] = ⊥
SettledIn p c ((key, prompt) ∷ rest) =
    ((key ≡ prompt_key p c) × (prompt.settled ≡ true)) ⊎ SettledIn p c rest

-- A count that went from one report to the next, by at most so many, and not at all only if all that was
-- counted is certain.
pub record Counted (before after : BrokerControlResponse) (most : ℕ) (P : Type 0) : Type 0 where
  pub no_less : before.ambiguous_invocations ≤ after.ambiguous_invocations
  pub no_more : after.ambiguous_invocations ≤ before.ambiguous_invocations + most
  pub only_if : after.ambiguous_invocations ≡ before.ambiguous_invocations → P

Counted-then :
    (a b c : BrokerControlResponse) (m n most : ℕ) {P Q : Type 0}
    → most ≡ m + n
    → Counted a b m P
    → Counted b c n Q
    → Counted a c most (P × Q)
Counted-then a b c m n most sum h k = record {
  no_less = omega (arith, h.no_less, k.no_less);
  no_more = omega (arith, sum, h.no_more, k.no_more);
  only_if = λ e. (
    h.only_if (omega (arith, h.no_less, k.no_less, e)),
    k.only_if (omega (arith, h.no_less, k.no_less, e)),
  );
}

count_invocation-Counted :
    (active : Option BrokerActive) (key : String) (prompt : BrokerPrompt)
    (invocation : BrokerInvocation) (r : BrokerControlResponse)
    → r.ambiguous_invocations + 1 < 2 ^ 32
    → Counted r
        (count_invocation active key prompt invocation r)
        1
        (Certain active key prompt invocation)
unfolding count_invocation add_ambiguous add_active
count_invocation-Counted active key prompt invocation r room = record {
  no_less = ground (arith, room);
  no_more = ground (arith, room);
  only_if = λ e. ground (arith, e, room);
}

count_invocations-Counted :
    (active : Option BrokerActive) (key : String) (prompt : BrokerPrompt)
    (m : Map ℕ BrokerInvocation) (r : BrokerControlResponse)
    → r.ambiguous_invocations + length m < 2 ^ 32
    → Counted r
        (count_invocations active key prompt m r)
        (length m)
        (CertainAll active key prompt m)
unfolding count_invocations
count_invocations-Counted active key prompt [] r room = record {
  no_less = omega arith;
  no_more = omega arith;
  only_if = λ e. tt;
}
count_invocations-Counted active key prompt ((n, invocation) ∷ rest) r room =
    let one = count_invocation-Counted active key prompt invocation r (omega (arith, room)) in
    let r' = count_invocation active key prompt invocation r in
    Counted-then r r' (count_invocations active key prompt rest r') 1 (length rest)
      (suc (length rest)) (omega arith) one
      (count_invocations-Counted active key prompt rest r' (omega (arith, room, one.no_more)))

not_reported :
    (p : Platform) (c : BrokerContext) (key : String)
    → (not (c.prompt_id == "") && not (key == prompt_key p c)) ≡ true
    → ReportedOn p c key
    → ⊥
not_reported p c key hidden (inl none_named) =
    let e : (c.prompt_id == "") ≡ true = (text_eq_iff c.prompt_id "").1 none_named in
    ground (arith, hidden, e)
not_reported p c key hidden (inr same) =
    let e : (key == prompt_key p c) ≡ true = (text_eq_iff key (prompt_key p c)).1 same in
    ground (arith, hidden, e)

shown-Counted :
    (p : Platform) (c : BrokerContext) (active : Option BrokerActive) (key : String)
    (prompt : BrokerPrompt) (r : BrokerControlResponse)
    → r.ambiguous_invocations + length prompt.invocations < 2 ^ 32
    → Counted r
        (shown p active key prompt (not (c.prompt_id == "")) (not (key == prompt_key p c)) r)
        (length prompt.invocations)
        (ReportedOn p c key → CertainAll active key prompt prompt.invocations)
unfolding show_prompt
shown-Counted p c active key prompt r room =
    let named = not (c.prompt_id == "") in
    let other = not (key == prompt_key p c) in
    let r' = if named then show_prompt p prompt r else r in
    let same : r'.ambiguous_invocations ≡ r.ambiguous_invocations =
      if_elim (λ (x : BrokerControlResponse). x.ambiguous_invocations ≡ r.ambiguous_invocations)
        named _ _ (λ _. refl) (λ _. refl) in
    let counted =
      count_invocations-Counted active key prompt prompt.invocations r'
        (omega (arith, same, room)) in
    if_elim
      (λ (x : BrokerControlResponse).
        Counted r x (length prompt.invocations)
          (ReportedOn p c key → CertainAll active key prompt prompt.invocations))
      (named && other) _ _
      (λ hidden. record {
        no_less = omega arith;
        no_more = omega arith;
        only_if = λ _ on. absurd (not_reported p c key hidden on);
      })
      (λ _. record {
        no_less = omega (arith, same, counted.no_less);
        no_more = omega (arith, same, counted.no_more);
        only_if = λ e _. counted.only_if (e ∙ sym same);
      })

pub show_prompts-Counted :
    (p : Platform) (c : BrokerContext) (active : Option BrokerActive) (m : Map String BrokerPrompt)
    (r : BrokerControlResponse)
    → r.ambiguous_invocations + invocation_total m < 2 ^ 32
    → Counted r (show_prompts p c active m r) (invocation_total m) (PromptsCertain p c active m)
unfolding show_prompts
show_prompts-Counted p c active [] r room = record {
  no_less = omega arith;
  no_more = omega arith;
  only_if = λ e. tt;
}
show_prompts-Counted p c active ((key, prompt) ∷ rest) r room =
    let r' = shown p active key prompt (not (c.prompt_id == "")) (not (key == prompt_key p c)) r in
    let one = shown-Counted p c active key prompt r (omega (arith, room)) in
    Counted-then r r' (show_prompts p c active rest r') (length prompt.invocations)
      (invocation_total rest) (length prompt.invocations + invocation_total rest) refl one
      (show_prompts-Counted p c active rest r' (omega (arith, room, one.no_more)))

-- Only a settled prompt of the context makes a report of a settlement.
count_invocations_settlement :
    (active : Option BrokerActive) (key : String) (prompt : BrokerPrompt)
    (m : Map ℕ BrokerInvocation) (r : BrokerControlResponse)
    → (count_invocations active key prompt m r).settlement_proven ≡ r.settlement_proven
unfolding count_invocations count_invocation add_ambiguous add_active
count_invocations_settlement active key prompt [] r = refl
count_invocations_settlement active key prompt ((n, invocation) ∷ rest) r =
    count_invocations_settlement active key prompt rest
      (count_invocation active key prompt invocation r)
    ∙ ground arith

shown_settlement :
    (p : Platform) (c : BrokerContext) (active : Option BrokerActive) (key : String)
    (prompt : BrokerPrompt) (r : BrokerControlResponse)
    → (shown p active key prompt
        (not (c.prompt_id == ""))
        (not (key == prompt_key p c))
        r).settlement_proven
      ≡ true
    → (r.settlement_proven ≡ true) ⊎ ((key ≡ prompt_key p c) × (prompt.settled ≡ true))
unfolding show_prompt
shown_settlement p c active key prompt r h =
    let named = not (c.prompt_id == "") in
    let r' = if named then show_prompt p prompt r else r in
    let kept = count_invocations_settlement active key prompt prompt.invocations r' in
    let same = text_eq_iff key (prompt_key p c) in ground (arith, h, kept, same)

pub show_prompts_settlement :
    (p : Platform) (c : BrokerContext) (active : Option BrokerActive) (m : Map String BrokerPrompt)
    (r : BrokerControlResponse)
    → (show_prompts p c active m r).settlement_proven ≡ true
    → (r.settlement_proven ≡ true) ⊎ SettledIn p c m
unfolding show_prompts
show_prompts_settlement p c active [] r h = inl h
show_prompts_settlement p c active ((key, prompt) ∷ rest) r h =
    let named = not (c.prompt_id == "") in
    let other = not (key == prompt_key p c) in
    let r' = shown p active key prompt named other r in
    elim (show_prompts_settlement p c active rest r' h) [
      | inr later ↦ inr (inr later)
      | inl here ↦ elim (shown_settlement p c active key prompt r here) [
        | inl before ↦ inl before
        | inr found ↦ inr (inl found)
      ]
    ]
