-- ===== src/Broker/View/Honest.antt =====
-- What the broker reports of an owner is never more than what its ledger shows.
use agent_runtime_foundry.Base.Map.{get}
use agent_runtime_foundry.Broker.Types.{BrokerContext, BrokerSession, CreateState}
use agent_runtime_foundry.Broker.Platform.{Platform, owner_key}
use agent_runtime_foundry.Broker.Process.{Process, BrokerActive}
use agent_runtime_foundry.Broker.View.{
  BrokerControlResponse, show_prompts, show_session, block_response, control_response,
  initial_response, is_intent,
}
use agent_runtime_foundry.Broker.View.Counted.{
  PromptsCertain, SettledIn, invocation_total, show_prompts-SameOwner, show_prompts-Counted,
  show_prompts_settlement,
}
use agent_runtime_foundry.Base.{
  ◌<◌, ◌^◌, ◌≡◌, ◌≢◌, ◌∙◌, refl, sym, ap, ◌⊎◌, inl, inr, true, false, ◌||◌, Option, none, some,
  arith, String, string_eq,
}

-- What the session of an owner must be for a report of a proof.
pub record Proven (p : Platform) (c : BrokerContext) (active : Option BrokerActive)
    (s : BrokerSession) (r : BrokerControlResponse) : Type 0 where
  -- its creation is not under way
  pub not_pending : s.create_state ≢ CreateState.intent
  -- no invocation of the prompts that the report is on may have been sent with no known outcome
  pub all_certain : PromptsCertain p c active s.prompts
  pub retired : r.retirement_proven ≡ true → s.retired ≡ true
  pub settled : r.settlement_proven ≡ true → (s.retired ≡ true) ⊎ SettledIn p c s.prompts

pending_clash : (x : CreateState) → x ≡ CreateState.intent → is_intent x ≡ false → ⊥
pending_clash x e h = cc (ap is_intent e, h)

module _ (p : Platform) (c : BrokerContext) (d : String) (active : Option BrokerActive)
    (s : BrokerSession) where
  -- The report before its last step.
  abbrev loops : BrokerControlResponse
  loops = show_prompts p c active s.prompts (show_session s (initial_response p c d))

  no_proof_blocked :
      (r : BrokerControlResponse)
      → ((block_response r).settlement_proven || (block_response r).retirement_proven) ≡ true
      → (r.create_pending ≡ false) × (r.ambiguous_invocations ≡ 0) × (block_response r ≡ r)
  unfolding block_response
  no_proof_blocked r h = ground (arith, h)

  reported-Proven :
      invocation_total s.prompts < 2 ^ 32
      → ((block_response loops).settlement_proven || (block_response loops).retirement_proven)
        ≡ true
      → Proven p c active s (block_response loops)
  unfolding show_session initial_response
  reported-Proven room h =
      let first = show_session s (initial_response p c d) in
      let (open_state, none_counted, same) = no_proof_blocked loops h in
      let (same_retired, same_pending) = show_prompts-SameOwner p c active s.prompts first in
      let counted = show_prompts-Counted p c active s.prompts first (omega (arith, room)) in
      record {
        not_pending = λ e. pending_clash s.create_state e (sym same_pending ∙ open_state);
        all_certain = counted.only_if none_counted;
        retired = λ proven. sym same_retired ∙ sym (ap (λ r. r.retirement_proven) same) ∙ proven;
        settled = λ proven.
            elim (show_prompts_settlement p c active s.prompts first
              (sym (ap (λ r. r.settlement_proven) same) ∙ proven)) [
                | inl was ↦ inl (ground (arith, was))
                | inr found ↦ inr found
              ];
      }

-- A report that says that a settlement or a retirement is proven is of an owner in the ledger whose
-- remote session is not being created and, in the prompt that the context names or in all prompts if it
-- names none, each invocation is certain: not uncertain, and sent with no answer yet only as the last
-- one of the prompt of the owner's live request. If it says that the retirement is proven, then the
-- session is retired; and if it says so of the settlement, then the session is retired or the named
-- prompt is settled. The session has fewer than 2 ^ 32 invocations, so that the counter does not wrap.
pub control_response-Proven :
    (p : Platform) (c : BrokerContext) (context_digest : String) (b : Process)
    → ((s : BrokerSession)
        → get (owner_key p c.owner) b.ledger.sessions ≡ some s
        → invocation_total s.prompts < 2 ^ 32)
    → ((control_response p c context_digest b).settlement_proven
        || (control_response p c context_digest b).retirement_proven)
      ≡ true
    → (s : BrokerSession) × (get (owner_key p c.owner) b.ledger.sessions ≡ some s)
      × Proven p c (get (owner_key p c.owner) b.active) s (control_response p c context_digest b)
unfolding control_response initial_response
control_response-Proven p c context_digest b room =
    by_session (get (owner_key p c.owner) b.ledger.sessions) refl
  where
    report : Option BrokerSession → BrokerControlResponse
    report o = elim o [
      | none ↦ initial_response p c context_digest
      | some session ↦ block_response (
          show_prompts p c (get (owner_key p c.owner) b.active) session.prompts
            (show_session session (initial_response p c context_digest)))
    ]

    by_session :
        (o : Option BrokerSession)
        → get (owner_key p c.owner) b.ledger.sessions ≡ o
        → ((report o).settlement_proven || (report o).retirement_proven) ≡ true
        → (s : BrokerSession) × (get (owner_key p c.owner) b.ledger.sessions ≡ some s)
          × Proven p c (get (owner_key p c.owner) b.active) s (report o)
    by_session none there h = cc
    by_session (some s) there h = (
      s,
      there,
      reported-Proven p c context_digest (get (owner_key p c.owner) b.active) s (room s there) h,
    )
