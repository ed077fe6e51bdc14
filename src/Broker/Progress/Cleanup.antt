-- ===== src/Broker/Progress/Cleanup.antt =====
-- The cleanup goes forward: a restart, the sweep of expired leases, and reconcile.
use agent_runtime_foundry.Base.Map.{
  Map, get, Grown, Grown-refl, Grown-trans, Grown-insert, Grown-map_values,
}
use agent_runtime_foundry.Broker.Types.{
  ok, pending, BrokerPrompt, BrokerSession, BrokerLedger, CreateState, ok-injective, bind-ok,
  refuse-ok, deref-ok, deref,
}
use agent_runtime_foundry.Broker.Platform.{Platform}
use agent_runtime_foundry.Broker.Reconcile.{
  close_unsettled, restart_session, restart_change, expire_prompt, expire_session, expire_change,
  Plan, Evidence, settle_prompt, settle_prompts, all_settled, retire_settled, reconcile_change,
  deleted_state,
}
use agent_runtime_foundry.Broker.Progress.{
  PromptKept, SessionKept, LedgerKept, Same, same_flags-Kept, PromptKept-refl, PromptKept-trans,
  SessionKept-refl, SessionKept-trans, map_prompts-Kept,
}
use agent_runtime_foundry.Base.{
  ℕ, String, ◌≡◌, ◌∙◌, refl, Bool, true, some-injective, arith, inl, inr, string_eq, nat_eq,
  Bool-cases, subst, ap, sym, List, [], ◌∷◌,
}

close_unsettled-Kept : (prompt : BrokerPrompt) → PromptKept prompt (close_unsettled prompt)
unfolding close_unsettled
close_unsettled-Kept prompt = ground arith

expire_prompt-Kept :
    (now : ℕ) (prompt : BrokerPrompt) → PromptKept prompt (expire_prompt now prompt)
unfolding expire_prompt
expire_prompt-Kept now prompt = ground arith

settle_prompt-Kept :
    (proof : String) (prompt : BrokerPrompt) → PromptKept prompt (settle_prompt proof prompt)
unfolding settle_prompt
settle_prompt-Kept proof prompt = record {
  identity_kept = refl;
  closing_kept = λ x. x;
  settled_kept = λ x. refl;
  sequence_kept = omega arith;
}

pub restart_change-Kept :
    (next after : BrokerLedger) → restart_change next ≡ ok after → LedgerKept next after
unfolding restart_change restart_session
restart_change-Kept next after e = subst (LedgerKept next) (ok-injective e) (
    Grown-map_values SessionKept restart_session next.sessions
      (λ s. map_prompts-Kept close_unsettled s close_unsettled-Kept))

pub expire_change-Kept :
    (now : ℕ) (next after : BrokerLedger)
    → expire_change now next ≡ ok after
    → LedgerKept next after
unfolding expire_change expire_session
expire_change-Kept now next after e = subst (LedgerKept next) (ok-injective e) (
    Grown-map_values SessionKept (expire_session now) next.sessions
      (λ s. map_prompts-Kept (expire_prompt now) s (expire_prompt-Kept now)))

settle_prompts-Kept :
    (p : Platform) (key : String) (plan : Plan) (evidence : Evidence) (now : ℕ) (ks : List String)
    (prompts after : Map String BrokerPrompt)
    → settle_prompts p key plan evidence now ks prompts ≡ ok after
    → Grown PromptKept prompts after
unfolding settle_prompts
settle_prompts-Kept p key plan evidence now [] prompts after e =
    subst (Grown PromptKept prompts) (ok-injective e)
      (Grown-refl PromptKept PromptKept-refl prompts)
settle_prompts-Kept p key plan evidence now (k ∷ ks) prompts after e =
    let (prompt, there, e1) = bind-ok (deref (get k prompts)) _ e in
    Grown-trans PromptKept PromptKept-trans prompts _ after
      (Grown-insert PromptKept PromptKept-refl k _ prompts (λ old g.
        subst (PromptKept old)
          (ap (settle_prompt _) (some-injective _ _ (sym g ∙ deref-ok _ there)))
          (settle_prompt-Kept _ old)))
      (settle_prompts-Kept p key plan evidence now ks _ after e1)

retired_session-Kept :
    (proof : String) (state : CreateState) (s : BrokerSession)
    → SessionKept s (record s { create_state = state; retired = true; proof_digest = proof })
retired_session-Kept proof state s = record {
  prompts_kept = Grown-refl PromptKept PromptKept-refl s.prompts;
  operations_kept = Grown-refl Same (λ v. refl) s.operations;
  retiring_kept = λ x. x;
  retired_kept = λ x. refl;
  state_kept = λ x. inr (inr refl);
}

retire_settled-Kept :
    (p : Platform) (key : String) (plan : Plan) (evidence : Evidence) (now : ℕ)
    (s after : BrokerSession)
    → retire_settled p key plan evidence now s ≡ ok after
    → SessionKept s after
unfolding retire_settled
retire_settled-Kept p key plan evidence now s after e = elim (Bool-cases plan.retiring) [
  | inr stays ↦ subst (SessionKept s) (ok-injective (rw stays at e)) (SessionKept-refl s)
  | inl leaving ↦ elim (Bool-cases (all_settled s.prompts)) [
    | inr some_live ↦ ground (arith, some_live, leaving)
    | inl all_done ↦
        subst (SessionKept s) (ok-injective (rw (leaving, all_done) at e))
          (retired_session-Kept _ (deleted_state plan.create_state s.create_state) s)
  ]
]

pub reconcile_change-Kept :
    (p : Platform) (key : String) (plan : Plan) (evidence : Evidence) (now : ℕ) (active : Bool)
    (next after : BrokerLedger)
    → reconcile_change p key plan evidence now active next ≡ ok after
    → LedgerKept next after
unfolding reconcile_change
reconcile_change-Kept p key plan evidence now active next after e =
    let (idle, e1) = refuse-ok _ pending _ e in
    let (s, found, e2) = bind-ok (deref (get key next.sessions)) _ e1 in
    let (prompts, settled, e3) =
      bind-ok (settle_prompts p key plan evidence now plan.closing s.prompts) _ e2 in
    let (s', done, e4) =
      bind-ok (retire_settled p key plan evidence now (record s { prompts = prompts })) _ e3 in
    let kept : SessionKept s s' =
      SessionKept-trans s (record s { prompts = prompts }) s'
        (same_flags-Kept s (record s { prompts = prompts })
          (settle_prompts-Kept p key plan evidence now plan.closing s.prompts prompts settled) refl
          refl refl refl)
        (retire_settled-Kept p key plan evidence now (record s { prompts = prompts }) s' done) in
    subst (LedgerKept next) (ok-injective e4) (
      Grown-insert SessionKept SessionKept-refl key s' next.sessions (λ old g.
        subst (λ x. SessionKept x s') (some-injective _ _ (sym (deref-ok _ found) ∙ g)) kept))
