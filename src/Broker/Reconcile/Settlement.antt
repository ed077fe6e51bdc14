-- ===== src/Broker/Reconcile/Settlement.antt =====
-- What a committed reconciliation has done: the prompts of its plan are settled with the plan's proof,
-- and a session is retired only when nothing of it is open.
use agent_runtime_foundry.Base.Map.{Map, get, insert, get-insert, get-insert_self}
use agent_runtime_foundry.Broker.Types.{
  ok, pending, BrokerPrompt, BrokerSession, BrokerLedger, ok-injective, bind-ok, refuse-ok, deref,
}
use agent_runtime_foundry.Broker.Platform.{Platform}
use agent_runtime_foundry.Broker.Reconcile.{
  Plan, Evidence, settle_prompt, settle_prompts, settlement_proof, all_settled, retire_settled,
  reconcile_change,
}
use agent_runtime_foundry.Base.{
  ℕ, String, ◌≡◌, refl, Bool, true, some, arith, inl, inr, string_eq, Bool-cases, subst, ap, List,
  [], ◌∷◌, All, ◌==◌,
}

-- A prompt that is settled, with the proof of a plan.
abbrev pub ProvedBy :
    Platform → String → Plan → Evidence → ℕ → Map String BrokerPrompt → String → Type 0
ProvedBy p key plan evidence now prompts k =
    (prompt : BrokerPrompt) × (get k prompts ≡ some prompt)
    × (prompt.settled ≡ true)
    × (prompt.proof_digest ≡ settlement_proof p key k plan evidence now)

module _ (p : Platform) (key : String) (plan : Plan) (evidence : Evidence) (now : ℕ) where
  -- The settlement of a prompt leaves the proved ones proved.
  settle_again :
      (k j : String) (prompt : BrokerPrompt) (prompts : Map String BrokerPrompt)
      → ProvedBy p key plan evidence now prompts j
      → ProvedBy p key plan evidence now
          (insert k (settle_prompt (settlement_proof p key k plan evidence now) prompt) prompts)
          j
  unfolding settle_prompt
  settle_again k j prompt prompts (old, there, settled, proof) =
      let new = settle_prompt (settlement_proof p key k plan evidence now) prompt in
      elim (Bool-cases (k == j)) [
        | inl same ↦ (
          new,
          ground (arith, get-insert k j new prompts),
          refl,
          ap (λ i. settlement_proof p key i plan evidence now) ((string_eq.same_iff k j).0 same),
        )
        | inr differ ↦ (old, ground (arith, get-insert k j new prompts), settled, proof)
      ]

  settle_prompts_keep :
      (ks : List String) (prompts after : Map String BrokerPrompt) (j : String)
      → ProvedBy p key plan evidence now prompts j
      → settle_prompts p key plan evidence now ks prompts ≡ ok after
      → ProvedBy p key plan evidence now after j
  unfolding settle_prompts
  settle_prompts_keep [] prompts after j h e =
      subst (λ m. ProvedBy p key plan evidence now m j) (ok-injective e) h
  settle_prompts_keep (k ∷ ks) prompts after j h e =
      let (prompt, there, e1) = bind-ok (deref (get k prompts)) _ e in
      settle_prompts_keep ks _ after j (settle_again k j prompt prompts h) e1

  first_proved :
      (k : String) (prompt : BrokerPrompt) (prompts : Map String BrokerPrompt)
      → ProvedBy p key plan evidence now
          (insert k (settle_prompt (settlement_proof p key k plan evidence now) prompt) prompts)
          k
  unfolding settle_prompt
  first_proved k prompt prompts = (
    settle_prompt (settlement_proof p key k plan evidence now) prompt,
    get-insert_self k (settle_prompt (settlement_proof p key k plan evidence now) prompt) prompts,
    refl,
    refl,
  )

  settle_prompts-ProvedBy :
      (ks : List String) (prompts after : Map String BrokerPrompt)
      → settle_prompts p key plan evidence now ks prompts ≡ ok after
      → All (ProvedBy p key plan evidence now after) ks
  unfolding settle_prompts
  settle_prompts-ProvedBy [] prompts after e = tt
  settle_prompts-ProvedBy (k ∷ ks) prompts after e =
      let (prompt, there, e1) = bind-ok (deref (get k prompts)) _ e in
      (
        settle_prompts_keep ks _ after k (first_proved k prompt prompts) e1,
        settle_prompts-ProvedBy ks _ after e1,
      )

  retire_settled_fields :
      (s s' : BrokerSession)
      → retire_settled p key plan evidence now s ≡ ok s'
      → (s.prompts ≡ s'.prompts)
        × (plan.retiring ≡ true → (s'.retired ≡ true) × (all_settled s'.prompts ≡ true))
  unfolding retire_settled
  retire_settled_fields s s' e = elim (Bool-cases plan.retiring) [
    | inr stays ↦
        let same : s ≡ s' = ok-injective (rw stays at e) in
        (ap (λ t. t.prompts) same, λ leaving. cc)
    | inl leaving ↦ elim (Bool-cases (all_settled s.prompts)) [
      | inr some_live ↦ ground (arith, some_live, leaving)
      | inl all_done ↦
          let same = ok-injective (rw (leaving, all_done) at e) in
          (
            ap (λ t. t.prompts) same,
            λ _.
                subst (λ t. (t.retired ≡ true) × (all_settled t.prompts ≡ true)) same
                  (refl, all_done),
          )
    ]
  ]

  -- A reconciliation that commits has settled every prompt of its plan, each with the proof that its
  -- plan, its evidence and the time make; and if the plan retires the session, then the
  -- session is retired and every prompt of it is settled.
  pub reconcile_change-ProvedBy :
      (active : Bool) (next after : BrokerLedger)
      → reconcile_change p key plan evidence now active next ≡ ok after
      → (s : BrokerSession) × (get key after.sessions ≡ some s)
        × All (ProvedBy p key plan evidence now s.prompts) plan.closing
        × (plan.retiring ≡ true → (s.retired ≡ true) × (all_settled s.prompts ≡ true))
  unfolding reconcile_change
  reconcile_change-ProvedBy active next after e =
      let (idle, e1) = refuse-ok _ pending _ e in
      let (s, found, e2) = bind-ok (deref (get key next.sessions)) _ e1 in
      let (prompts, settled, e3) =
        bind-ok (settle_prompts p key plan evidence now plan.closing s.prompts) _ e2 in
      let (s', done, e4) =
        bind-ok (retire_settled p key plan evidence now (record s { prompts = prompts })) _ e3 in
      let (kept, ended) = retire_settled_fields (record s { prompts = prompts }) s' done in
      (
        s',
        subst (λ l. get key l.sessions ≡ some s') (ok-injective e4)
            (get-insert_self key s' next.sessions),
        subst (λ m. All (ProvedBy p key plan evidence now m) plan.closing) kept
            (settle_prompts-ProvedBy plan.closing s.prompts prompts settled),
        ended,
      )
