-- ===== src/Broker/Sound/Cleanup.antt =====
-- The cleanup keeps a ledger well-formed: a restart, the sweep of expired leases, and reconcile.
use agent_runtime_foundry.Base.Map.{
  Map, get, insert, map_values, Every, Every-insert, Every-map_values, get-insert, all-get,
}
use agent_runtime_foundry.Broker.Types.{
  ok, pending, BrokerPrompt, BrokerSession, BrokerLedger, CreateState, ok-injective, bind-ok,
  refuse-ok, deref-ok, deref,
}
use agent_runtime_foundry.Broker.Platform.{Platform}
use agent_runtime_foundry.Broker.Reconcile.{
  close_unsettled, restart_session, restart_change, expire_prompt, expire_session, expire_change,
  Plan, Evidence, settle_prompt, settle_prompts, all_settled, retire_settled, reconcile_change,
  deleted_state,
}
use agent_runtime_foundry.Broker.Sound.{PromptSound, SessionSound, LedgerSound}
use agent_runtime_foundry.Base.{
  ℕ, String, ◌≡◌, refl, Bool, true, some, arith, ◌==◌, inl, inr, string_eq, nat_eq, Bool-cases,
  subst, List, All, ◌⊎◌, [], ◌∷◌, leb,
}

-- A change of each prompt alone keeps a session well-formed.
map_prompts-Sound :
    (s : BrokerSession) (f : BrokerPrompt → BrokerPrompt)
    → ((key : String) (prompt : BrokerPrompt)
        → PromptSound s.current_prompt s.retiring s.retired key prompt
        → PromptSound s.current_prompt s.retiring s.retired key (f prompt))
    → SessionSound s
    → SessionSound (record s { prompts = map_values f s.prompts })
map_prompts-Sound s f step h = record {
  prompts_sound =
      Every-map_values (PromptSound s.current_prompt s.retiring s.retired)
        (PromptSound s.current_prompt s.retiring s.retired) f s.prompts step h.prompts_sound;
  retired_retiring = h.retired_retiring;
  retired_state = h.retired_state;
  deleted_retired = h.deleted_retired;
  named_state = h.named_state;
}

close_unsettled-Sound :
    (current key : String) (retiring retired : Bool) (prompt : BrokerPrompt)
    → PromptSound current retiring retired key prompt
    → PromptSound current retiring retired key (close_unsettled prompt)
unfolding close_unsettled
close_unsettled-Sound current key retiring retired prompt h = elim (Bool-cases prompt.settled) [
  | inl settled ↦ ground (arith, settled)
  | inr live ↦ ground (arith, live)
]

expire_prompt-Sound :
    (now : ℕ) (current key : String) (retiring retired : Bool) (prompt : BrokerPrompt)
    → PromptSound current retiring retired key prompt
    → PromptSound current retiring retired key (expire_prompt now prompt)
unfolding expire_prompt
expire_prompt-Sound now current key retiring retired prompt h =
    elim (Bool-cases (leb prompt.lease_expires_at now)) [
      | inl late ↦ ground (arith, late)
      | inr live ↦ ground (arith, live)
    ]

pub restart_change-Sound :
    (next after : BrokerLedger)
    → LedgerSound next
    → restart_change next ≡ ok after
    → LedgerSound after
unfolding restart_change restart_session
restart_change-Sound next after h e = subst LedgerSound (ok-injective e) (
    Every-map_values (λ key s. SessionSound s) (λ key s. SessionSound s) restart_session
      next.sessions
      (λ key s.
        map_prompts-Sound s close_unsettled
          (λ k prompt. close_unsettled-Sound s.current_prompt k s.retiring s.retired prompt))
      h)

pub expire_change-Sound :
    (now : ℕ) (next after : BrokerLedger)
    → LedgerSound next
    → expire_change now next ≡ ok after
    → LedgerSound after
unfolding expire_change expire_session
expire_change-Sound now next after h e = subst LedgerSound (ok-injective e) (
    Every-map_values (λ key s. SessionSound s) (λ key s. SessionSound s) (expire_session now)
      next.sessions
      (λ key s.
        map_prompts-Sound s (expire_prompt now)
          (λ k prompt. expire_prompt-Sound now s.current_prompt k s.retiring s.retired prompt))
      h)

-- A closing prompt is there.
abbrev pub Held : Map String BrokerPrompt → String → Type 0
Held prompts k = (prompt : BrokerPrompt) × (get k prompts ≡ some prompt) × (prompt.closing ≡ true)

-- What a plan still says of the session that it was made of, whatever was committed since.
pub record PlanHolds (plan : Plan) (s : BrokerSession) : Type 0 where
  -- the prompts that it settles are there and closing
  pub closing_held : All (Held s.prompts) plan.closing
  -- a session that it retires is retiring
  pub retiring_held : plan.retiring ≡ true → s.retiring ≡ true
  -- and was created as it says, or is retired by now
  pub state_held : plan.retiring ≡ true → (s.create_state ≡ plan.create_state) ⊎ (s.retired ≡ true)
  -- no creation was under way
  pub plan_state : (plan.create_state ≡ CreateState.none) ⊎ (plan.create_state ≡ CreateState.known)

settle_prompt-Sound :
    (proof current key : String) (retiring retired : Bool) (prompt : BrokerPrompt)
    → prompt.closing ≡ true
    → PromptSound current retiring retired key (settle_prompt proof prompt)
unfolding settle_prompt
settle_prompt-Sound proof current key retiring retired prompt closing = record {
  settled_closing = λ x. closing;
  open_current = λ x. cc;
  retiring_closing = λ x. closing;
  retired_settled = λ x. refl;
}

-- A settled prompt is still there and closing.
settled_Held :
    (proof k : String) (prompt : BrokerPrompt) (prompts : Map String BrokerPrompt)
    → prompt.closing ≡ true
    → (j : String) → Held prompts j
    → Held (insert k (settle_prompt proof prompt) prompts) j
unfolding settle_prompt
settled_Held proof k prompt prompts closing j (old, found, closes) = elim (Bool-cases (k == j)) [
  | inl same ↦ (
    settle_prompt proof prompt,
    ground (arith, get-insert k j (settle_prompt proof prompt) prompts),
    closing,
  )
  | inr differ ↦ (old, ground (arith, get-insert k j (settle_prompt proof prompt) prompts), closes)
]

All-map : {A : Type 0} {P Q : A → Type 0} → ((a : A) → P a → Q a) → (l : List A) → All P l → All Q l
All-map f [] h = h
All-map f (a ∷ l) (h, hs) = (f a h, All-map f l hs)

settle_prompts-Sound :
    (p : Platform) (key : String) (plan : Plan) (evidence : Evidence) (now : ℕ) (current : String)
    (retiring retired : Bool) (ks : List String) (prompts after : Map String BrokerPrompt)
    → Every (PromptSound current retiring retired) prompts
    → All (Held prompts) ks
    → settle_prompts p key plan evidence now ks prompts ≡ ok after
    → Every (PromptSound current retiring retired) after
unfolding settle_prompts
settle_prompts-Sound p key plan evidence now current retiring retired [] prompts after h held e =
    subst (Every (PromptSound current retiring retired)) (ok-injective e) h
settle_prompts-Sound p key plan evidence now current retiring retired (k ∷ ks) prompts after h
      ((old, found, closes), held) e =
    let (prompt, there, e1) = bind-ok (deref (get k prompts)) _ e in
    let closing : prompt.closing ≡ true = ground (arith, deref-ok _ there) in
    settle_prompts-Sound p key plan evidence now current retiring retired ks _ after
      (Every-insert (PromptSound current retiring retired) k _ prompts h
        (settle_prompt-Sound _ current k retiring retired prompt closing))
      (All-map (settled_Held _ k prompt prompts closing) ks held) e1

-- A retirement ends once all the prompts are settled. The prompts are those that the plan settled.
module _ (plan : Plan) (s : BrokerSession) (prompts : Map String BrokerPrompt)
    (holds : PlanHolds plan s) (h : SessionSound (record s { prompts = prompts })) where
  retired_session-Sound :
      (proof : String)
      → plan.retiring ≡ true
      → all_settled prompts ≡ true
      → SessionSound (record s {
        prompts = prompts;
        create_state = deleted_state plan.create_state s.create_state;
        retired = true;
        proof_digest = proof;
      })
  unfolding all_settled
  retired_session-Sound proof leaving all_done = record {
    prompts_sound = λ k prompt g.
        let hp = h.prompts_sound k prompt g in
        let done : prompt.settled ≡ true = all-get _ prompts all_done k prompt g in
        record {
          settled_closing = hp.settled_closing;
          open_current = hp.open_current;
          retiring_closing = hp.retiring_closing;
          retired_settled = λ r. done;
        };
    retired_retiring = λ r. holds.retiring_held leaving;
    retired_state =
        λ r. ground (arith, holds.plan_state, holds.state_held leaving, h.retired_state);
    deleted_retired = λ r. refl;
    named_state = ground (arith, holds.plan_state, h.named_state);
  }

  retire_settled-Sound :
      (p : Platform) (key : String) (evidence : Evidence) (now : ℕ) (after : BrokerSession)
      → retire_settled p key plan evidence now (record s { prompts = prompts }) ≡ ok after
      → SessionSound after
  unfolding retire_settled
  retire_settled-Sound p key evidence now after e = elim (Bool-cases plan.retiring) [
    | inr stays ↦ subst SessionSound (ok-injective (rw stays at e)) h
    | inl leaving ↦ elim (Bool-cases (all_settled prompts)) [
      | inr some_live ↦ ground (arith, some_live, leaving)
      | inl all_done ↦
          subst SessionSound (ok-injective (rw (leaving, all_done) at e))
            (retired_session-Sound _ leaving all_done)
    ]
  ]

-- The commit of reconcile keeps a ledger well-formed, if its plan still holds.
pub reconcile_change-Sound :
    (p : Platform) (key : String) (plan : Plan) (evidence : Evidence) (now : ℕ) (active : Bool)
    (next after : BrokerLedger)
    → LedgerSound next
    → ((s : BrokerSession) → get key next.sessions ≡ some s → PlanHolds plan s)
    → reconcile_change p key plan evidence now active next ≡ ok after
    → LedgerSound after
unfolding reconcile_change
reconcile_change-Sound p key plan evidence now active next after h holds e =
    let (idle, e1) = refuse-ok _ pending _ e in
    let (s, found, e2) = bind-ok (deref (get key next.sessions)) _ e1 in
    let (prompts, settled, e3) =
      bind-ok (settle_prompts p key plan evidence now plan.closing s.prompts) _ e2 in
    let (s', done, e4) =
      bind-ok (retire_settled p key plan evidence now (record s { prompts = prompts })) _ e3 in
    let hs = h key s (deref-ok _ found) in
    let held = holds s (deref-ok _ found) in
    subst LedgerSound (ok-injective e4) (
      Every-insert (λ k t. SessionSound t) key s' next.sessions h
        (retire_settled-Sound plan s prompts held
          (record {
            prompts_sound =
                settle_prompts-Sound p key plan evidence now s.current_prompt s.retiring s.retired
                  plan.closing s.prompts prompts hs.prompts_sound held.closing_held settled;
            retired_retiring = hs.retired_retiring;
            retired_state = hs.retired_state;
            deleted_retired = hs.deleted_retired;
            named_state = hs.named_state;
          })
          p key evidence now s' done))
