-- ===== src/Broker/System/Invariant.antt =====
-- What holds of every ledger that a broker reaches: it is well-formed, and every plan that waits
-- still says the truth about its session.
use agent_runtime_foundry.Base.Map.{Map, get}
use agent_runtime_foundry.Broker.Types.{BrokerPrompt, BrokerSession, BrokerLedger, CreateState}
use agent_runtime_foundry.Broker.Platform.{Platform}
use agent_runtime_foundry.Broker.Reconcile.{
  slot_closing, closing_keys, Plan, session_plan, Evidence, plan_evidence,
}
use agent_runtime_foundry.Broker.Sound.{SessionSound, LedgerSound}
use agent_runtime_foundry.Broker.Sound.Cleanup.{
  Held, PlanHolds, restart_change-Sound, reconcile_change-Sound,
}
use agent_runtime_foundry.Broker.Progress.{
  SessionKept, LedgerKept, LedgerKept-refl, LedgerKept-trans,
}
use agent_runtime_foundry.Broker.Progress.Cleanup.{restart_change-Kept, reconcile_change-Kept}
use agent_runtime_foundry.Broker.System.{Change-Sound, Change-Kept, System, Planned, Step, Reaches}
use agent_runtime_foundry.Base.{
  String, ◌≡◌, ◌∙◌, refl, ◌⊎◌, inl, inr, Bool, true, false, some, some-injective, List, [], ◌∷◌,
  All, Option-cases, arith, sym, subst, string_eq, if◌then◌else◌,
}

-- A key that a plan captured is the key of a closing prompt.
slot_closing-Held :
    (prompts : Map String BrokerPrompt) (k : String)
    → slot_closing (get k prompts) ≡ true
    → Held prompts k
slot_closing-Held prompts k closing = elim (Option-cases (get k prompts)) [
  | inl missing ↦ ground (arith, missing)
  | inr (prompt, there) ↦ (prompt, there, ground (arith, there))
]

kept_key :
    {A : Type 0} (P : A → Type 0) (test : Bool) (a : A) (later : List A)
    → (test ≡ true → P a)
    → All P later
    → All P (if test then a ∷ later else later)
kept_key P true a later first rest = (first refl, rest)
kept_key P false a later first rest = rest

closing_keys-Held :
    (prompts entries : Map String BrokerPrompt) → All (Held prompts) (closing_keys prompts entries)
unfolding closing_keys
closing_keys-Held prompts [] = tt
closing_keys-Held prompts ((key, old) ∷ rest) =
    kept_key (Held prompts) (slot_closing (get key prompts)) key (closing_keys prompts rest)
      (slot_closing-Held prompts key) (closing_keys-Held prompts rest)

-- A plan that asks the provider is of a session that is created, or never was.
planned_state :
    (s : BrokerSession) (evidence : Evidence)
    → SessionSound s
    → s.retired ≡ false
    → plan_evidence (session_plan s) ≡ some evidence
    → (s.create_state ≡ CreateState.none) ⊎ (s.create_state ≡ CreateState.known)
unfolding plan_evidence session_plan
planned_state s evidence h live planned =
    let named = h.named_state in let deleted = h.deleted_retired in ground arith

-- A plan holds when it is made.
pub session_plan-Holds :
    (s : BrokerSession) (evidence : Evidence)
    → SessionSound s
    → s.retired ≡ false
    → plan_evidence (session_plan s) ≡ some evidence
    → PlanHolds (session_plan s) s
unfolding session_plan
session_plan-Holds s evidence h live planned = record {
  closing_held = closing_keys-Held s.prompts s.prompts;
  retiring_held = λ x. x;
  state_held = λ x. inl refl;
  plan_state = planned_state s evidence h live planned;
}

Held-Kept :
    (s s' : BrokerSession)
    → SessionKept s s'
    → (ks : List String) → All (Held s.prompts) ks
    → All (Held s'.prompts) ks
Held-Kept s s' kept [] held = tt
Held-Kept s s' kept (k ∷ ks) ((prompt, there, closing), held) =
    let (new, there', forward) = kept.prompts_kept k prompt there in
    ((new, there', forward.closing_kept closing), Held-Kept s s' kept ks held)

-- And it still holds after every change that goes forward.
pub PlanHolds-Kept :
    (plan : Plan) (s s' : BrokerSession) → PlanHolds plan s → SessionKept s s' → PlanHolds plan s'
PlanHolds-Kept plan s s' h kept = record {
  closing_held = Held-Kept s s' kept plan.closing h.closing_held;
  retiring_held = λ x. kept.retiring_kept (h.retiring_held x);
  state_held = λ x.
      let was = h.state_held x in
      let now = kept.state_kept (h.retiring_held x) in
      let ended = kept.retired_kept in let possible = h.plan_state in ground arith;
  plan_state = h.plan_state;
}

abbrev pub PlanLive : BrokerLedger → String × Plan → Type 0
PlanLive l (key, plan) = (s : BrokerSession) × (get key l.sessions ≡ some s) × PlanHolds plan s

PlanLive-Kept :
    (l l' : BrokerLedger)
    → LedgerKept l l'
    → (plans : List (String × Plan)) → All (PlanLive l) plans
    → All (PlanLive l') plans
PlanLive-Kept l l' kept [] live = tt
PlanLive-Kept l l' kept ((key, plan) ∷ rest) ((s, there, holds), live) =
    let (s', there', forward) = kept key s there in
    ((s', there', PlanHolds-Kept plan s s' holds forward), PlanLive-Kept l l' kept rest live)

Planned-Live :
    (l : BrokerLedger) (plans : List (String × Plan)) (key : String) (plan : Plan)
    → All (PlanLive l) plans
    → Planned plans key plan
    → PlanLive l (key, plan)
Planned-Live l [] key plan live x = elim x [ ]
Planned-Live l ((k, q) ∷ rest) key plan (live, _) (inl (same_key, same_plan)) =
    subst (λ x. PlanLive l (x, plan)) same_key (subst (λ x. PlanLive l (k, x)) same_plan live)
Planned-Live l ((k, q) ∷ rest) key plan (_, live) (inr later) =
    Planned-Live l rest key plan live later

pub record SystemSound (x : System) : Type 0 where
  pub ledger_sound : LedgerSound x.ledger
  pub plans_live : All (PlanLive x.ledger) x.plans

planned_sound :
    (l : BrokerLedger) (key : String) (plan : Plan)
    → PlanLive l (key, plan)
    → (s : BrokerSession) → get key l.sessions ≡ some s
    → PlanHolds plan s
planned_sound l key plan (s', there', holds) s there =
    subst (PlanHolds plan) (some-injective _ _ (sym there' ∙ there)) holds

pub Step-Sound : (p : Platform) (x y : System) → SystemSound x → Step p x y → SystemSound y
Step-Sound p x y h (Step.change {next} {after} {plans} c) = record {
  ledger_sound = Change-Sound p next after h.ledger_sound c;
  plans_live = PlanLive-Kept next after (Change-Kept p next after c) plans h.plans_live;
}
Step-Sound p x y h (Step.plan {next} {plans} key s evidence there live planned) = record {
  ledger_sound = h.ledger_sound;
  plans_live = (
    (s, there, session_plan-Holds s evidence (h.ledger_sound key s there) live planned),
    h.plans_live,
  );
}
Step-Sound p x y h (Step.reconcile {next} {after} {plans} key made evidence now active waiting e) =
    record {
      ledger_sound =
          reconcile_change-Sound p key made evidence now active next after h.ledger_sound
            (planned_sound next key made (Planned-Live next plans key made h.plans_live waiting)) e;
      plans_live =
          PlanLive-Kept next after
            (reconcile_change-Kept p key made evidence now active next after e) plans h.plans_live;
    }
Step-Sound p x y h (Step.restart {next} {after} {plans} e) = record {
  ledger_sound = restart_change-Sound next after h.ledger_sound e;
  plans_live = tt;
}

-- From a well-formed ledger whose waiting plans all hold, every sequence of steps (commits of requests,
-- the pin of the principal, plans of reconciliations and their commits in any order, sweeps and
-- restarts) leads to a well-formed ledger in which every waiting plan still holds, if each creation that
-- ends has its intent in the ledger when it does.
pub reachable-Sound : (p : Platform) (x y : System) → SystemSound x → Reaches p x y → SystemSound y
reachable-Sound p x y h Reaches.here = h
reachable-Sound p x y h (Reaches.then_step {a} {b} {c} run step) =
    Step-Sound p b y (reachable-Sound p x b h run) step

Step-Kept : (p : Platform) (x y : System) → Step p x y → LedgerKept x.ledger y.ledger
Step-Kept p x y (Step.change {next} {after} {plans} c) = Change-Kept p next after c
Step-Kept p x y (Step.plan {next} {plans} key s evidence there live planned) = LedgerKept-refl next
Step-Kept p x y (Step.reconcile {next} {after} {plans} key made evidence now active waiting e) =
    reconcile_change-Kept p key made evidence now active next after e
Step-Kept p x y (Step.restart {next} {after} {plans} e) = restart_change-Kept next after e

-- No sequence of steps takes anything back: a session or a prompt of the first ledger is in the last
-- one, a prompt that closed or settled stays closing or settled, a session that retires or is retired
-- stays so, the highest sequence of a prompt never falls, and a recorded operation keeps its digest. It
-- is said of steps in which each creation that ends has its intent in the ledger when it does.
pub reachable-Kept : (p : Platform) (x y : System) → Reaches p x y → LedgerKept x.ledger y.ledger
reachable-Kept p x y Reaches.here = LedgerKept-refl x.ledger
reachable-Kept p x y (Reaches.then_step {a} {b} {c} run step) =
    LedgerKept-trans x.ledger b.ledger y.ledger (reachable-Kept p x b run) (Step-Kept p b y step)
