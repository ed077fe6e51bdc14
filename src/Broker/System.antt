-- ===== src/Broker/System.antt =====
-- The ledger of a running broker, with the plans of the reconciliations that wait for the provider:
-- internal/broker changes the ledger only by the functions that its operations hand to a commit, in
-- any order, and a reconciliation commits some time after it has made its plan.
pub mod Invariant
pub mod Once
pub mod Closing
use agent_runtime_foundry.Base.Map.{Map, get, Every-empty}
use agent_runtime_foundry.Foundry.Responses.{Response, ResponseRequest, StreamSummary}
use agent_runtime_foundry.Broker.Types.{
  BrokerContext, BrokerError, BrokerPath, Result, ok, err, BrokerPrompt, BrokerSession,
  BrokerLedger, CreateState,
}
use agent_runtime_foundry.Broker.Platform.{Platform, owner_key, prompt_key}
use agent_runtime_foundry.Broker.Control.{control_change}
use agent_runtime_foundry.Broker.Reserve.{Outputs, reserve_change}
use agent_runtime_foundry.Broker.Invoke.{
  intend_create, settle_create, intend_invocation, reject_invocation, finish_change, close_change,
  pin_change,
}
use agent_runtime_foundry.Broker.Response.{identity_change, complete_change}
use agent_runtime_foundry.Broker.Reconcile.{
  restart_change, expire_change, slot_closing, closing_keys, Plan, session_plan, Evidence,
  plan_evidence, reconcile_change,
}
use agent_runtime_foundry.Broker.Sound.{SessionSound, LedgerSound, is_unknown}
use agent_runtime_foundry.Broker.Sound.Requests.{control_change-Sound, reserve_change-Sound}
use agent_runtime_foundry.Broker.Sound.Work.{
  intend_create-Sound, settle_create-Sound, intend_invocation-Sound, reject_invocation-Sound,
  identity_change-Sound, complete_change-Sound, finish_change-Sound, close_change-Sound,
  pin_change-Sound,
}
use agent_runtime_foundry.Broker.Sound.Cleanup.{
  Held, PlanHolds, restart_change-Sound, expire_change-Sound, reconcile_change-Sound,
}
use agent_runtime_foundry.Broker.Progress.{
  PromptKept, SessionKept, LedgerKept, LedgerKept-refl, LedgerKept-trans,
}
use agent_runtime_foundry.Broker.Progress.Requests.{control_change-Kept, reserve_change-Kept}
use agent_runtime_foundry.Broker.Progress.Work.{
  intend_create-Kept, settle_create-Kept, intend_invocation-Kept, reject_invocation-Kept,
  identity_change-Kept, complete_change-Kept, finish_change-Kept, close_change-Kept,
  pin_change-Kept,
}
use agent_runtime_foundry.Broker.Progress.Cleanup.{
  restart_change-Kept, expire_change-Kept, reconcile_change-Kept,
}
use agent_runtime_foundry.Base.{
  ℕ, String, ◌≡◌, ◌∙◌, refl, ◌⊎◌, inl, inr, Bool, true, false, not, ◌&&◌, Option, none, some, List,
  [], ◌∷◌, All, Bool-cases, Option-cases, arith, sym, subst, string_eq, if◌then◌else◌,
}

-- One commit of a request. A creation that ends (`created`) has its intent in the ledger: the code does
-- not ask for it, but `intend_create` put it there, earlier in the same request, and an owner has one
-- request at a time. The requests are not states here, so it is a condition of that step.
pub data Change (p : Platform) (next after : BrokerLedger) : Type 0 where
  control :
      (path : BrokerPath) (c : BrokerContext) (now : ℕ)
      → control_change p path c now next ≡ ok after
      → Change p next after
  reserve :
      (outputs : Outputs) (c : BrokerContext) (now : ℕ) (request final : ResponseRequest)
      → reserve_change p outputs c now request next ≡ ok (after, final)
      → Change p next after
  pin : (digest : String) → pin_change digest next ≡ ok after → Change p next after
  create :
      (c : BrokerContext) (ended : Bool) (now : ℕ) (id : String)
      → intend_create p c ended now id next ≡ ok after
      → Change p next after
  created :
      (c : BrokerContext) (known : Bool)
      → ((s : BrokerSession)
          → get (owner_key p c.owner) next.sessions ≡ some s
          → s.create_state ≡ CreateState.intent)
      → settle_create p c known next ≡ ok after
      → Change p next after
  submit :
      (c : BrokerContext) (ended : Bool) (now : ℕ)
      → intend_invocation p c ended now next ≡ ok after
      → Change p next after
  reject : (c : BrokerContext) → reject_invocation p c next ≡ ok after → Change p next after
  identify :
      (c : BrokerContext) (id uuid : String)
      → identity_change p c id uuid next ≡ ok after
      → Change p next after
  complete :
      (c : BrokerContext) (now : ℕ) (uuids : ℕ → String) (summary : StreamSummary)
      (output : Response)
      → complete_change p c now uuids summary next ≡ ok (after, output)
      → Change p next after
  finish :
      (c : BrokerContext) (failure : Option BrokerError)
      → finish_change p c failure next ≡ ok after
      → Change p next after
  close : (key slot : String) → close_change key slot next ≡ ok after → Change p next after
  expire : (now : ℕ) → expire_change now next ≡ ok after → Change p next after

pub Change-Sound :
    (p : Platform) (next after : BrokerLedger)
    → LedgerSound next
    → Change p next after
    → LedgerSound after
Change-Sound p next after h (control path c now e) =
    control_change-Sound p path c now next after h e
Change-Sound p next after h (reserve outputs c now request final e) =
    reserve_change-Sound p outputs c now request final next after h e
Change-Sound p next after h (pin digest e) = pin_change-Sound digest next after h e
Change-Sound p next after h (create c ended now id e) =
    intend_create-Sound p c ended now id next after h e
Change-Sound p next after h (created c known intent e) =
    settle_create-Sound p c known next after h intent e
Change-Sound p next after h (submit c ended now e) =
    intend_invocation-Sound p c ended now next after h e
Change-Sound p next after h (reject c e) = reject_invocation-Sound p c next after h e
Change-Sound p next after h (identify c id uuid e) =
    identity_change-Sound p c id uuid next after h e
Change-Sound p next after h (complete c now uuids summary output e) =
    complete_change-Sound p c now uuids summary next after output h e
Change-Sound p next after h (finish c failure e) = finish_change-Sound p c failure next after h e
Change-Sound p next after h (close key slot e) = close_change-Sound key slot next after h e
Change-Sound p next after h (expire now e) = expire_change-Sound now next after h e

pub Change-Kept :
    (p : Platform) (next after : BrokerLedger) → Change p next after → LedgerKept next after
Change-Kept p next after (control path c now e) = control_change-Kept p path c now next after e
Change-Kept p next after (reserve outputs c now request final e) =
    reserve_change-Kept p outputs c now request final next after e
Change-Kept p next after (pin digest e) = pin_change-Kept digest next after e
Change-Kept p next after (create c ended now id e) =
    intend_create-Kept p c ended now id next after e
Change-Kept p next after (created c known intent e) =
    settle_create-Kept p c known next after intent e
Change-Kept p next after (submit c ended now e) = intend_invocation-Kept p c ended now next after e
Change-Kept p next after (reject c e) = reject_invocation-Kept p c next after e
Change-Kept p next after (identify c id uuid e) = identity_change-Kept p c id uuid next after e
Change-Kept p next after (complete c now uuids summary output e) =
    complete_change-Kept p c now uuids summary next after output e
Change-Kept p next after (finish c failure e) = finish_change-Kept p c failure next after e
Change-Kept p next after (close key slot e) = close_change-Kept key slot next after e
Change-Kept p next after (expire now e) = expire_change-Kept now next after e

pub record System : Type 0 where
  pub ledger : BrokerLedger
  -- the plans that may still be committed, each with its owner's key
  pub plans : List (String × Plan)

abbrev pub Planned : List (String × Plan) → String → Plan → Type 0
Planned [] key plan = ⊥
Planned ((k, q) ∷ rest) key plan = ((k ≡ key) × (q ≡ plan)) ⊎ Planned rest key plan

-- The steps of a broker, and its restart, which loses the plans. A plan is made only of a session
-- that is not retired, and only if the provider has something to say about it.
pub data Step (p : Platform) : System → System → Type 0 where
  change :
      {next after : BrokerLedger} {plans : List (String × Plan)}
      → Change p next after
      → Step p (record { ledger = next; plans = plans }) (record { ledger = after; plans = plans })
  plan :
      {next : BrokerLedger} {plans : List (String × Plan)} (key : String) (s : BrokerSession)
      (evidence : Evidence)
      → get key next.sessions ≡ some s
      → s.retired ≡ false
      → plan_evidence (session_plan s) ≡ some evidence
      → Step p
          (record { ledger = next; plans = plans })
          (record { ledger = next; plans = (key, session_plan s) ∷ plans })
  reconcile :
      {next after : BrokerLedger} {plans : List (String × Plan)} (key : String) (made : Plan)
      (evidence : Evidence) (now : ℕ) (active : Bool)
      → Planned plans key made
      → reconcile_change p key made evidence now active next ≡ ok after
      → Step p (record { ledger = next; plans = plans }) (record { ledger = after; plans = plans })
  restart :
      {next after : BrokerLedger} {plans : List (String × Plan)}
      → restart_change next ≡ ok after
      → Step p (record { ledger = next; plans = plans }) (record { ledger = after; plans = [] })

pub data Reaches (p : Platform) : System → System → Type 0 where
  here : {a : System} → Reaches p a a
  then_step : {a b c : System} → Reaches p a b → Step p b c → Reaches p a c
