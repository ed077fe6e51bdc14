-- ===== src/Broker/Progress.antt =====
-- What no change of the ledger takes back: internal/broker's closing, settlement and retirement, the
-- highest sequence of a prompt, and the operations that were recorded.
pub mod Requests
pub mod Work
pub mod Cleanup
use agent_runtime_foundry.Base.Map.{
  Map, get, insert, map_values, Grown, Grown-refl, Grown-trans, Grown-insert, Grown-map_values,
}
use agent_runtime_foundry.Broker.Types.{
  BrokerContext, BrokerPrompt, BrokerSession, BrokerLedger, CreateState,
}
use agent_runtime_foundry.Broker.Platform.{Platform, owner_key, prompt_key}
use agent_runtime_foundry.Broker.Ledger.{put_session, put_prompt}
use agent_runtime_foundry.Base.{
  String, string_eq, ◌≡◌, ◌∙◌, refl, ◌⊎◌, inl, inr, ◌≤◌, Bool, true, false, some, arith, sym, subst,
}

pub record PromptKept (old new : BrokerPrompt) : Type 0 where
  pub identity_kept : new.identity ≡ old.identity
  pub closing_kept : old.closing ≡ true → new.closing ≡ true
  pub settled_kept : old.settled ≡ true → new.settled ≡ true
  pub sequence_kept : old.last_sequence ≤ new.last_sequence

abbrev pub Same : String → String → Type 0
Same old new = old ≡ new

-- In a retiring session only a creation that is under way may still end, until the retirement does.
abbrev pub StateKept : BrokerSession → BrokerSession → Type 0
StateKept old new =
    old.retiring ≡ true
    → (old.create_state ≡ CreateState.intent)
      ⊎ (new.create_state ≡ old.create_state)
      ⊎ (new.retired ≡ true)

pub record SessionKept (old new : BrokerSession) : Type 0 where
  pub prompts_kept : Grown PromptKept old.prompts new.prompts
  pub operations_kept : Grown Same old.operations new.operations
  pub retiring_kept : old.retiring ≡ true → new.retiring ≡ true
  pub retired_kept : old.retired ≡ true → new.retired ≡ true
  pub state_kept : StateKept old new

abbrev pub LedgerKept : BrokerLedger → BrokerLedger → Type 0
LedgerKept old new = Grown SessionKept old.sessions new.sessions

pub PromptKept-refl : (prompt : BrokerPrompt) → PromptKept prompt prompt
PromptKept-refl prompt = record {
  identity_kept = refl;
  closing_kept = λ x. x;
  settled_kept = λ x. x;
  sequence_kept = omega arith;
}

pub PromptKept-trans : (a b c : BrokerPrompt) → PromptKept a b → PromptKept b c → PromptKept a c
PromptKept-trans a b c h k = record {
  identity_kept = k.identity_kept ∙ h.identity_kept;
  closing_kept = λ x. k.closing_kept (h.closing_kept x);
  settled_kept = λ x. k.settled_kept (h.settled_kept x);
  sequence_kept = omega (arith, h.sequence_kept, k.sequence_kept);
}

-- A session whose flags, creation and operations are untouched.
pub same_flags-Kept :
    (s s' : BrokerSession)
    → Grown PromptKept s.prompts s'.prompts
    → s'.operations ≡ s.operations
    → s'.retiring ≡ s.retiring
    → s'.retired ≡ s.retired
    → s'.create_state ≡ s.create_state
    → SessionKept s s'
same_flags-Kept s s' grown operations retiring retired state = record {
  prompts_kept = grown;
  operations_kept =
      subst (Grown Same s.operations) (sym operations) (Grown-refl Same (λ v. refl) s.operations);
  retiring_kept = λ x. retiring ∙ x;
  retired_kept = λ x. retired ∙ x;
  state_kept = λ x. inr (inl state);
}

pub SessionKept-refl : (s : BrokerSession) → SessionKept s s
SessionKept-refl s =
    same_flags-Kept s s (Grown-refl PromptKept PromptKept-refl s.prompts) refl refl refl refl

state_trans : (a b c : BrokerSession) → SessionKept a b → SessionKept b c → StateKept a c
state_trans a b c h k leaving =
    let first = h.state_kept leaving in
    let second = k.state_kept (h.retiring_kept leaving) in
    let ended = k.retired_kept in ground arith

pub SessionKept-trans :
    (a b c : BrokerSession) → SessionKept a b → SessionKept b c → SessionKept a c
SessionKept-trans a b c h k = record {
  prompts_kept =
      Grown-trans PromptKept PromptKept-trans a.prompts b.prompts c.prompts h.prompts_kept
        k.prompts_kept;
  operations_kept =
      Grown-trans Same (λ u v w r r'. r ∙ r') a.operations b.operations c.operations
        h.operations_kept k.operations_kept;
  retiring_kept = λ x. k.retiring_kept (h.retiring_kept x);
  retired_kept = λ x. k.retired_kept (h.retired_kept x);
  state_kept = state_trans a b c h k;
}

pub LedgerKept-refl : (l : BrokerLedger) → LedgerKept l l
LedgerKept-refl l = Grown-refl SessionKept SessionKept-refl l.sessions

pub LedgerKept-trans : (a b c : BrokerLedger) → LedgerKept a b → LedgerKept b c → LedgerKept a c
LedgerKept-trans a b c = Grown-trans SessionKept SessionKept-trans a.sessions b.sessions c.sessions

-- The writes: a session in the ledger, a prompt in the session.
pub put_session-Kept :
    (p : Platform) (c : BrokerContext) (s : BrokerSession) (next : BrokerLedger)
    → ((old : BrokerSession)
        → get (owner_key p c.owner) next.sessions ≡ some old
        → SessionKept old s)
    → LedgerKept next (put_session p c s next)
unfolding put_session
put_session-Kept p c s next step =
    Grown-insert SessionKept SessionKept-refl (owner_key p c.owner) s next.sessions step

pub put_prompt-Kept :
    (p : Platform) (c : BrokerContext) (prompt : BrokerPrompt) (s : BrokerSession)
    → ((old : BrokerPrompt) → get (prompt_key p c) s.prompts ≡ some old → PromptKept old prompt)
    → SessionKept s (put_prompt p c prompt s)
unfolding put_prompt
put_prompt-Kept p c prompt s step =
    same_flags-Kept s _
      (Grown-insert PromptKept PromptKept-refl (prompt_key p c) prompt s.prompts step) refl refl
      refl refl

pub map_prompts-Kept :
    (f : BrokerPrompt → BrokerPrompt) (s : BrokerSession)
    → ((prompt : BrokerPrompt) → PromptKept prompt (f prompt))
    → SessionKept s (record s { prompts = map_values f s.prompts })
map_prompts-Kept f s step =
    same_flags-Kept s _ (Grown-map_values PromptKept f s.prompts step) refl refl refl refl
