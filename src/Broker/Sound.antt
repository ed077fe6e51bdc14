-- ===== src/Broker/Sound.antt =====
-- The well-formedness of a ledger: which flags of its sessions and prompts go together. It is the
-- part of brokerSessionValid and brokerPromptValid (internal/broker/store_validation.go) that speaks
-- of the flags.
pub mod Requests
pub mod Work
pub mod Cleanup
use agent_runtime_foundry.Base.Map.{Every}
use agent_runtime_foundry.Broker.Types.{BrokerPrompt, BrokerSession, BrokerLedger, CreateState}
use agent_runtime_foundry.Base.{String, string_eq, ◌≡◌, ◌⊎◌, Bool, true, false}

pub record PromptSound (current : String) (retiring retired : Bool) (key : String)
    (prompt : BrokerPrompt) : Type 0 where
  -- a settled prompt is closing
  pub settled_closing : prompt.settled ≡ true → prompt.closing ≡ true
  -- a prompt that is not settled is the session's current one
  pub open_current : prompt.settled ≡ false → key ≡ current
  -- in a retiring session every prompt is closing
  pub retiring_closing : retiring ≡ true → prompt.closing ≡ true
  -- in a retired session every prompt is settled
  pub retired_settled : retired ≡ true → prompt.settled ≡ true

abbrev pub is_unknown : CreateState → Bool
is_unknown (CreateState.unknown _) = true
is_unknown _ = false

abbrev pub PromptsSound : BrokerSession → Type 0
PromptsSound s = Every (PromptSound s.current_prompt s.retiring s.retired) s.prompts

pub record SessionSound (s : BrokerSession) : Type 0 where
  pub prompts_sound : PromptsSound s
  pub retired_retiring : s.retired ≡ true → s.retiring ≡ true
  pub retired_state :
      s.retired ≡ true
      → (s.create_state ≡ CreateState.none) ⊎ (s.create_state ≡ CreateState.deleted)
  pub deleted_retired : s.create_state ≡ CreateState.deleted → s.retired ≡ true
  pub named_state : is_unknown s.create_state ≡ false

abbrev pub LedgerSound : BrokerLedger → Type 0
LedgerSound l = Every (λ key s. SessionSound s) l.sessions
