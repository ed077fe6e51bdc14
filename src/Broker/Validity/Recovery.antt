-- ===== src/Broker/Validity/Recovery.antt =====
-- A ledger that the recovery check accepts is well-formed: what the broker starts from.
use agent_runtime_foundry.Base.Map.{Map, get, Every, all-get}
use agent_runtime_foundry.Broker.Types.{BrokerPrompt, BrokerSession, BrokerLedger}
use agent_runtime_foundry.Broker.Platform.{Platform}
use agent_runtime_foundry.Broker.Sound.{PromptSound, SessionSound, PromptsSound, LedgerSound}
use agent_runtime_foundry.Broker.Validity.{
  flags_valid, prompt_valid, prompts_valid, creation_valid, retirement_valid, session_fields_valid,
  session_valid, ledger_valid, all_linked, entry_valid,
}
use agent_runtime_foundry.Base.{
  String, ◌≡◌, refl, Bool, true, Option, none, some, [], ◌∷◌, all, arith, inl, inr, Bool-cases,
  Option-cases, string_eq, ◌==◌, text_eq_iff,
}

flags_valid-Sound :
    (s : BrokerSession) (key : String) (prompt : BrokerPrompt)
    → flags_valid s key prompt ≡ true
    → PromptSound s.current_prompt s.retiring s.retired key prompt
unfolding flags_valid
flags_valid-Sound s key prompt h = record {
  settled_closing = λ x. ground arith;
  open_current = λ x. (text_eq_iff key s.current_prompt).0 (ground arith);
  retiring_closing = λ x. ground arith;
  retired_settled = λ x. ground arith;
}

prompt_valid_flags :
    (p : Platform) (config_digest : String) (s : BrokerSession) (key : String)
    (prompt : BrokerPrompt) (linked after : Map String Bool)
    → prompt_valid p config_digest s key prompt linked ≡ some after
    → flags_valid s key prompt ≡ true
unfolding prompt_valid
prompt_valid_flags p config_digest s key prompt linked after h = ground arith

-- The prompt that a lookup finds is one that the loop has checked.
prompts_valid-Every :
    (p : Platform) (config_digest : String) (s : BrokerSession) (m : Map String BrokerPrompt)
    (linked after : Map String Bool)
    → prompts_valid p config_digest s m linked ≡ some after
    → Every (λ key prompt. flags_valid s key prompt ≡ true) m
unfolding prompts_valid get
prompts_valid-Every p config_digest s [] linked after h k v g = cc
prompts_valid-Every p config_digest s ((key, prompt) ∷ rest) linked after h k v g =
    elim (Option-cases (prompt_valid p config_digest s key prompt linked)) [
      | inl bad ↦ ground (arith, bad)
      | inr (linked', good) ↦ elim (Bool-cases (key == k)) [
        | inl same ↦
            let flags = prompt_valid_flags p config_digest s key prompt linked linked' good in
            ground (arith, same, flags, text_eq_iff key k)
        | inr differ ↦
            prompts_valid-Every p config_digest s rest linked' after (ground (arith, good)) k v
              (rw differ at g)
      ]
    ]

linked_prompts :
    (s : BrokerSession) (o : Option (Map String Bool))
    → all_linked s o ≡ true
    → (linked : Map String Bool) × (o ≡ some linked)
unfolding all_linked
linked_prompts s none h = cc
linked_prompts s (some linked) h = (linked, refl)

retirement_valid-Sound :
    (p : Platform) (s : BrokerSession)
    → creation_valid p s ≡ true
    → retirement_valid s ≡ true
    → PromptsSound s
    → SessionSound s
unfolding creation_valid retirement_valid
retirement_valid-Sound p s created ended prompts = record {
  prompts_sound = prompts;
  retired_retiring = λ r. ground arith;
  retired_state = λ r. ground arith;
  deleted_retired = λ r. ground arith;
  named_state = ground arith;
}

session_parts :
    (p : Platform) (config_digest key : String) (s : BrokerSession)
    → session_valid p config_digest key s ≡ true
    → (session_fields_valid p key s ≡ true)
      × (all_linked s (prompts_valid p config_digest s s.prompts []) ≡ true)
unfolding session_valid
session_parts p config_digest key s h = ground arith

session_fields :
    (p : Platform) (key : String) (s : BrokerSession)
    → session_fields_valid p key s ≡ true
    → (creation_valid p s ≡ true) × (retirement_valid s ≡ true)
unfolding session_fields_valid
session_fields p key s h = ground arith

session_valid-Sound :
    (p : Platform) (config_digest key : String) (s : BrokerSession)
    → session_valid p config_digest key s ≡ true
    → SessionSound s
session_valid-Sound p config_digest key s h =
    let (fields, linked) = session_parts p config_digest key s h in
    let (created, ended) = session_fields p key s fields in
    let (after, walked) = linked_prompts s (prompts_valid p config_digest s s.prompts []) linked in
    retirement_valid-Sound p s created ended (λ k prompt g.
      flags_valid-Sound s k prompt
        (prompts_valid-Every p config_digest s s.prompts [] after walked k prompt g))

entry_session :
    (p : Platform) (config_digest principal key : String) (s : BrokerSession)
    → entry_valid p config_digest principal (key, s) ≡ true
    → session_valid p config_digest key s ≡ true
unfolding entry_valid
entry_session p config_digest principal key s h = ground arith

ledger_entries :
    (p : Platform) (config_digest : String) (l : BrokerLedger)
    → ledger_valid p config_digest l ≡ true
    → all (entry_valid p config_digest l.principal_digest) l.sessions ≡ true
unfolding ledger_valid
ledger_entries p config_digest l h = ground arith

-- Every ledger that the recovery check accepts is well-formed.
pub ledger_valid-Sound :
    (p : Platform) (config_digest : String) (l : BrokerLedger)
    → ledger_valid p config_digest l ≡ true
    → LedgerSound l
ledger_valid-Sound p config_digest l h key s there = session_valid-Sound p config_digest key s (
    entry_session p config_digest l.principal_digest key s (
      all-get (entry_valid p config_digest l.principal_digest) l.sessions
        (ledger_entries p config_digest l h) key s there))
