-- ===== src/Broker/Process.antt =====
-- The state of a running broker and its one way to write the ledger: commitLocked,
-- commitCapacityLocked and failStorageLocked of internal/broker/broker.go, with
-- brokerLedgerReserveBytes and saveBytes of store.go. The mutex is held throughout each of these, so
-- they are single steps.
pub mod Commit
use agent_runtime_foundry.Base.Map.{Map, map_values}
use agent_runtime_foundry.Broker.Types.{
  Result, ok, err, storage, capacity, BrokerSession, BrokerLedger,
}
use agent_runtime_foundry.Base.{
  ℕ, ◌+◌, ◌-◌, ◌*◌, ◌^◌, String, Bool, true, false, not, ◌&&◌, Option, none, some, List, [], ◌∷◌,
  map, ltb, ◌==◌, string_eq, if◌then◌else◌,
}

-- encoding/json at the ledger: the documents, and how long they are.
pub record Codec : Type 1 where
  pub Document : Type 0
  pub marshal : BrokerLedger → Option Document
  pub unmarshal : Document → Option BrokerLedger
  pub length : Document → ℕ
  pub equal : Document → Document → Bool

-- brokerActive; `cancelled` is whether its cancel function was called.
pub record BrokerActive : Type 0 where
  pub prompt : String
  pub cancelled : Bool

-- lifecycleBroker. `disk` is the ledger in state.json, `stopped` is `ctx.Err() != nil`.
pub record Process : Type 0 where
  pub ledger : BrokerLedger
  pub disk : BrokerLedger
  pub storage_error : Bool
  pub stopped : Bool
  pub active : Map String BrokerActive
  pub workers : Map String Bool
  pub next_reconcile : Map String ℕ

-- What the file system makes of a save: the new file is in place, the write failed before the
-- rename, or the rename is done and the directory's sync failed.
pub data SaveOutcome : Type 0 where
  saved lost unsynced : SaveOutcome

abbrev pub broker_max_ledger_bytes : ℕ
broker_max_ledger_bytes = 32 * 2 ^ 20

abbrev broker_owner_reserve_bytes : ℕ
broker_owner_reserve_bytes = 64 * 2 ^ 10

abbrev broker_principal_reserve_bytes : ℕ
broker_principal_reserve_bytes = 128

unfoldable pub sessions_reserve : Map String BrokerSession → ℕ
sessions_reserve [] = 0
sessions_reserve ((key, session) ∷ rest) =
    (if session.retired then 0 else broker_owner_reserve_bytes) + sessions_reserve rest

-- brokerLedgerReserveBytes
unfoldable pub ledger_reserve : BrokerLedger → ℕ
ledger_reserve ledger =
    (if ledger.principal_digest == "" then broker_principal_reserve_bytes else 0)
    + sessions_reserve ledger.sessions

unfoldable pub cancel_active : BrokerActive → BrokerActive
cancel_active a = record a { cancelled = true }

-- failStorageLocked: `b.cancel` and the cancel function of every live request.
unfoldable pub fail_storage : Process → Process
unfolding cancel_active
fail_storage b = record b {
  storage_error = true;
  stopped = true;
  active = map_values cancel_active b.active;
}

-- The length limit of a document. The reserve may be larger than the limit: then the Go integer is
-- negative and refuses every document, as a limit below every length does.
unfoldable pub over_limit : ℕ → ℕ → ℕ → Bool
over_limit length limit reserve = ltb limit (length + reserve)

-- saveBytes, with its limit and the file system's outcome.
unfoldable pub save_bytes : SaveOutcome → ℕ → BrokerLedger → Process → Process
save_bytes saved length next b =
    if ltb broker_max_ledger_bytes length
    then fail_storage b
    else record b { ledger = next; disk = next }
save_bytes lost length next b = fail_storage b
save_bytes unsynced length next b =
    if ltb broker_max_ledger_bytes length
    then fail_storage b
    else fail_storage (record b { disk = next })

module _ (codec : Codec) where
  open codec use {Document, marshal, unmarshal, equal}

  -- The end of a commit: the size check, then the save. `data` and `next_data` are the documents of
  -- the old and the new ledger.
  unfoldable pub store_next :
      SaveOutcome
      → Bool
      → Document
      → Document
      → BrokerLedger
      → Process
      → Result (Unit {0}) × Process
  store_next outcome ordinary old_data next_data next b =
      let reserve = if ordinary && not (equal old_data next_data) then ledger_reserve next else 0 in
      if over_limit (codec.length next_data) broker_max_ledger_bytes reserve
      then (err capacity, b)
      else let after = save_bytes outcome (codec.length next_data) next b in
        (if after.storage_error then err storage else ok tt, after)

  -- After the new ledger is marshalled, if it could be.
  store_marshalled :
      SaveOutcome
      → Bool
      → Document
      → BrokerLedger
      → Option Document
      → Process
      → Result (Unit {0}) × Process
  store_marshalled outcome ordinary old_data next none b = (err storage, fail_storage b)
  store_marshalled outcome ordinary old_data next (some next_data) b =
      store_next outcome ordinary old_data next_data next b

  commit_next :
      SaveOutcome → Bool → Document → Result BrokerLedger → Process → Result (Unit {0}) × Process
  commit_next outcome ordinary old_data (err e) b = (err e, b)
  commit_next outcome ordinary old_data (ok next) b =
      store_marshalled outcome ordinary old_data next (marshal next) b

  -- The private copy of the ledger, with the document that it went through.
  copy_ledger : Option Document → Option (Document × BrokerLedger)
  copy_ledger none = none
  copy_ledger (some document) = elim (unmarshal document) [
    | none ↦ none
    | some next ↦ some (document, next)
  ]

  commit_copy :
      SaveOutcome
      → Bool
      → (BrokerLedger → Result BrokerLedger)
      → Option (Document × BrokerLedger)
      → Process
      → Result (Unit {0}) × Process
  commit_copy outcome ordinary change none b = (err storage, fail_storage b)
  commit_copy outcome ordinary change (some (document, next)) b =
      commit_next outcome ordinary document (change next) b

  -- commitCapacityLocked
  unfoldable pub commit_capacity :
      SaveOutcome
      → Bool
      → (BrokerLedger → Result BrokerLedger)
      → Process
      → Result (Unit {0}) × Process
  unfolding commit_copy commit_next store_marshalled copy_ledger
  commit_capacity outcome ordinary change b =
      if b.storage_error
      then (err storage, b)
      else commit_copy outcome ordinary change (copy_ledger (marshal b.ledger)) b
