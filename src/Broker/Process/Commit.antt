-- ===== src/Broker/Process/Commit.antt =====
-- What a commit does on every branch: it installs the whole change, in memory and on disk, or none.
use agent_runtime_foundry.Base.Map.{Map, map_values}
use agent_runtime_foundry.Broker.Types.{
  Result, ok, err, storage, capacity, BrokerError, BrokerLedger,
}
use agent_runtime_foundry.Broker.Process.{
  Codec, Process, BrokerActive, cancel_active, over_limit, ledger_reserve, broker_max_ledger_bytes,
  SaveOutcome, saved, lost, unsynced, commit_capacity, store_marshalled, commit_next, commit_copy,
  copy_ledger, store_next, save_bytes, fail_storage,
}
use agent_runtime_foundry.Base.{
  ◌≡◌, ◌≢◌, ◌+◌, ◌*◌, ◌^◌, ◌<◌, refl, sym, ap, subst, Bool, true, false, Option, none, some, arith,
  ◌⊎◌, inl, inr, if◌then◌else◌, if_elim, ℕ, String, [], ◌∷◌, not, ◌&&◌, ltb,
}

-- encoding/json gives back the ledger that it wrote.
abbrev pub RoundTrips : Codec → Type 0
RoundTrips codec =
    (l : BrokerLedger) (d : codec.Document) → codec.marshal l ≡ some d → codec.unmarshal d ≡ some l

-- The live requests after a storage failure: the same ones, each of them cancelled.
abbrev pub AllCancelled : Map String BrokerActive → Map String BrokerActive → Type 0
AllCancelled [] [] = Unit
AllCancelled ((k, a) ∷ rest) ((k', a') ∷ rest') =
    (k' ≡ k) × (a'.prompt ≡ a.prompt) × (a'.cancelled ≡ true) × AllCancelled rest rest'
AllCancelled _ _ = ⊥

-- The process after a storage failure: it keeps its ledger, is stopped, takes no more commits, and
-- every live request is cancelled. The disk holds the old ledger or the change of it.
pub record Failed (b : Process) (change : BrokerLedger → Result BrokerLedger) (after : Process)
    : Type 0 where
  pub same_ledger : after.ledger ≡ b.ledger
  pub old_or_new : (after.disk ≡ b.disk) ⊎ (change b.ledger ≡ ok after.disk)
  pub is_failed : after.storage_error ≡ true
  pub is_stopped : after.stopped ≡ true
  pub all_cancelled : AllCancelled b.active after.active
  pub same_workers : after.workers ≡ b.workers
  pub same_reconcile : after.next_reconcile ≡ b.next_reconcile

-- Why storage fails: the file system did not save, or a ledger has no JSON text.
abbrev pub FailedFor : Codec → SaveOutcome → Process → (BrokerLedger → Result BrokerLedger) → Type 0
FailedFor codec outcome b change =
    (outcome ≢ saved)
    ⊎ (codec.marshal b.ledger ≡ none)
    ⊎ ((next : BrokerLedger) × (change b.ledger ≡ ok next) × (codec.marshal next ≡ none))

-- Why a commit is refused: the change is, or the changed ledger with its reserve is over 32 MiB.
abbrev pub RefusedFor :
    Codec → Process → (BrokerLedger → Result BrokerLedger) → Result (Unit {0}) → Type 0
RefusedFor codec b change r =
    ((e : BrokerError) × (change b.ledger ≡ err e) × (r ≡ err e))
    ⊎ ((next : BrokerLedger) × (d : codec.Document) × (change b.ledger ≡ ok next)
        × (codec.marshal next ≡ some d)
        × (32 * 2 ^ 20 < codec.length d + ledger_reserve next)
        × (r ≡ err capacity))

-- The three ways a commit ends, each with its reason: refused, with nothing touched; failed; or with
-- the change in memory and on disk and nothing else touched.
abbrev pub Committed :
    Codec
    → SaveOutcome
    → Process
    → (BrokerLedger → Result BrokerLedger)
    → Result (Unit {0}) × Process
    → Type 0
Committed codec outcome b change (r, after) =
    (RefusedFor codec b change r × (after ≡ b))
    ⊎ ((r ≡ err storage) × FailedFor codec outcome b change × Failed b change after)
    ⊎ ((r ≡ ok tt)
        × (change b.ledger ≡ ok after.ledger)
        × (after ≡ record b { ledger = after.ledger; disk = after.ledger }))

cancelled_all : (m : Map String BrokerActive) → AllCancelled m (map_values cancel_active m)
unfolding map_values cancel_active
cancelled_all [] = tt
cancelled_all ((k, a) ∷ rest) = (refl, refl, refl, cancelled_all rest)

-- A failure with the new ledger on the disk, or the old one.
fail_storage-Failed :
    (b : Process) (change : BrokerLedger → Result BrokerLedger) (disk : BrokerLedger)
    → (disk ≡ b.disk) ⊎ (change b.ledger ≡ ok disk)
    → Failed b change (fail_storage (record b { disk = disk }))
unfolding fail_storage
fail_storage-Failed b change disk where_it_is = record {
  same_ledger = refl;
  old_or_new = where_it_is;
  is_failed = refl;
  is_stopped = refl;
  all_cancelled = cancelled_all b.active;
  same_workers = refl;
  same_reconcile = refl;
}

-- What a commit returns after its save.
save_result : Process → Result (Unit {0}) × Process
save_result after = (if after.storage_error then err storage else ok tt, after)

lost-saved : lost ≢ saved
lost-saved h = cc

unsynced-saved : unsynced ≢ saved
unsynced-saved h = cc

module _ (codec : Codec) (b : Process) (change : BrokerLedger → Result BrokerLedger) where
  save_failed :
      (outcome : SaveOutcome) (disk : BrokerLedger)
      → FailedFor codec outcome b change
      → (disk ≡ b.disk) ⊎ (change b.ledger ≡ ok disk)
      → Committed codec outcome b change (save_result (fail_storage (record b { disk = disk })))
  unfolding save_result fail_storage
  save_failed outcome disk why where_it_is =
      inr (inl (refl, why, fail_storage-Failed b change disk where_it_is))

  save_bytes-Committed :
      (outcome : SaveOutcome) (length : ℕ) (next : BrokerLedger)
      → b.storage_error ≡ false
      → change b.ledger ≡ ok next
      → ltb broker_max_ledger_bytes length ≡ false
      → Committed codec outcome b change (save_result (save_bytes outcome length next b))
  unfolding save_bytes save_result
  save_bytes-Committed saved length next h e fits =
      if_elim (λ (after : Process). Committed codec saved b change (save_result after))
        (ltb broker_max_ledger_bytes length) _ _ (λ over. absurd (cc))
        (λ _. inr (inr (rw h refl, e, refl)))
  save_bytes-Committed lost length next h e fits =
      save_failed lost b.disk (inl lost-saved) (inl refl)
  save_bytes-Committed unsynced length next h e fits =
      if_elim (λ (after : Process). Committed codec unsynced b change (save_result after))
        (ltb broker_max_ledger_bytes length) _ _ (λ over. absurd (cc))
        (λ _. save_failed unsynced next (inl unsynced-saved) (inr e))

within_reserve :
    (length reserve : ℕ) (test : Bool)
    → over_limit length broker_max_ledger_bytes (if test then reserve else 0) ≡ true
    → 32 * 2 ^ 20 < length + reserve
unfolding over_limit
within_reserve length reserve test h = ground (arith, h)

fits_alone :
    (length reserve : ℕ)
    → over_limit length broker_max_ledger_bytes reserve ≡ false
    → ltb broker_max_ledger_bytes length ≡ false
unfolding over_limit
fits_alone length reserve h = ground (arith, h)

module _ (codec : Codec) where
  store_next-Committed :
      (outcome : SaveOutcome) (ordinary : Bool) (d d' : codec.Document) (next : BrokerLedger)
      (b : Process) (change : BrokerLedger → Result BrokerLedger)
      → b.storage_error ≡ false
      → change b.ledger ≡ ok next
      → codec.marshal next ≡ some d'
      → Committed codec outcome b change (store_next codec outcome ordinary d d' next b)
  unfolding store_next save_result
  store_next-Committed outcome ordinary d d' next b change h e m =
      let test = ordinary && not (codec.equal d d') in
      let reserve = if test then ledger_reserve next else 0 in
      if_elim (Committed codec outcome b change)
        (over_limit (codec.length d') broker_max_ledger_bytes reserve) _ _
        (λ over. inl (
          inr (
            next,
            d',
            e,
            m,
            within_reserve (codec.length d') (ledger_reserve next) test over,
            refl,
          ),
          refl,
        ))
        (λ fits.
          save_bytes-Committed codec b change outcome (codec.length d') next h e
            (fits_alone (codec.length d') reserve fits))

  copy_ledger-RoundTrips :
      (l : BrokerLedger) (o : Option codec.Document) (d : codec.Document) (next : BrokerLedger)
      → RoundTrips codec
      → codec.marshal l ≡ o
      → copy_ledger codec o ≡ some (d, next)
      → next ≡ l
  unfolding copy_ledger
  copy_ledger-RoundTrips l none d next trips m h = cc
  copy_ledger-RoundTrips l (some d') d next trips m h = ground (arith, trips l d')

  store_marshalled-Committed :
      (outcome : SaveOutcome) (ordinary : Bool) (d : codec.Document) (next : BrokerLedger)
      (o : Option codec.Document) (b : Process) (change : BrokerLedger → Result BrokerLedger)
      → b.storage_error ≡ false
      → change b.ledger ≡ ok next
      → codec.marshal next ≡ o
      → Committed codec outcome b change (store_marshalled codec outcome ordinary d next o b)
  unfolding store_marshalled
  store_marshalled-Committed outcome ordinary d next none b change h e m =
      inr (inl (refl, inr (inr (next, e, m)), fail_storage-Failed b change b.disk (inl refl)))
  store_marshalled-Committed outcome ordinary d next (some d') b change h e m =
      store_next-Committed outcome ordinary d d' next b change h e m

  commit_next-Committed :
      (outcome : SaveOutcome) (ordinary : Bool) (d : codec.Document) (b : Process)
      (change : BrokerLedger → Result BrokerLedger) (r : Result BrokerLedger)
      → b.storage_error ≡ false
      → change b.ledger ≡ r
      → Committed codec outcome b change (commit_next codec outcome ordinary d r b)
  unfolding commit_next
  commit_next-Committed outcome ordinary d b change (err x) h e = inl (inl (x, e, refl), refl)
  commit_next-Committed outcome ordinary d b change (ok next) h e =
      store_marshalled-Committed outcome ordinary d next (codec.marshal next) b change h e refl

  -- A copy that fails has met a ledger with no text, if encoding/json gives back what it wrote.
  copy_ledger-none :
      (l : BrokerLedger) (o : Option codec.Document)
      → RoundTrips codec
      → codec.marshal l ≡ o
      → copy_ledger codec o ≡ none
      → o ≡ none
  unfolding copy_ledger
  copy_ledger-none l none trips m h = refl
  copy_ledger-none l (some d) trips m h = ground (arith, trips l d)

  commit_copy-Committed :
      (outcome : SaveOutcome) (ordinary : Bool) (change : BrokerLedger → Result BrokerLedger)
      (o : Option (codec.Document × BrokerLedger)) (b : Process)
      → b.storage_error ≡ false
      → ((d : codec.Document) (next : BrokerLedger) → o ≡ some (d, next) → next ≡ b.ledger)
      → (o ≡ none → codec.marshal b.ledger ≡ none)
      → Committed codec outcome b change (commit_copy codec outcome ordinary change o b)
  unfolding commit_copy
  commit_copy-Committed outcome ordinary change none b h same textless =
      inr (inl (refl, inr (inl (textless refl)), fail_storage-Failed b change b.disk (inl refl)))
  commit_copy-Committed outcome ordinary change (some (d, next)) b h same textless =
      commit_next-Committed outcome ordinary d b change (change next) h
        (ap change (sym (same d next refl)))

  -- If encoding/json gives back what it wrote, then a commit of a healthy broker ends in one of three
  -- ways. It is refused and nothing is touched, with the change's own error or because the changed
  -- ledger with its reserve is over 32 MiB. Or storage fails, since the file system did not save or a
  -- ledger has no JSON text: that stops the process, sets the storage error, cancels every live
  -- request, and leaves the old ledger in memory and the old or the changed one on disk. Or the change
  -- of the current ledger is in memory and on disk and nothing else is touched.
  pub commit_capacity-Committed :
      (outcome : SaveOutcome) (ordinary : Bool) (change : BrokerLedger → Result BrokerLedger)
      (b : Process)
      → RoundTrips codec
      → b.storage_error ≡ false
      → Committed codec outcome b change (commit_capacity codec outcome ordinary change b)
  unfolding commit_capacity
  commit_capacity-Committed outcome ordinary change b trips h =
      let copy = copy_ledger codec (codec.marshal b.ledger) in
      subst
        (λ failed.
          Committed codec outcome b change
            (if failed then (err storage, b) else commit_copy codec outcome ordinary change copy b))
        (sym h)
        (commit_copy-Committed outcome ordinary change copy b h
          (λ d next e. copy_ledger-RoundTrips b.ledger (codec.marshal b.ledger) d next trips refl e)
          (copy_ledger-none b.ledger (codec.marshal b.ledger) trips refl))
