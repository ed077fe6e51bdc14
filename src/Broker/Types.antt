-- ===== src/Broker/Types.antt =====
-- The broker's data: internal/broker/protocol.go (owners, contexts, responses, errors) and store.go
-- (the ledger). A `time.Time` is the number of nanoseconds since an origin before every instant that
-- RFC 3339 can write. The state words of the ledger are data types; `unknown` holds any other word,
-- which only a ledger that is read from disk can have.
use agent_runtime_foundry.Base.Map.{Map}
use agent_runtime_foundry.Base.{ℕ, String, ◌≡◌, refl, ap, Bool, true, false, Option, arith}

-- The error values of protocol.go, store.go and remote.go. `unsent e` is
-- `errors.Join(errBrokerRequestUnsent, e)`; `nil_dereference` is the panic on a nil pointer.
pub data BrokerError : Type 0 where
  invalid conflict closed pending storage remote ambiguous capacity nil_dereference : BrokerError
  unsent : BrokerError → BrokerError

pub data Result {ℓ} (A : Type ℓ) : Type ℓ where
  ok : A → Result A
  err : BrokerError → Result A

infixl 5 ◌>>◌
infixl 5 ◌>>=◌
abbrev pub ◌>>=◌ {κ ℓ} : {B : Type κ} {A : Type ℓ} → Result A → (A → Result B) → Result B
err failure >>= next = err failure
ok value >>= next = next value

abbrev pub ◌>>◌ {ℓ} : {B : Type ℓ} → Result (Unit {0}) → Result B → Result B
first >> second = first >>= λ done. second

-- An early return: the error where the test holds.
abbrev pub refuse : Bool → BrokerError → Result (Unit {0})
refuse true e = err e
refuse false e = ok tt

-- Use of a pointer that may be nil.
abbrev pub deref {ℓ} : {A : Type ℓ} → Option A → Result A
deref Option.none = err nil_dereference
deref (Option.some a) = ok a

-- The paths of internal/brokerapi/paths.go that the broker serves after its health check.
pub data BrokerPath : Type 0 where
  responses renew settle retire status : BrokerPath

unfoldable pub path_text : BrokerPath → String
path_text responses = "/v1/responses"
path_text renew = "/internal/v1/renew"
path_text settle = "/internal/v1/settle"
path_text retire = "/internal/v1/retire"
path_text status = "/internal/v1/status"

pub record BrokerOwner : Type 0 where
  pub runtime_instance_id : String
  pub supervisor_boot_id : String
  pub controller_epoch : ℕ
  pub runtime_pool_uid : String
  pub runtime_pool_generation : ℕ
  pub runtime_session_uid : String
  pub runtime_session_generation : ℕ
  pub runtime_profile_digest : String
  pub profile_digest_schema_version : ℕ

pub record BrokerContext : Type 0 where
  pub protocol : String
  pub owner : BrokerOwner
  pub agent_configuration_digest : String
  pub task_uid : String
  pub task_attempt : ℕ
  pub prompt_id : String
  pub prompt_request_digest : String
  pub lease_generation : ℕ
  pub lease_expires_at : String
  pub operation_id : String
  pub invocation_sequence : ℕ
  pub body_sha256 : String

pub data CreateState : Type 0 where
  none intent known deleted : CreateState
  unknown : String → CreateState

pub data InvocationState : Type 0 where
  reserved intent accepted completed rejected uncertain settled : InvocationState
  unknown : String → InvocationState

pub record BrokerInvocation : Type 0 where
  pub sequence : ℕ
  pub operation_id : String
  pub body_digest : String
  pub state : InvocationState
  pub response_id : String
  pub response_alias : String

pub record BrokerResponseId : Type 0 where
  pub remote_id : String
  pub prompt_key : String
  pub completed : Bool
  pub has_functions : Bool
  pub call_ids : Map String String

pub record BrokerPrompt : Type 0 where
  pub identity : BrokerContext
  pub lease_generation : ℕ
  pub lease_expires_at : ℕ
  pub closing : Bool
  pub settled : Bool
  pub proof_digest : String
  pub last_sequence : ℕ
  pub last_alias : String
  pub invocations : Map ℕ BrokerInvocation

pub record BrokerSession : Type 0 where
  pub owner : BrokerOwner
  pub remote_id : String
  pub create_state : CreateState
  pub retiring : Bool
  pub retired : Bool
  pub proof_digest : String
  pub current_prompt : String
  pub prompts : Map String BrokerPrompt
  pub responses : Map String BrokerResponseId
  pub operations : Map String String

pub record BrokerLedger : Type 0 where
  pub version : ℕ
  pub config_digest : String
  pub principal_digest : String
  pub sessions : Map String BrokerSession

pub ok-injective {ℓ} : {A : Type ℓ} {a b : A} → ok a ≡ ok b → a ≡ b
ok-injective {A} {a} {b} h = ap (value a) h
  where
    value : A → Result A → A
    value d (ok x) = x
    value d (err e) = d

-- Inversion of a step that succeeded.
pub bind-ok {ℓ κ} :
    {A : Type ℓ} {B : Type κ} (first : Result A) (next : A → Result B) {result : B}
    → (first >>= next) ≡ ok result
    → (value : A) × (first ≡ ok value) × (next value ≡ ok result)
bind-ok (err failure) next h = cc
bind-ok (ok value) next h = (value, refl, h)

pub refuse-ok {ℓ} :
    {B : Type ℓ} (test : Bool) (e : BrokerError) (k : Result B) {b : B}
    → (refuse test e >> k) ≡ ok b
    → (test ≡ false) × (k ≡ ok b)
refuse-ok true e k h = cc
refuse-ok false e k h = (refl, h)

-- A pointer that was used is not nil.
pub deref-ok {ℓ} : {A : Type ℓ} (o : Option A) {a : A} → deref o ≡ ok a → o ≡ Option.some a
deref-ok Option.none h = cc
deref-ok (Option.some b) h = ground arith
