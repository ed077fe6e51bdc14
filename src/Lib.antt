-- ===== src/Lib.antt =====
-- Agent Runtime Foundry: a model of the durable broker, of the adapter that runs turns, and of the
-- protocols beside them.
--
-- The program runs agents that are hosted by a provider. The broker (internal/broker) stands between a
-- child, which asks for responses, and the provider: it keeps in one ledger which sessions, prompts and
-- invocations it owns, makes each remote action durable before it is sent, and gives a supervisor
-- proofs that nothing is left running. internal/foundry has the types and checks that the broker
-- shares with the child, internal/harness the protocol by which a controller starts, continues and
-- cancels turns, and internal/adapter the service that runs such a turn at the provider, with its
-- frames, its brokered tools and its end.
--
-- Files and the code that they model:
--   Base            shared helpers: Boolean tests, lists, Go maps (association lists), Go strings
--   Foundry         internal/foundry: Limits (limits.go), Strings (SafeString, FirstNonBlank,
--                   ValidateIdentifier, ValidateCallID, ValidateFunctionName), Digest (digest.go),
--                   Session (session.go), Responses (responses.go without the stream reader)
--   Broker/Types    the errors, the contexts (protocol.go) and the ledger (store.go)
--   Broker/Platform what the broker takes from the standard library and google/uuid, as a record of
--                   functions, and the keys and digests made with it
--   Broker/Context  brokerParseContext
--   Broker/Ledger   brokerEnsureSession, brokerEnsurePrompt, brokerRecordOperation
--   Broker/Process  the running broker, commitCapacityLocked, failStorageLocked, saveBytes
--   Broker/Control  control: renewal, settlement and retirement
--   Broker/Reserve  reserveInvocation, brokerTranslatePrevious; Answered: the tool outputs it accepts
--   Broker/Invoke   the durable steps of invoke, finishInvocation, closePrompt, pinPrincipal
--   Broker/Response recordResponseIdentity, commitCompletedResponse; Aliases: the calls it releases;
--                   Stored: what the ledger has of them
--   Broker/Reconcile the restart of newLifecycleBroker, the sweep and reconcile; Settlement: what a
--                   committed reconciliation has done
--   Broker/View     controlResponseLocked, canAcknowledgeCreateRenewalLocked; Counted: its loops;
--                   Honest: its reports
--   Broker/Validity brokerLedgerValid (store_validation.go); Recovery: what it accepts
--   Broker/Sound    the well-formedness of a ledger, and each change of it
--   Broker/Progress what no change takes back, and each change of it
--   Broker/System   the step relation over the ledger and the waiting plans
--   Adapter         internal/adapter/adapter.go: Types (turnState, the errors, the limits of config.go),
--                   Checks (the checks of foundry/tools.go with their texts, providerSafeMessage and
--                   its kin), Tools (the tools of a turn and their schemas), Requests (what is made of
--                   a start request, fingerprints, the new turn), Frames (appendFrameLocked, the
--                   output, the callbacks of the stream, framesAfter), Finish (the end of a turn),
--                   Calls (recordFunctionCall), Stage and Continue (continueTurn,
--                   prepareContinuationLocked), Run (runResponse, the timers, cancellation),
--                   Retain (tombstones, runtime sessions, the prune functions), Start (startTurn,
--                   getTurn, cancelTurn)
--   Adapter/Sound   what holds of a turn, and each section that changes it
--   Adapter/Lifecycle the step relation of a turn; History (what holds for its life), Dispatch (what a
--                   continuation hands on), Failure (when a failure may be tried again)
--   Adapter/System  the step relation of the adapter as a whole: any sections of any turns, in any
--                   order; Turns, Inactive and Added (what they keep), Exclusive (active turns of a
--                   session), Buried (turns that are over)
--   Harness         internal/harness: Types and Messages (the messages of protocol.go), Checks,
--                   Validate and ValidateMessages (their checks, ValidateTurnPathSegment and
--                   validateAcceptedTurn), Accepted (what a passed check guarantees)
--   Tests           runs and examples, beside the modules that they are of
--
-- State and operations. The source runs each operation under one mutex: it copies the ledger, changes
-- the copy, writes it to disk and installs it. Here a change is a function from the ledger to a result
-- with the changed ledger, and a commit is a function from the process and a change to a result and a
-- process. An error is a value; a nil dereference is the error `nil_dereference`. reconcile reads the
-- ledger, asks the provider with the mutex free and commits later: `reconcile_plan` and
-- `reconcile_change` are its two locked parts, and Broker/System lets any steps come between them. The
-- step of a creation that ends has the condition that its intent is in the ledger, since the live
-- requests are not part of that relation. One instant stands for the calls of time.Now in one change.
--
-- The adapter runs each section of a turn under one mutex, on a turnState that its goroutines share.
-- Here such a section is a function from the turn to the turn and an error or what is handed on: a turn
-- keeps what was changed before an error. Adapter/Lifecycle lets the sections come in any order, with
-- any answers of the provider, and Adapter/System the sections of all its turns; `now` is one reading
-- of the clock for each section.
--
-- Bounds. Counters of 64 and 32 bits wrap where the source adds to them; the limits of sizes, numbers of
-- prompts and operations are those of the source. All loops are structural recursions over lists but
-- those that prune the adapter's maps: they have fuel for each entry, and each round deletes one.
--
-- Parameters. SHA-256, the JSON texts, time parsing and UUIDs are fields of `Platform`, and of
-- `AdapterPlatform` for the adapter; encoding/json at the ledger is a `Codec`; the file system is the
-- outcome of a save; the answers of the provider are arguments of the changes that depend on them.
--
-- Not modelled: HTTP transport, tokens, the file system and locks, logging and diagnostics, the stream
-- readers, the hosted gateway, the ACP server, and the conformance runner.
pub mod Base
pub mod Foundry
pub mod Broker
pub mod Adapter
pub mod Harness
