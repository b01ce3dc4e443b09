-- ===== src/Lib.antt =====
-- Zeus Insurance: what happens to a payment and to the paid call.
--
-- A request is an operation. Its payment is a durable intent, whose settlement is found out on
-- the chain; once it is settled, a recovery job calls the seller, and the result is fed back to
-- the operation. Several workers act on the stores at once and may crash between any two writes.
--
-- The parts, with their sources:
--
-- - Operation: zeus-secretariat/src/core/operation-fsm.ts and the operation of
--   zeus-secretariat/src/core/types.ts. Fsm has the transition table and chains of legal
--   transitions; Ranking has a rank that every transition raises.
-- - Evidence: the evidence records of zeus-secretariat/src/core/types.ts, with the event and the
--   identifying part of the payload as one value.
-- - Intent: the payment intents of zeus-secretariat/src/core/types.ts, and
--   zeus-secretariat/src/store/in-memory-store.ts (`InMemoryEvidenceStore`) as Intent/Store, one
--   function per method. Store/Calls has sequences of the guarded calls.
-- - Execution: zeus-secretariat/src/core/post-settlement-engine.ts. Store is
--   `InMemoryExecutionStore`, Store/Calls sequences of its calls; Rows is the same interface on the
--   tables of lib/db/src/secretariat/postgres-execution-store.ts, Rows/Settlement its transaction
--   that settles an intent and creates the execution; Attempt is `initiateExecution` and
--   `executeAttempt`; Recovery and Job are `processJob` and `performRetrieval`; Scanner is
--   `ensureExecutionObligations` and `recoverPendingJobs`; Worker is
--   zeus-secretariat/src/core/execution-worker.ts without its poll loop.
-- - Feedback: zeus-secretariat/src/core/execution-feedback-service.ts and
--   zeus-secretariat/src/core/settlement-feedback-service.ts.
-- - Reconciliation: of zeus-secretariat/src/core/multi-rpc-checker.ts what is done with the
--   observations of the providers, in Checker; Transaction has transactions and their logs, Rounds
--   what a round of questions to the providers meets, and Engine is
--   zeus-secretariat/src/core/reconciliation-engine.ts, its two strategies as steps that name the
--   next one, in ByHash and ByState; Recovery is its `recoverAfterCrash`. Jobs has the
--   reconciliation jobs of lib/db/src/secretariat/postgres-store.ts, and Worker is
--   zeus-secretariat/src/core/reconciliation-worker.ts without its poll loop, with the engine as a
--   parameter.
-- - Submission: the sending of a signed payment. Rows has the conditional updates of payment
--   intents of lib/db/src/secretariat/postgres-store.ts on the rows of Intent/Store, World the
--   sequences of such updates and of sendings, with the payments that were sent; Client is `submit` of
--   zeus-secretariat/src/adapters/x402-facilitator-client.ts, and PaidCall that of
--   zeus-secretariat/src/core/standard-x402-transport.ts.
-- - Secretariat: of zeus-secretariat/src/core/state-machine.ts the evidence outbox, in Outbox, with
--   the idempotent `append` of lib/db/src/secretariat/postgres-store.ts; the identity of a record,
--   a hash, is a parameter.
-- - Discovery: zeus-secretariat/src/core/x402-parser.ts, in Parser, on the text of the legacy header
--   and on decoded entries, and zeus-secretariat/src/core/capability-resolver.ts, in Capability.
-- - Facilitator: zeus-facilitator/src. Values has JSON values with the access to their fields as
--   JavaScript has it; Requests and Verify are verify.ts, with the versions of a request and the
--   checks in their order, Settle is the guard and the executor of settle.ts, Server the two routes
--   of server.ts. The recovery of a signer and the answers of the chain are parameters.
-- - Pricing: Staking is api-server/src/services/staking-pricing.ts, in whole numbers; Penalty the
--   penalties, the premium and the store of errors of api-server/src/services/pricing.ts.
-- - Egress: zeus-secretariat/src/core/egress-guard.ts on parsed URLs and addresses, with the resolver
--   as a parameter.
--
-- Method names keep their words: `updateAttemptStatus` is update_attempt_status, and so on. A
-- method that mutates a stored object returns the store with the object replaced; an exception is
-- a value. Time, fresh identifiers and the seller come in through Execution.World.Env; the seller
-- answers together with the stores as the call finds them afterwards, so other workers may act
-- while it is called. Identifiers, addresses and hashes are numbers that are compared; bodies,
-- URLs and headers are opaque. In Facilitator and Discovery, where they are read, they are texts. A
-- fresh identifier is assumed unused where a theorem says so.
--
-- Loops run over lists, and the flush of the evidence over its number of attempts. Only the
-- strategies of the engine call each other, as a loop on fuel: two rounds are enough unless the
-- providers agree that a transaction is missing which they reported.
--
-- Not modelled: the reads of the SQL stores, the rebuilding of operations from rows, HTTP and RPC
-- calls, polling and logging; the discovery of services and the signing of a payment; the text of
-- an IP address; the exception of `BigInt` on the data of a log that is no number, and block
-- numbers that are none; scores in floating-point numbers; the environment of the facilitator; the
-- watchers, the contracts and the user interface.
pub mod Prelude
pub mod Operation
pub mod Execution
pub mod Evidence
pub mod Intent
pub mod Feedback
pub mod Pricing
pub mod Reconciliation
pub mod Submission
pub mod Secretariat
pub mod Discovery
pub mod Egress
pub mod Facilitator
pub mod Samples
