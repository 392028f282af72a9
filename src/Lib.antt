-- ===== src/Lib.antt =====
-- StellarSplit: models and proofs of the backend's core services.
--
-- StellarSplit lets a group split a bill and settle it over the Stellar network. The backend
-- (backend/src, NestJS over TypeORM) is a set of services over shared tables; each service method reads
-- rows, checks them, writes rows and emits events. Each part below models one service: its rows as
-- records, its enumerations as data, each method as a function from a store to a result and a store, with
-- the method's checks in their order, and every write.
--
-- Files.
--   Prelude: Boolean tests, lists, tables (a repository as the list of its rows, with findOne, save and
--     update) and actions (state and exceptions, with database transactions that a throw rolls back).
--   Entities: rows that several services share (backend/src/entities).
--   Access: backend/src/auth. Scope is services/access-scope.service.ts and Guard is
--     guards/authorization.guard.ts over services/authorization.service.ts, both but for the groups;
--     Lookups, Agreement and Admission hold proofs.
--   Batch: backend/src/batch. Progress is batch-progress.service.ts, Service is batch.service.ts, Processing
--     is processors/split-batch.processor.ts with one worker; Calls puts them into one type. Here the
--     database does not fail. Due, Retries and Verdicts hold proofs.
--   Debts: backend/src/debt-simplification. Balancing, Greedy and Graph are simplifyAsset and simplify of
--     debt-graph.service.ts; Store has the rows and loadRawDebts, Links the payment links, Caching the
--     methods of debt-simplification.service.ts. The other files there hold proofs.
--   Disputes: backend/src/disputes. StateMachine is dispute.state-machine.ts; Entity and Store are the
--     rows, request bodies and events; Filing, Evidence, Review, Resolution, Appeal and Queries are the
--     methods fileDispute, addEvidence, requestMoreEvidence, moveToEvidenceCollection, submitForReview,
--     resolveDispute, rejectDispute, appealDispute and the reads of disputes.service.ts; Service puts the
--     calls that write into one type. The other files there hold proofs.
--   Governance: backend/src/governance. Entity and Store are the rows and helpers; Proposing, Voting and
--     Executing are createProposal, vote, voteWithType, finalizeProposal, executeProposal and
--     vetoProposal of governance.service.ts; Service puts the calls into one type.
--   Idempotency: backend/src/common/idempotency. Intercept is idempotency.interceptor.ts and
--     idempotency.service.ts; Once has the server that holds keys alone, and proofs.
--   Invitations: backend/src/invitations. Entity and Store are the rows (the participants' and users' too)
--     and request bodies; Inviting is create, getByToken, getActiveInvitations and invalidate, Joining is
--     joinByToken, Upgrading is upgradeGuest of invitations.service.ts; Service puts the calls into one
--     type. Rows, Moves, Limits and Outcomes hold proofs.
--   Paging: backend/src/common/pagination. Paginate is paginate.helper.ts; Order and Walk hold proofs.
--   Payments: backend/src/payments/payment-processor.service.ts. Entity and Store are the rows and the
--     answers of other services; Converting is the conversion with processMultiCurrencyPayment of
--     backend/src/multi-currency/multi-currency.service.ts; Settling has the amounts, statuses and totals,
--     Processing is
--     processPaymentSubmission, retryPayment and handleWebhookReplay; Service puts the calls into one type.
--     Ledger, Submissions, Accounts, Balances and Repeats hold proofs. A dispute freezes a split, and the
--     payments refuse a frozen one.
--   Settlement: backend/src/payments/payment-reconciliation.service.ts. Reconciling is reconcilePayment with
--     its handlers and markPaymentForReview, Reviewing the two scheduled jobs and
--     resolvePaymentFromReview; Service puts them into one type. Finality, Verdicts and Missing hold proofs.
--   Splitting: backend/src/modules/splits. Entity is dto/calculate-split.dto.ts, Validator is
--     validators/split.validator.ts, Shares and Calculation are split-calculation.service.ts; Totals and
--     Fairness hold proofs.
--   Together: the dispute service and the payment processor over one table of splits: a step is a call of
--     either.
--   Webhooks: backend/src/webhooks. Secrets and Subscribing are webhooks.service.ts, RateLimit is
--     webhook-rate-limit.store.ts; Queueing and Delivery are the methods of webhook-delivery.service.ts.
--     Windows, Dispatch, Failures, Guarded and Revived hold proofs.
--
-- Correspondence. Identifiers, addresses and hashes are numbers, since they are only compared. A text is
-- the list of its UTF-16 code units. Amounts are numbers, as the entities' types say, in the columns'
-- hundredths; finer amounts are not modelled. For the
-- payments, what the driver makes of a decimal column is a parameter; for the batches, so is what doubles
-- make of sums that are one hundredth apart. Times are milliseconds, and one call reads one clock. A database
-- write or commit can fail: an environment tells for the n-th write of a call whether it goes through, so
-- the theorems cover every place where a call can be cut short. Identifiers that the database generates
-- come from the environment too; that they are unused is a hypothesis where it matters. Subtraction of
-- times stops at 0 where the source would go below; each such place says why no test tells the
-- difference.
--
-- Not modelled: concurrent calls (a call is one step), log lines, the wording of exceptions, relations
-- that TypeORM loads or cascades beside the row itself (but for the deliveries of a removed webhook), columns that no modelled method reads, the
-- database's order of rows (a parameter of the reads), the HTTP controllers.
-- Nor are the scores of the reputation service, emails, and the texts of messages and settlement errors.
-- Loops run over a list, but for the greedy one of the debts: it has as many rounds as there are balances
-- that are not zero, since each round settles one of them; more rounds would change nothing.
pub mod Access
pub mod Prelude
pub mod Entities
pub mod Batch
pub mod Debts
pub mod Disputes
pub mod Governance
pub mod Idempotency
pub mod Invitations
pub mod Paging
pub mod Payments
pub mod Settlement
pub mod Splitting
pub mod Together
pub mod Webhooks
