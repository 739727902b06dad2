-- ===== src/Lib.antt =====
-- The billing backend of a VPS provider (Go, backend/). A user orders plans and pays for them; a
-- payment is booked in a double-entry ledger; the scheduler finds a node with free capacity for a
-- new instance and reserves it; subscriptions are renewed, fall due and are suspended; long-running
-- work is an operation that a worker executes. All state is in PostgreSQL: an operation of the code
-- is a sequence of SQL statements, in one transaction or not.
--
-- Parts and files, with the code each is about (paths from the repository's root):
--  - Prelude: tests, lists, signed integers with Go's int64 and int32 wrap-around, tables of keyed
--    rows, results (Go's pairs of a value and an error) and transactions that roll back on an error.
--  - Infrastructure: backend/internal/domain/infrastructure, the reservation transactions of
--    backend/internal/repository/infrastructure_repository.go with the statements of nodes.sql.go and
--    resource_reservations.sql.go, and backend/internal/service/scheduler/scheduler.go. Model has the
--    data, Store the statements, Reserve the transactions ReserveResources (reserve_resources),
--    CommitReservation and ReleaseReservation, Scheduler SelectAndReserve. Capacity holds the
--    accounting of a node's counters, Expiry ReconcileExpiredReservations of
--    backend/internal/reconciler/reconciler.go, Scheduler/Chosen and Scheduler/Best what the
--    scheduler picks.
--  - Commerce: backend/internal/domain/commerce, the transactions of
--    backend/internal/repository/commerce_repository.go and the services of
--    backend/internal/service/commerce. Model and Store have the data and the statements, Ledger the
--    double entry, Payments ProcessPaymentSuccessTx (process_payment_success), Wallets the deposits,
--    Orders CreateOrder and CancelOrder, Checkout InitiatePayment and ProcessWebhook. Settlement,
--    Processing, Soundness, Totals and Sales are about them.
--  - Subscriptions: backend/internal/domain/subscription, the statements of
--    backend/internal/repository/subscriptions.sql.go and
--    backend/internal/service/subscription/subscription_service.go. Service has the operations,
--    Renewal, History/Suspension and History/Closed are about them.
--  - Operations: backend/internal/domain/operation, the statements of
--    backend/internal/repository/operations.sql.go, backend/internal/service/operation/service.go,
--    processOperation of backend/internal/worker/worker.go and ReconcileStuckOperations of
--    backend/internal/reconciler/reconciler.go. Outcome and Retries are about the worker.
--  - Access: backend/internal/service/session/session.go, csrf.go and rate_limit.go of
--    backend/internal/middleware, and backend/internal/service/identity/admin_service.go with
--    totp.go and model.go of backend/internal/domain/identity. Session has the store in memory and
--    the manager, Csrf the check against forgery, RateLimit the limiter in memory, Admins the logins,
--    the second factor and the permissions of administrators. Users has
--    backend/internal/service/identity/user_service.go and UserAuth of
--    backend/internal/middleware/auth.go; its child Entry has who is let in.
--  - Provisioning: backend/internal/workflow/provision_workflow.go (Provision, whose children have its
--    stages and the theorems on whole runs), backend/internal/workflow/instance_workflow.go
--    (Lifecycle), backend/internal/service/fulfillment/fulfillment_service.go (Fulfilment), and the
--    heartbeats and states of backend/internal/reconciler/reconciler.go (Reconciler). Runs is the
--    monad of a workflow, Model its tables and the interface of a provider, Notes its updates of
--    steps and progress; Infrastructure/Instances and Operations/Steps have the statements.
--
-- How the parts interact: a webhook (Commerce/Checkout) settles a payment; fulfilment
-- (Provisioning/Fulfilment), which starts in the background afterwards, makes subscriptions and
-- operations; the workflow of an operation (Provisioning/Provision) reserves capacity through the
-- scheduler (Infrastructure), calls a provider, and commits or releases the reservation. A
-- subscription is renewed or suspended apart from these, by a scheduled check.
--
-- Conventions. An id is the number of its UUID, and a moment a count of time units; uuid.New, the
-- clock and formatted texts are parameters. A number of CPU cores is a count of hundredths, since
-- the columns are numeric with two places, and its arithmetic is exact, where the program's float64
-- may be off by a rounding and then refuse an amount that just fits; toPgNumeric is the driver's
-- conversion, and a number that it refuses is a failure of its statement. The float scores of the
-- scheduler are an argument (Infrastructure/Scheduler.Floats). A list sorted by sort.Slice or ORDER BY is an insertion sort.
-- The argument `fails` says which database calls return an error, numbered in each file; it stands
-- for a lost connection, an overflow of a bigint column, a violated constraint that is not modelled
-- and every error of Begin or Commit. A Commit that reports an error is taken to have rolled back.
-- Rows are lists under their primary key; CHECK and UNIQUE constraints that matter are in the
-- INSERTs, a foreign key is one of the failures. Transactions run one after the other, except in
-- Infrastructure/Capacity/Race, whose two transactions read before either writes. No definition
-- uses fuel: each loop is over a list.
--
-- A workflow runs outside any transaction, so its monad (Provisioning/Runs) rolls nothing back.
--
-- Not modelled: HTTP handlers, routing, cookies, the middleware that admits administrators, tickets,
-- audit but for the events of administrators and users, the drivers of the node providers,
-- configuration, logging, Redis and migrations; also products' administration, listings, and most of
-- the conversion between rows and structs.
pub mod Prelude
pub mod Infrastructure
pub mod Commerce
pub mod Subscriptions
pub mod Access
pub mod Operations
pub mod Provisioning
