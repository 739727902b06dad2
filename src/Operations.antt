-- ===== src/Operations.antt =====
-- backend/internal/{domain,service}/operation, repository/operations.sql.go, worker/worker.go and the
-- recovery of stuck operations in reconciler/reconciler.go.
pub mod Model
pub mod Store
pub mod Service
pub mod Steps
pub mod Worker
pub mod Outcome
pub mod Retries
mod Tests
