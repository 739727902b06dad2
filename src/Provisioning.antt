-- ===== src/Provisioning.antt =====
-- The workflows that a worker executes, over all the tables that they write.
pub mod Runs
pub mod Model
pub mod Notes
pub mod Provision
pub mod Lifecycle
pub mod Fulfilment
pub mod Reconciler
mod Tests
