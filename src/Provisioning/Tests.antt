-- ===== src/Provisioning/Tests.antt =====
-- Runs of the workflows on small tables, and the theorems at such inputs.
mod Provision
mod Lifecycle
mod Fulfilment
mod Reconciler
