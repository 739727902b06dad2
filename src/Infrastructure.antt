-- ===== src/Infrastructure.antt =====
-- Nodes, reservations of their capacity and the scheduler.
pub mod Model
pub mod Store
pub mod Instances
pub mod Reserve
pub mod Capacity
pub mod Expiry
pub mod Scheduler
pub mod Tests
