-- ===== src/Infrastructure/Capacity.antt =====
-- What the counters of a node mean: for each kind of resource, what is reserved on the node is the
-- sum over its reservations in status reserved, what is allocated is a base that was there before
-- and the sum over its committed reservations, and both together fit into the node.
pub mod Invariant
pub mod Shift
pub mod Reserving
pub mod Resolving
pub mod Endings
pub mod History
pub mod Race
