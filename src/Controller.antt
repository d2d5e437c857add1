-- ===== src/Controller.antt =====
-- The reconciliation controller (internal/controller).
pub mod World
pub mod Phases
pub mod Pending
pub mod Injecting
pub mod Outcomes
pub mod Observing
pub mod Cleaning
pub mod Reconcile
pub mod Rules
pub mod Lifecycle
pub mod Guard
pub mod Permitted
pub mod Cleaned
pub mod Deadline
pub mod Partition
pub mod CheckpointWait
