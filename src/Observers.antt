-- ===== src/Observers.antt =====
-- The observers of recovery (internal/observer).
pub mod Kubernetes
pub mod FlinkRest
pub mod Checkpoints
pub mod Metrics
pub mod Stable
pub mod Composite
pub mod Replaced
pub mod Recovery
