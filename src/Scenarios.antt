-- ===== src/Scenarios.antt =====
-- The scenario drivers and the objects that they build (internal/scenario, internal/netchaos).
pub mod PodKill
pub mod Targeted
pub mod Spares
pub mod Policy
pub mod Denies
pub mod Partition
pub mod Partitions
pub mod Keeps
pub mod Ephemeral
pub mod NetworkChaos
pub mod ResourceExhaustion
pub mod Additions
pub mod Lasting
pub mod Injections
pub mod Names
pub mod Tc
pub mod Durations
pub mod Scripts
pub mod Stresses
