-- ===== src/Resolvers.antt =====
-- The resolution of targets to pods (internal/resolver, internal/podutil).
pub mod Pods
pub mod Picks
pub mod PodSelector
pub mod Classes
pub mod Deployment
pub mod Modes
pub mod Discovers
pub mod Ververica
pub mod Members
pub mod Belongs
