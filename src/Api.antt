-- ===== src/Api.antt =====
-- The ChaosRun resource: its data model, defaulting and validation (api/v1alpha1).
pub mod Types
pub mod Texts
pub mod Bandwidth
pub mod Validation
pub mod Defaults
