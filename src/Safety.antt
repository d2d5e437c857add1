-- ===== src/Safety.antt =====
-- The safety checks made before an injection (internal/safety).
pub mod Checker
pub mod Enough
pub mod Rivals
pub mod Permits
