-- ===== src/Diplomat.antt =====
-- internal/diplomat
pub mod Map
pub mod Publish
