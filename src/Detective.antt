-- ===== src/Detective.antt =====
-- internal/detective
pub mod Language
pub mod Truncate
pub mod Build
