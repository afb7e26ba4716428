-- ===== src/Store.antt =====
-- internal/store/postgres
pub mod Rows
pub mod Jobs
pub mod Publications
pub mod Accounts
pub mod Installations
pub mod Db
pub mod Publishing
pub mod Open
pub mod Migrate
