-- ===== src/Store.antt =====
-- internal/store: the desired state in SQLite and the operations on it.
pub mod Rows
pub mod Statements
pub mod Users
pub mod Tokens
pub mod SecondFactor
pub mod JobOrder
pub mod Backups
pub mod Sites
pub mod Jobs
