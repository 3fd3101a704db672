-- ===== src/Store/Users.antt =====
-- Accounts, roles and grants: internal/store/store.go. An operation runs in one transaction: it
-- returns the new database, or an error, and then the database is as it was. The instant and the
-- identifiers that the operation draws are arguments; so is bcrypt, which the program only calls.
pub mod Username
pub mod Grants
pub mod Access
pub mod Integrity
pub mod Authority
pub mod Assignments
