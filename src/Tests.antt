-- ===== src/Tests.antt =====
-- Runs of the model at concrete inputs.
mod Data
mod Domain
mod Deletion
mod Resumption
mod Alerts
mod Backups
mod Agreement
mod Users
mod Jobs
mod Factor
mod Sites
mod Tokens
mod Values
