-- ===== src/Alerts.antt =====
-- internal/alerts: when a condition is reported to the operator, and over which channels.
pub mod Cycle
pub mod Settings
pub mod State
pub mod Monitor
pub mod Rows
pub mod Once
pub mod Condition
