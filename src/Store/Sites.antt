-- ===== src/Store/Sites.antt =====
-- The life of a site: internal/store/site_changes.go, lifecycle.go and php_version.go, and
-- `CreateSite` and `EnqueueCertificate` of store.go. Each operation runs in one transaction.
pub mod Guards
pub mod Enqueue
pub mod Finish
pub mod Lock
pub mod Deleted
pub mod Undo
