-- ===== src/Provision.antt =====
-- internal/provision: what the broker does to the host.
pub mod Attempt
pub mod Vhosts
pub mod Journal
pub mod Recovery
pub mod DomainChange
pub mod Deletion
