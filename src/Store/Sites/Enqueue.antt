-- ===== src/Store/Sites/Enqueue.antt =====
-- The requests on sites that enqueue a job: internal/store/lifecycle.go, site_changes.go,
-- php_version.go and store.go.
mod Requests
mod Retry
mod Domain
mod Deletion
mod Php
unfoldable pub use Requests.*
unfoldable pub use Retry.*
unfoldable pub use Domain.*
unfoldable pub use Deletion.*
unfoldable pub use Php.*
