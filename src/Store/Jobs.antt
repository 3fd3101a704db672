-- ===== src/Store/Jobs.antt =====
-- The durable job queue of internal/store/store.go.
mod Queue
mod Completion
pub mod Claim
pub mod Once
unfoldable pub use Queue.*
unfoldable pub use Completion.*
