-- ===== src/Daemon/Batch.antt =====
-- The batches of operations of src/daemon/service/batch_apply.rs: how one is started, acknowledged,
-- given up and finished.
pub mod Start
pub mod Pending
pub mod Ack
pub mod Deadline
pub mod Commit
pub mod Prefilter
unfoldable pub use Start.*
unfoldable pub use Pending.*
unfoldable pub use Ack.*
unfoldable pub use Deadline.*
