-- ===== src/Backfill.antt =====
-- backfill_manager.py: the queue of backfill jobs, its pause flags and what it keeps on disk.
mod Defs
pub mod Calls
pub mod Dedupe
pub mod Tracking
pub mod Durability
pub mod Order
unfoldable pub use Defs.*
