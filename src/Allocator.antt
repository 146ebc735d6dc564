-- ===== src/Allocator.antt =====
-- internal/allocator/allocator.go: allocation over regions, planes and offsets.
mod State
mod Fast
mod Promotion
mod Sync
mod Release
pub mod Validity
pub mod Placing
pub mod Ownership
pub mod Preservation
pub mod Reachability
pub mod Compaction
pub mod Promoter
pub mod Workers
unfoldable pub use State.*
unfoldable pub use Fast.*
unfoldable pub use Promotion.*
unfoldable pub use Sync.*
unfoldable pub use Release.*
