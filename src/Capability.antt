-- ===== src/Capability.antt =====
-- apps/api/internal/capability: the operations, and the kernel that decides on them.
mod Operations
mod Defs
mod Kernel
pub mod Decisions
pub mod Batch
mod Examples
unfoldable pub use Operations.*
unfoldable pub use Defs.*
unfoldable pub use Kernel.*
