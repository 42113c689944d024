-- ===== src/Readiness.antt =====
-- packages/readiness: whether a task, and a repository, is ready for autonomous work.
mod Defs
mod Files
mod Inspect
pub mod Mention
pub mod Report
pub mod Admission
mod Examples
unfoldable pub use Defs.*
unfoldable pub use Files.*
unfoldable pub use Inspect.*
