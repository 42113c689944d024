-- ===== src/Work.antt =====
-- packages/scheduler/work_adapter.go: work items of a repository, scheduled as tasks.
mod Defs
mod Collect
mod Examples
pub mod Handoff
unfoldable pub use Defs.*
