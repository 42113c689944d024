-- ===== src/Scheduler.antt =====
-- packages/scheduler/scheduler.go: a manifest of tasks, and which of them may start.
mod Defs
mod Graph
mod Select
pub mod Ownership
pub mod Admission
pub mod Search
pub mod Termination
pub mod Acyclic
pub mod Register
pub mod Validation
pub mod Progress
pub mod Waves
pub mod Plan
mod Examples
unfoldable pub use Defs.*
unfoldable pub use Graph.*
unfoldable pub use Select.*
