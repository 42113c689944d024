-- ===== src/Execution.antt =====
-- packages/execution/execution.go: identity, authority, fencing and recovery of external effects.
mod Defs
mod Grants
mod Effects
pub mod Fencing
pub mod Identity
pub mod Delegation
mod Examples
unfoldable pub use Defs.*
unfoldable pub use Grants.*
unfoldable pub use Effects.*
