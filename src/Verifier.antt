-- ===== src/Verifier.antt =====
-- packages/verifier/verifier.go: the verification of a candidate, with evidence that is stored.
mod Outputs
mod Defs
mod Examples
pub mod Gates
mod Steps
pub mod Release
pub mod Items
pub mod Bounds
pub mod Landing
pub mod Evidence
unfoldable pub use Outputs.*
unfoldable pub use Defs.*
