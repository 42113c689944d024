-- ===== src/Protocol.antt =====
-- packages/repoprotocol: the configuration of a repository, and its work items with their leases.
mod Paths
mod Defs
mod Claim
mod Examples
pub mod Inside
pub mod Leases
pub mod Gates
unfoldable pub use Paths.*
unfoldable pub use Defs.*
unfoldable pub use Claim.*
