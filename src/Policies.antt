-- ===== src/Policies.antt =====
-- packages/policies: the policy engine and the permissions of roles.
mod Defs
mod Default
mod Rbac
pub mod Restrictive
pub mod Guarded
pub mod Guarantees
pub mod Roles
pub mod Details
mod Examples
unfoldable pub use Defs.*
unfoldable pub use Default.*
unfoldable pub use Rbac.*
