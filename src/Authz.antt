-- ===== src/Authz.antt =====
-- apps/api/internal/authz/authz.go: who may use a resource of an organization.
mod Defs
pub mod Tenancy
mod Examples
unfoldable pub use Defs.*
