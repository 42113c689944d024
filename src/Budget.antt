-- ===== src/Budget.antt =====
-- apps/api/internal/budget/engine.go and packages/models/budget.go: budgets and their enforcement.
mod Defs
pub mod Limits
mod Examples
unfoldable pub use Defs.*
