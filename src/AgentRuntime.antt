-- ===== src/AgentRuntime.antt =====
-- packages/agent-runtime: threads, turns and items of coding agents, behind providers and a store.
mod Capabilities
mod Protocol
mod Registry
mod World
mod Manager
mod Record
pub mod Kept
mod Logging
mod Approval
pub mod Dispatch
mod Answers
mod Examples
pub mod Once
pub mod Lookup
pub mod Recorded
unfoldable pub use Capabilities.*
unfoldable pub use Protocol.*
unfoldable pub use Registry.*
unfoldable pub use World.*
unfoldable pub use Manager.*
unfoldable pub use Record.*
unfoldable pub use Approval.*
