-- ===== src/Text.antt =====
-- The parts of Go's `strings` and `path` packages that the code uses. A text is the list of its
-- code points.
mod Defs
mod Laws
mod NoRepeats
mod Inside
mod Blank
mod Found
unfoldable pub use Defs.*
pub use Laws.*
pub use NoRepeats.*
pub use Inside.{IsName, clean-inside}
pub use Blank.*
pub use Found.*
