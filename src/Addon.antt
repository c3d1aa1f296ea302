-- ===== src/Addon.antt =====
-- ipaversionlib/ipaversion.go: the add-on that queries the history versions of an app.
mod Range
mod State
mod Replay
mod Handle
pub mod Bounds
pub mod Retry
pub mod History
pub mod Buy
pub mod Costs
pub mod Once
pub mod Invariant
pub mod Defaults
pub mod Kept
pub mod Calm
pub mod Dumps
pub mod Race
unfoldable pub use Range.*
unfoldable pub use State.*
unfoldable pub use Replay.*
unfoldable pub use Handle.*
