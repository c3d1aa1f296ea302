-- ===== src/Console.antt =====
-- main.go: the flags, the system proxy, the capture of a flow, and the commands read afterwards.
mod Proxy
mod Input
mod Process
mod Help
pub mod Rounds
pub mod Dump
pub mod Cleanup
pub mod Whole
pub mod Waits
pub mod Refusal
mod Deciding
pub mod Left
pub mod Crash
pub mod Again
pub mod Twice
pub mod Lifetime
unfoldable pub use Proxy.*
unfoldable pub use Input.*
unfoldable pub use Help.*
unfoldable pub use Process.*
