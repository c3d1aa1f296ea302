-- ===== src/Download.antt =====
-- The download of an app: `WriteCounter` and `DownloadFile` of ipaversionlib/util.go and
-- `DownloadApp` of ipaversionlib/app.go.
mod Fetch
mod Steps
pub mod Complete
mod Refused
pub mod Frame
pub mod Fetched
pub mod Packaged
pub mod Progress
pub mod Again
pub mod Panics
unfoldable pub use Fetch.*
unfoldable pub use Steps.*
