-- ===== src/Package.antt =====
-- ipaversionlib/appstore_replicate_sinf.go: what is added to a downloaded package.
mod Metadata
mod Read
mod Sinf
pub mod Quiet
pub mod Seal
pub mod Safe
pub mod Frame
mod Filled
pub mod Atomic
pub mod Patched
mod Pairs
unfoldable pub use Metadata.*
unfoldable pub use Read.*
unfoldable pub use Sinf.*
