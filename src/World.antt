-- ===== src/World.antt =====
-- What the program's calls read and change outside of it: the files, the zip writers that are
-- open, and the requests sent. The standard library's formats are symbolic: a file or a body is
-- plain bytes, a gzip stream or a zip archive. Every call of the operating system first takes the
-- next entry of `faults`, which decides whether it fails and what a write has left then, so each error path can be
-- reached.
mod Disk
mod State
mod Monad
mod Calls
mod Zip
pub mod Quiet
pub mod Ends
pub mod Frame
pub mod Post
pub mod Yields
unfoldable pub use Disk.*
unfoldable pub use State.*
unfoldable pub use Monad.*
unfoldable pub use Calls.*
unfoldable pub use Zip.*
