-- ===== src/Stream.antt =====
-- The stream-ordered operations of src/mp_peersync.c, for a GDSync library with the descriptor
-- interface.
mod Batch
mod Sends
mod Posts
mod Waits
mod Puts
unfoldable pub use Batch.*
unfoldable pub use Sends.*
unfoldable pub use Posts.*
unfoldable pub use Waits.*
unfoldable pub use Puts.*
