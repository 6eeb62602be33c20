-- ===== src/Os.antt =====
-- The operating system that the transports call: what it answers is a parameter of the model.
mod Events
mod Calls
mod Descriptors
mod Custody
mod Outcome
mod Use
mod Ownership
mod Shares
mod Traffic
mod Posix
mod Addresses
mod Reading
mod Agreement
mod Datagrams
unfoldable pub use Events.*
unfoldable pub use Calls.*
unfoldable pub use Descriptors.*
pub use Custody.*
pub use Outcome.*
pub use Use.*
pub use Ownership.*
unfoldable pub use Traffic.*
pub use Posix.*
pub use Reading.*
unfoldable pub use Addresses.*
pub use Agreement.*
unfoldable pub use Shares.*
pub use Datagrams.*
