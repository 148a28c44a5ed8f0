-- ===== src/World.antt =====
-- The state of the node, the code outside the repository, and the monad of commands.
mod Types
mod Calls
mod Storage
mod State
mod Monad
mod Memory
pub use Types.*
pub use Calls.*
pub use Storage.*
pub use State.*
pub use Monad.*
unfoldable pub use Memory.*
