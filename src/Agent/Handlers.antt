-- ===== src/Agent/Handlers.antt =====
-- The handlers of instructions/agent_mandates/.
mod Common
mod Pull
mod Create
mod Adjust
mod Status
mod Withdraw
unfoldable pub use Common.*
unfoldable pub use Pull.*
unfoldable pub use Create.*
unfoldable pub use Adjust.*
unfoldable pub use Status.*
unfoldable pub use Withdraw.*
