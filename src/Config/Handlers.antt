-- ===== src/Config/Handlers.antt =====
-- The handlers of instructions/config/.
mod Pause
mod Keeper
mod Token
unfoldable pub use Pause.*
unfoldable pub use Keeper.*
unfoldable pub use Token.*
