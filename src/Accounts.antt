-- ===== src/Accounts.antt =====
-- instructions/accounts/: how the handlers load and check the configuration accounts, and the checks
-- of token/spl_helpers.rs.
mod Protocol
mod Keeper
mod Token
mod Close
mod Upgrade
mod Mandate
mod Plan
mod PlanData
mod Merchant
unfoldable pub use Protocol.*
unfoldable pub use Keeper.*
unfoldable pub use Token.*
unfoldable pub use Close.*
unfoldable pub use Upgrade.*
unfoldable pub use Mandate.*
unfoldable pub use Plan.*
unfoldable pub use PlanData.*
unfoldable pub use Merchant.*
