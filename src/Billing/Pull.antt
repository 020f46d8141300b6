-- ===== src/Billing/Pull.antt =====
-- billing/execute_pull.rs
mod Accounts
mod Change
mod Approval
mod Charge
mod Execute
unfoldable pub use Accounts.*
unfoldable pub use Change.*
unfoldable pub use Approval.*
unfoldable pub use Charge.*
unfoldable pub use Execute.*
