-- ===== src/Agent.antt =====
-- Agent mandates: state/agent_mandate.rs, accounts/agent_mandate_account.rs and
-- instructions/agent_mandates/.
pub mod Limits
pub mod Account
pub mod Handlers
pub mod Services
pub mod Step
pub mod Effects
pub mod Control
pub mod Backing
pub mod Charge
pub mod Adjusting
pub mod Cases
pub mod Invariant
pub mod Spending
pub mod Authority
pub mod Reload
