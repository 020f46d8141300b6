-- ===== src/Billing.antt =====
-- instructions/billing/: the pulls of subscriptions.
pub mod Pull
pub mod Effects
pub mod Payment
pub mod Reload
pub mod Runs
pub mod Authority
pub mod Computation
pub mod Between
pub mod Grants
