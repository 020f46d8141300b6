-- ===== src/Plans.antt =====
-- instructions/plans/: plans, the mandates that subscribe to them, and the changes of a mandate's plan.
pub mod Change
pub mod Proration
pub mod Delta
pub mod Update
pub mod Consent
pub mod Updating
pub mod Elapsed
pub mod Flat
pub mod Metered
pub mod Priced
pub mod Subscribe
pub mod Cancel
pub mod Terms
pub mod Life
