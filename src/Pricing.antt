-- ===== src/Pricing.antt =====
-- The pricing of metered usage: the tiers of a plan, as plans/create_usage_plan.rs checks them, and
-- the circuits of encrypted-ixs/src/lib.rs on plain values.
pub mod Tiers
pub mod Circuits
pub mod Units
pub mod Exact
pub mod Agreement
