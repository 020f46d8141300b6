-- ===== src/Stream.antt =====
-- Token streams: accounts/stream_account.rs and instructions/streaming/. A handler returns the
-- accounts that it wrote, the invocations that it made and the events that it emitted, or an error,
-- which undoes the transaction.
pub mod Account
pub mod Settle
pub mod Transfer
pub mod Handlers
pub mod Step
pub mod Effects
pub mod Invariant
pub mod Accrual
pub mod Authority
pub mod Forfeit
