-- ===== src/Hook.antt =====
-- The transfer hook, programs/vela-transfer-hook/src/lib.rs: Token-2022 calls it at every transfer of
-- the wrapped mint, and an error of it undoes the transfer.
pub mod Config
pub mod Handler
pub mod Gate
pub mod Settlement
pub mod AgentPulls
pub mod Billing
