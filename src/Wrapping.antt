-- ===== src/Wrapping.antt =====
-- token/wrap.rs and token/unwrap.rs: USDC in the vault against wrapped tokens.
pub mod Handlers
pub mod Backing
pub mod Run
