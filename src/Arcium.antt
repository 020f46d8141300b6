-- ===== src/Arcium.antt =====
-- The requests to the Arcium network: state/arcium_request.rs and arcium/arcium_request_state.rs.
pub mod Request
pub mod Runs
pub mod Accounts
pub mod Callback
