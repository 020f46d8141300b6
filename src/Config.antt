-- ===== src/Config.antt =====
-- instructions/config/: pausing the protocol, and the keeper and token configurations.
pub mod Handlers
pub mod Upgrade
pub mod Pausing
pub mod Endpoint
