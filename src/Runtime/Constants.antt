-- ===== src/Runtime/Constants.antt =====
-- constants.rs, the program ids, and the version numbers of state/mod.rs.
use vela_protocol.Base.{ℕ, String, ◌==◌, if◌then◌else◌}
use vela_protocol.Base.Int.{ℤ, pos}

-- `crate::ID` of the protocol, CVM6UqbwKgHckZzm8R2qbN3BWhCTdk1PsSeEQLchkwKT.
abbrev pub program_id : ℕ
program_id = 0xaab38a2ce27b734210b77e55d5927a0553c9cc3b1758a680f32416d18b89191e

-- The id of the transfer hook program, 3agVoFp4NZFuKbVqCV8HbjSZn1xW4Utk4U1Wir3TKjZ9.
abbrev pub transfer_hook_program_id : ℕ
transfer_hook_program_id = 0x2658330bae26f05d3d8487ce5316c37d545be8eccbd081e7f1ad38a59c2236a0

-- `Pubkey::default()`
abbrev pub default_pubkey : ℕ
default_pubkey = 0

abbrev pub current_account_version : ℕ
current_account_version = 1

abbrev pub usdc_decimals : ℕ
usdc_decimals = 6

abbrev pub agent_mandate_max_services : ℕ
agent_mandate_max_services = 8

abbrev pub agent_pull_approval_ttl_seconds : ℤ
agent_pull_approval_ttl_seconds = pos 60

abbrev pub pull_approval_ttl_seconds : ℤ
pull_approval_ttl_seconds = pos 3600

abbrev pub agent_daily_reset_window_seconds : ℤ
agent_daily_reset_window_seconds = pos 86_400

abbrev pub wrapped_usdc_symbol : String
wrapped_usdc_symbol = "sUSDC"

pub event_token_symbol : ℕ → ℕ → String
event_token_symbol mint wrapped_usdc_mint =
    if mint == wrapped_usdc_mint then wrapped_usdc_symbol else ""
