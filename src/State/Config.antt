-- ===== src/State/Config.antt =====
-- state/protocol_config.rs, state/keeper_config.rs, state/token_config.rs and state/merchant.rs, and the legacy layouts
-- of accounts/protocol_config_account.rs, accounts/keeper_config_account.rs and accounts/merchant_account.rs.
use vela_protocol.Base.{ℕ, Bool, true, false, List}
use vela_protocol.Base.Int.{ℤ}

pub data ClusterType : Type 0 where
  cerberus manticore : ClusterType

pub record ProtocolConfigV1 : Type 0 where
  pub admin : ℕ
  pub cluster_pubkey : ℕ
  pub cluster_type : ClusterType
  pub cluster_offset : ℕ
  pub wrapped_usdc_mint : ℕ
  pub wrapping_vault : ℕ
  pub paused : Bool
  pub paused_at : ℤ
  pub bump : ℕ

pub record ProtocolConfig : Type 0 where
  pub admin : ℕ
  pub cluster_pubkey : ℕ
  pub cluster_type : ClusterType
  pub cluster_offset : ℕ
  pub wrapped_usdc_mint : ℕ
  pub wrapping_vault : ℕ
  pub paused : Bool
  pub paused_at : ℤ
  pub transfer_hook_program_id : ℕ
  pub bump : ℕ
  pub version : ℕ
  pub mxe_program_id : ℕ

pub data KeeperMode : Type 0 where
  centralized tuk_tuk : KeeperMode

pub record KeeperConfigV1 : Type 0 where
  pub admin : ℕ
  pub mode : KeeperMode
  pub keeper_endpoint : List ℕ
  pub endpoint_len : ℕ
  pub keeper_authority : ℕ
  pub bump : ℕ

pub record KeeperConfig : Type 0 where
  pub admin : ℕ
  pub mode : KeeperMode
  pub keeper_endpoint : List ℕ
  pub endpoint_len : ℕ
  pub keeper_authority : ℕ
  pub bump : ℕ
  pub version : ℕ

pub data BillingRail : Type 0 where
  transfer_hook token_delegate : BillingRail

pub record TokenConfig : Type 0 where
  pub mint : ℕ
  pub token_program : ℕ
  pub billing_rail : BillingRail
  pub decimals : ℕ
  pub enabled : Bool
  pub oracle_reference : ℕ
  pub admin : ℕ
  pub created_at : ℤ
  pub bump : ℕ
  pub version : ℕ

-- `billing_rail == BillingRail::TransferHook`
abbrev pub is_transfer_hook : BillingRail → Bool
is_transfer_hook BillingRail.transfer_hook = true
is_transfer_hook _ = false

pub record MerchantStateV1 : Type 0 where
  pub merchant : ℕ
  pub plan_count : ℕ
  pub bump : ℕ

pub record MerchantState : Type 0 where
  pub merchant : ℕ
  pub plan_count : ℕ
  pub bump : ℕ
  pub credential_mint : ℕ
  pub mandate_counter : ℕ
  pub stream_mandate_counter : ℕ
  pub version : ℕ
