-- ===== src/Accounts/Protocol.antt =====
-- accounts/protocol_config_account.rs: loading, in either layout.
use vela_protocol.Base.{ℕ, Bool, ◌==◌, if◌then◌else◌, [], ◌∷◌}
use vela_protocol.Errors.{Result, ok, err, vela, program, VelaError, ProgramError, ◌>>◌, require}
use vela_protocol.State.{ProtocolConfig, ProtocolConfigV1}
use vela_protocol.Runtime.{
  Runtime, Seed, AccountInfo, AccountData, Layout, program_id, default_pubkey,
  transfer_hook_program_id, current_account_version,
}

pub data LoadedProtocolConfig : Type 0 where
  legacy : ProtocolConfigV1 → LoadedProtocolConfig
  current : ProtocolConfig → LoadedProtocolConfig

-- The accessors of `impl LoadedProtocolConfig`.
unfoldable pub config_admin : LoadedProtocolConfig → ℕ
config_admin (LoadedProtocolConfig.legacy c) = c.admin
config_admin (LoadedProtocolConfig.current c) = c.admin

unfoldable pub config_paused : LoadedProtocolConfig → Bool
config_paused (LoadedProtocolConfig.legacy c) = c.paused
config_paused (LoadedProtocolConfig.current c) = c.paused

unfoldable pub config_wrapped_usdc_mint : LoadedProtocolConfig → ℕ
config_wrapped_usdc_mint (LoadedProtocolConfig.legacy c) = c.wrapped_usdc_mint
config_wrapped_usdc_mint (LoadedProtocolConfig.current c) = c.wrapped_usdc_mint

unfoldable pub config_wrapping_vault : LoadedProtocolConfig → ℕ
config_wrapping_vault (LoadedProtocolConfig.legacy c) = c.wrapping_vault
config_wrapping_vault (LoadedProtocolConfig.current c) = c.wrapping_vault

unfoldable pub config_hook_program_id : LoadedProtocolConfig → ℕ
config_hook_program_id (LoadedProtocolConfig.legacy c) = default_pubkey
config_hook_program_id (LoadedProtocolConfig.current c) = c.transfer_hook_program_id

unfoldable pub into_current_config : LoadedProtocolConfig → ProtocolConfig
into_current_config (LoadedProtocolConfig.legacy c) = record {
  admin = c.admin;
  cluster_pubkey = c.cluster_pubkey;
  cluster_type = c.cluster_type;
  cluster_offset = c.cluster_offset;
  wrapped_usdc_mint = c.wrapped_usdc_mint;
  wrapping_vault = c.wrapping_vault;
  paused = c.paused;
  paused_at = c.paused_at;
  transfer_hook_program_id = transfer_hook_program_id;
  bump = c.bump;
  version = current_account_version;
  mxe_program_id = default_pubkey;
}
into_current_config (LoadedProtocolConfig.current c) = c

-- What the discriminator and the two decoders make of the data.
unfoldable pub decode_protocol_config : AccountData → Result LoadedProtocolConfig
decode_protocol_config (AccountData.protocol_config (Layout.current c)) =
    if c.version == current_account_version
    then ok (LoadedProtocolConfig.current c)
    else err (program ProgramError.invalid_account_data)
decode_protocol_config (AccountData.protocol_config (Layout.legacy c padded)) =
    if padded
    then ok (LoadedProtocolConfig.legacy c)
    else err (program ProgramError.invalid_account_data)
decode_protocol_config (AccountData.protocol_config Layout.malformed) =
    err (program ProgramError.invalid_account_data)
decode_protocol_config _ = err (vela VelaError.invalid_protocol_config)

module _ (rt : Runtime) where
  unfoldable pub validate_protocol_config_address : ℕ → Result (Unit {0})
  validate_protocol_config_address key =
      require (key == (rt.find_program_address (Seed.literal "config" ∷ []) program_id).0)
        (program ProgramError.invalid_seeds)

  unfoldable pub load_protocol_config : AccountInfo → Result LoadedProtocolConfig
  unfolding validate_protocol_config_address decode_protocol_config
  load_protocol_config info = do
    validate_protocol_config_address info.key
    require (info.owner == program_id) (vela VelaError.invalid_protocol_config)
    decode_protocol_config info.contents
