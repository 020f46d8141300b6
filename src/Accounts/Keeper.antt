-- ===== src/Accounts/Keeper.antt =====
-- accounts/keeper_config_account.rs: loading, in either layout.
use vela_protocol.Base.{ℕ, ◌==◌, if◌then◌else◌, [], ◌∷◌}
use vela_protocol.Errors.{Result, ok, err, program, ProgramError, ◌>>◌, require}
use vela_protocol.State.{KeeperConfig, KeeperConfigV1}
use vela_protocol.Runtime.{
  Runtime, Seed, AccountInfo, AccountData, Layout, program_id, current_account_version,
}

pub data LoadedKeeperConfig : Type 0 where
  legacy : KeeperConfigV1 → LoadedKeeperConfig
  current : KeeperConfig → LoadedKeeperConfig

unfoldable pub keeper_authority : LoadedKeeperConfig → ℕ
keeper_authority (LoadedKeeperConfig.legacy c) = c.keeper_authority
keeper_authority (LoadedKeeperConfig.current c) = c.keeper_authority

unfoldable pub into_current_keeper : LoadedKeeperConfig → KeeperConfig
into_current_keeper (LoadedKeeperConfig.legacy c) = record {
  admin = c.admin;
  mode = c.mode;
  keeper_endpoint = c.keeper_endpoint;
  endpoint_len = c.endpoint_len;
  keeper_authority = c.keeper_authority;
  bump = c.bump;
  version = current_account_version;
}
into_current_keeper (LoadedKeeperConfig.current c) = c

unfoldable pub decode_keeper_config : AccountData → Result LoadedKeeperConfig
decode_keeper_config (AccountData.keeper_config (Layout.current c)) =
    if c.version == current_account_version
    then ok (LoadedKeeperConfig.current c)
    else err (program ProgramError.invalid_account_data)
decode_keeper_config (AccountData.keeper_config (Layout.legacy c padded)) =
    if padded
    then ok (LoadedKeeperConfig.legacy c)
    else err (program ProgramError.invalid_account_data)
decode_keeper_config _ = err (program ProgramError.invalid_account_data)

module _ (rt : Runtime) where
  unfoldable pub load_keeper_config : AccountInfo → Result LoadedKeeperConfig
  unfolding decode_keeper_config
  load_keeper_config info = do
    require (info.key == (rt.find_program_address (Seed.literal "keeper-config" ∷ []) program_id).0)
        (program ProgramError.invalid_seeds)
    require (info.owner == program_id) (program ProgramError.incorrect_program_id)
    decode_keeper_config info.contents
