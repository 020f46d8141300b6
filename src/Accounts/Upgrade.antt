-- ===== src/Accounts/Upgrade.antt =====
-- accounts/protocol_config_account.rs and accounts/keeper_config_account.rs: writing, and the upgrade
-- to the current layout, which tops the account up to the rent of its new size.
use vela_protocol.Base.{ℕ, ◌-◌, ltb, ◌==◌, if◌then◌else◌, [], ◌∷◌, List}
use vela_protocol.Errors.{Result, ok, ◌>>=◌, ◌>>◌}
use vela_protocol.State.{ProtocolConfig, KeeperConfig}
use vela_protocol.Runtime.{
  Runtime, AccountInfo, AccountData, Layout, Instruction, Invocation, default_pubkey,
  transfer_hook_program_id, current_account_version,
}
use vela_protocol.Accounts.Protocol.{load_protocol_config, into_current_config}
use vela_protocol.Accounts.Keeper.{load_keeper_config, into_current_keeper}

-- `ProtocolConfig::SIZE`
abbrev pub protocol_config_size : ℕ
protocol_config_size = 220

-- `KeeperConfig::SIZE`
abbrev pub keeper_config_size : ℕ
keeper_config_size = 268

unfoldable pub write_protocol_config : AccountInfo → ProtocolConfig → AccountInfo
write_protocol_config info config = record info {
  contents = AccountData.protocol_config (Layout.current config);
}

unfoldable pub write_keeper_config : AccountInfo → KeeperConfig → AccountInfo
write_keeper_config info config = record info {
  contents = AccountData.keeper_config (Layout.current config);
}

module _ (rt : Runtime) where
  -- `resize_protocol_config_account` and `resize_keeper_config_account`, for the size.
  unfoldable pub resize_config_account :
      (payer : ℕ) → AccountInfo → (size : ℕ) → Result (AccountInfo × List Invocation)
  resize_config_account payer info size =
      let required_lamports = rt.minimum_balance size in
      if ltb info.lamports required_lamports
      then (do
        let call : Invocation = record {
          instruction = Instruction.transfer payer info.key (required_lamports - info.lamports);
          signer_seeds = [];
        }
        rt.invoke call
        ok (record info { lamports = required_lamports }, call ∷ []))
      else ok (info, [])

  -- The configuration, and its account as it was written.
  unfoldable pub upgrade_protocol_config :
      (payer : ℕ) → AccountInfo → Result (ProtocolConfig × AccountInfo × List Invocation)
  upgrade_protocol_config payer info = do
    loaded ← load_protocol_config rt info
    let config = into_current_config loaded
    (resized, calls) ← resize_config_account payer info protocol_config_size
    let hook =
        if config.transfer_hook_program_id == default_pubkey
        then transfer_hook_program_id
        else config.transfer_hook_program_id
    let upgraded = record config {
      transfer_hook_program_id = hook;
      version = current_account_version;
    }
    ok (upgraded, write_protocol_config resized upgraded, calls)

  unfoldable pub upgrade_keeper_config :
      (payer : ℕ) → AccountInfo → Result (KeeperConfig × AccountInfo × List Invocation)
  upgrade_keeper_config payer info = do
    loaded ← load_keeper_config rt info
    (resized, calls) ← resize_config_account payer info keeper_config_size
    let upgraded = record (into_current_keeper loaded) { version = current_account_version }
    ok (upgraded, write_keeper_config resized upgraded, calls)
