-- ===== src/Stream/Transfer.antt =====
-- streaming/transfer.rs: the checks before a stream's transfer, and the transfer.
use vela_protocol.Base.{ℕ, not, some, ◌==◌, List}
use vela_protocol.Errors.{Result, ok, err, vela, VelaError, ◌>>=◌, ◌>>◌, require, require_keys_eq}
use vela_protocol.State.{TokenConfig}
use vela_protocol.Runtime.{Runtime, Seed, AccountInfo, AccountData, Invocation, default_pubkey}
use vela_protocol.Accounts.{
  load_protocol_config, config_paused, config_hook_program_id, config_wrapping_vault,
  TransferCheckedWithHookAccounts, validate_token_2022_transfer_accounts,
  invoke_transfer_checked_with_hook,
}

pub record StreamTransferAccounts : Type 0 where
  pub source : AccountInfo
  pub mint : ℕ
  pub destination : AccountInfo
  pub authority : ℕ
  pub protocol_program : ℕ
  pub wrapping_vault : ℕ
  pub protocol_config : ℕ
  pub pull_approval : ℕ
  pub token_config : AccountInfo
  pub system_program : ℕ
  pub extra_account_meta_list : ℕ
  pub hook_program : ℕ
  pub token_2022_program : ℕ
  pub expected_source_authority : ℕ
  pub expected_destination_owner : ℕ

-- `TokenConfig::try_deserialize`
unfoldable pub decode_token_config : AccountData → Result TokenConfig
decode_token_config (AccountData.token_config (some c)) = ok c
decode_token_config _ = err (vela VelaError.token_not_registered)

module _ (rt : Runtime) where
  unfoldable pub validate_stream_transfer_accounts :
      (protocol_config : AccountInfo) (hook_program wrapping_vault : ℕ) → Result (Unit {0})
  validate_stream_transfer_accounts protocol_config hook_program wrapping_vault = do
    config ← load_protocol_config rt protocol_config
    require (not (config_paused config)) (vela VelaError.protocol_paused)
    let hook_id = config_hook_program_id config
    require (not (hook_id == default_pubkey)) (vela VelaError.invalid_protocol_config)
    require_keys_eq hook_program hook_id (vela VelaError.invalid_protocol_config)
    require_keys_eq wrapping_vault (config_wrapping_vault config) (vela VelaError.vault_mismatch)

  unfoldable pub invoke_stream_transfer : StreamTransferAccounts → ℕ → List Seed → Result Invocation
  invoke_stream_transfer a amount signer_seeds = do
    validate_token_2022_transfer_accounts a.source a.destination a.mint a.token_2022_program
        a.expected_source_authority a.expected_destination_owner
    token_config ← decode_token_config a.token_config.contents
    let accounts : TransferCheckedWithHookAccounts = record {
      source = a.source.key;
      mint = a.mint;
      destination = a.destination.key;
      authority = a.authority;
      protocol_program = a.protocol_program;
      wrapping_vault = a.wrapping_vault;
      protocol_config = a.protocol_config;
      pull_approval = a.pull_approval;
      token_config = a.token_config.key;
      system_program = a.system_program;
      extra_account_meta_list = a.extra_account_meta_list;
      hook_program = a.hook_program;
      token_2022_program = a.token_2022_program;
    }
    invoke_transfer_checked_with_hook rt accounts amount token_config.decimals signer_seeds
