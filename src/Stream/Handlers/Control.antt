-- ===== src/Stream/Handlers/Control.antt =====
-- What the handlers of a stream share: the accounts of pause_stream.rs, cancel_stream.rs and
-- update_stream_rate.rs, which are the same, and the transfer of what was settled.
use vela_protocol.Base.{ℕ, ltb, ◌==◌, if◌then◌else◌, ◌||◌, Bool, List, [], ◌∷◌, ◌++◌}
use vela_protocol.Errors.{
  Result, ok, vela, anchor, VelaError, AnchorError, ◌>>=◌, ◌>>◌, require, require_keys_eq,
}
use vela_protocol.State.{StreamMandate}
use vela_protocol.Runtime.{
  Runtime, Seed, AccountInfo, Invocation, Event, program_id, require_program,
}
use vela_protocol.Accounts.{LoadedProtocolConfig, load_protocol_config}
use vela_protocol.Stream.Account.{
  stream_seeds, load_stream_mandate, validate_stream_mandate_address,
}
use vela_protocol.Stream.Transfer.{
  validate_stream_transfer_accounts, StreamTransferAccounts, invoke_stream_transfer,
}

-- `authority` is the key of an account that has signed. Accounts of which only the key is used are
-- given by it.
pub record PauseStream : Type 0 where
  pub authority : ℕ
  pub mandate : AccountInfo
  pub subscriber_wrapped_account : AccountInfo
  pub merchant_wrapped_account : AccountInfo
  pub wrapped_usdc_mint : ℕ
  pub pull_approval : ℕ
  pub token_config : AccountInfo
  pub protocol_config : AccountInfo
  pub wrapping_vault : ℕ
  pub hook_program : ℕ
  pub extra_account_meta_list : ℕ
  pub protocol_program : ℕ
  pub token_2022_program : ℕ
  pub system_program : ℕ

abbrev pub CancelStream : Type 0
CancelStream = PauseStream

abbrev pub UpdateStreamRate : Type 0
UpdateStreamRate = PauseStream

-- What a handler leaves behind.
pub record StreamOutcome : Type 0 where
  pub mandate : AccountInfo
  pub invocations : List Invocation
  pub events : List Event

-- `authority == mandate.subscriber || authority == mandate.merchant`
unfoldable pub is_party : ℕ → StreamMandate → Bool
is_party authority m = authority == m.subscriber || authority == m.merchant

-- The accounts of the transfer.
abbrev pub settlement_accounts : PauseStream → StreamMandate → StreamTransferAccounts
settlement_accounts c m = record {
  source = c.subscriber_wrapped_account;
  mint = c.wrapped_usdc_mint;
  destination = c.merchant_wrapped_account;
  authority = c.mandate.key;
  protocol_program = c.protocol_program;
  wrapping_vault = c.wrapping_vault;
  protocol_config = c.protocol_config.key;
  pull_approval = c.pull_approval;
  token_config = c.token_config;
  system_program = c.system_program;
  extra_account_meta_list = c.extra_account_meta_list;
  hook_program = c.hook_program;
  token_2022_program = c.token_2022_program;
  expected_source_authority = c.mandate.key;
  expected_destination_owner = m.merchant;
}

-- `signer_seeds` of the transfer.
abbrev pub settlement_seeds : StreamMandate → List Seed
settlement_seeds m = stream_seeds m.subscriber m.merchant m.mandate_index ++ Seed.bump m.bump ∷ []

module _ (rt : Runtime) where
  -- The constraints that stand at the accounts' declarations, in their order.
  unfoldable pub check_stream_accounts :
      (protocol_config mint hook_program meta_list protocol_program token_2022 system : ℕ)
      → Result (Unit {0})
  check_stream_accounts protocol_config mint hook_program meta_list protocol_program token_2022
        system =
      do
        let config_address = (rt.find_program_address (Seed.literal "config" ∷ []) program_id).0
        let meta_seeds = Seed.literal "extra-account-metas" ∷ Seed.pubkey mint ∷ []
        let meta_address = (rt.find_program_address meta_seeds hook_program).0
        require (protocol_config == config_address) (anchor AnchorError.constraint_seeds)
        require (meta_list == meta_address) (anchor AnchorError.constraint_seeds)
        require (protocol_program == program_id) (anchor AnchorError.constraint_address)
        require_program token_2022 rt.token_2022_id
        require_program system rt.system_program_id

  unfoldable pub check_control_accounts : PauseStream → Result (Unit {0})
  check_control_accounts c =
      check_stream_accounts c.protocol_config.key c.wrapped_usdc_mint c.hook_program
        c.extra_account_meta_list c.protocol_program c.token_2022_program c.system_program

  -- The first checks, the same in the three handlers: the accounts, the protocol's configuration,
  -- and the stream with its address and mint.
  unfoldable pub open_stream : PauseStream → Result (LoadedProtocolConfig × StreamMandate)
  open_stream c = do
    check_control_accounts c
    validate_stream_transfer_accounts rt c.protocol_config c.hook_program c.wrapping_vault
    config ← load_protocol_config rt c.protocol_config
    loaded ← load_stream_mandate c.mandate
    validate_stream_mandate_address rt c.mandate.key loaded
    require_keys_eq c.wrapped_usdc_mint loaded.mint (vela VelaError.usdc_mint_mismatch)
    ok (config, loaded)

  -- `if settle_amount > 0 { invoke_stream_transfer(…)? }`, the same in the three handlers.
  unfoldable pub pay_settlement : PauseStream → StreamMandate → ℕ → Result (List Invocation)
  pay_settlement c m settle_amount =
      if ltb 0 settle_amount
      then (do
        call ←
            invoke_stream_transfer rt (settlement_accounts c m) settle_amount (settlement_seeds m)
        ok (call ∷ []))
      else ok []
