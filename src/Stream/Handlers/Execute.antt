-- ===== src/Stream/Handlers/Execute.antt =====
-- streaming/execute_stream.rs
use vela_protocol.Base.{ℕ, ◌==◌, ◌||◌, if◌then◌else◌, [], ◌∷◌, ◌++◌, List}
use vela_protocol.Base.Int.{ℤ}
use vela_protocol.Errors.{
  Result, ok, vela, anchor, VelaError, AnchorError, ◌>>=◌, ◌>>◌, require, require_keys_eq,
}
use vela_protocol.State.{StreamMandate}
use vela_protocol.Runtime.{Runtime, Seed, AccountInfo, Event, program_id, event_token_symbol}
use vela_protocol.Accounts.{
  load_protocol_config, config_wrapped_usdc_mint, load_keeper_config, keeper_authority,
}
use vela_protocol.Stream.Account.{
  stream_seeds, load_stream_mandate, validate_stream_mandate_address, write_stream_mandate,
  settle_accrued_in_place,
}
use vela_protocol.Stream.Transfer.{
  StreamTransferAccounts, validate_stream_transfer_accounts, invoke_stream_transfer,
}
use vela_protocol.Stream.Handlers.Control.{StreamOutcome, check_stream_accounts}

pub record ExecuteStream : Type 0 where
  pub payer : ℕ
  pub subscriber : ℕ
  pub merchant : ℕ
  pub keeper_config : AccountInfo
  pub stream_mandate : AccountInfo
  pub subscriber_wrapped_account : AccountInfo
  pub merchant_wrapped_account : AccountInfo
  pub wrapped_usdc_mint : ℕ
  pub pull_approval : ℕ
  pub token_config : AccountInfo
  pub protocol_config : AccountInfo
  pub wrapping_vault : ℕ
  pub hook_program : ℕ
  pub extra_account_meta_list : ℕ
  pub protocol_program : ℕ
  pub token_2022_program : ℕ
  pub system_program : ℕ

-- The accounts of the transfer.
abbrev pub execute_transfer_accounts : ExecuteStream → StreamMandate → StreamTransferAccounts
execute_transfer_accounts c m = record {
  source = c.subscriber_wrapped_account;
  mint = c.wrapped_usdc_mint;
  destination = c.merchant_wrapped_account;
  authority = c.stream_mandate.key;
  protocol_program = c.protocol_program;
  wrapping_vault = c.wrapping_vault;
  protocol_config = c.protocol_config.key;
  pull_approval = c.pull_approval;
  token_config = c.token_config;
  system_program = c.system_program;
  extra_account_meta_list = c.extra_account_meta_list;
  hook_program = c.hook_program;
  token_2022_program = c.token_2022_program;
  expected_source_authority = c.stream_mandate.key;
  expected_destination_owner = m.merchant;
}

module _ (rt : Runtime) where
  unfoldable pub check_execute_accounts : ExecuteStream → Result (Unit {0})
  check_execute_accounts c = do
    let keeper_address = (rt.find_program_address (Seed.literal "keeper-config" ∷ []) program_id).0
    require (c.keeper_config.key == keeper_address) (anchor AnchorError.constraint_seeds)
    check_stream_accounts rt c.protocol_config.key c.wrapped_usdc_mint c.hook_program
        c.extra_account_meta_list c.protocol_program c.token_2022_program c.system_program

  -- The seeds with which the stream signs.
  abbrev pub execute_seeds : StreamMandate → List Seed
  execute_seeds m =
      let seeds = stream_seeds m.subscriber m.merchant m.mandate_index in
      seeds ++ Seed.bump (rt.find_program_address seeds program_id).1 ∷ []

  -- The checks of the keys and the signer.
  unfoldable pub check_execute : ExecuteStream → StreamMandate → ℕ → Result (Unit {0})
  check_execute c stream keeper = do
    validate_stream_mandate_address rt c.stream_mandate.key stream
    require_keys_eq c.subscriber stream.subscriber (anchor AnchorError.require_keys_eq_violated)
    require_keys_eq c.merchant stream.merchant (anchor AnchorError.require_keys_eq_violated)
    require_keys_eq c.wrapped_usdc_mint stream.mint (vela VelaError.usdc_mint_mismatch)
    require (c.payer == keeper || c.payer == stream.merchant || c.payer == stream.subscriber)
        (vela VelaError.unauthorized_stream_signer)
    let approval_seeds = Seed.literal "approval" ∷ Seed.pubkey c.stream_mandate.key ∷ []
    require_keys_eq c.pull_approval (rt.find_program_address approval_seeds program_id).0
        (vela VelaError.transfer_not_authorized)

  -- The transfer of what was settled, and the event.
  unfoldable pub pay_stream : ExecuteStream → StreamMandate → ℕ → ℕ → ℤ → Result StreamOutcome
  pay_stream c stream settle_amount wrapped_mint clock_now = do
    call ←
        invoke_stream_transfer rt (execute_transfer_accounts c stream) settle_amount
          (execute_seeds stream)
    let event = Event.stream_settled (record {
      schema_version = 1;
      mandate = c.stream_mandate.key;
      mint = stream.mint;
      token_symbol = event_token_symbol stream.mint wrapped_mint;
      amount = settle_amount;
      total_streamed_after = stream.total_streamed;
      last_settled_ts = stream.last_settled_ts;
      timestamp = clock_now;
    })
    ok (record {
      mandate = write_stream_mandate c.stream_mandate stream;
      invocations = call ∷ [];
      events = event ∷ [];
    })

  unfoldable pub execute_stream : ExecuteStream → ℤ → Result StreamOutcome
  execute_stream c clock_now = do
    check_execute_accounts c
    keeper_config ← load_keeper_config rt c.keeper_config
    validate_stream_transfer_accounts rt c.protocol_config c.hook_program c.wrapping_vault
    loaded ← load_stream_mandate c.stream_mandate
    config ← load_protocol_config rt c.protocol_config
    check_execute c loaded (keeper_authority keeper_config)
    (settled, settle_amount) ← settle_accrued_in_place loaded clock_now
    if settle_amount == 0
        then ok (record {
          mandate = write_stream_mandate c.stream_mandate settled;
          invocations = [];
          events = [];
        })
        else pay_stream c settled settle_amount (config_wrapped_usdc_mint config) clock_now
