-- ===== src/Tests/Streams.antt =====
-- A stream from its creation to its cancellation.
use vela_protocol.Base.{ℕ, none, some, ◌≡◌, refl, []}
use vela_protocol.Base.Int.{pos, ◌-ℤ◌}
use vela_protocol.Errors.{ok}
use vela_protocol.State.{StreamMandate, StreamStatus}
use vela_protocol.Runtime.{AccountInfo, AccountData, program_id, transfer_hook_program_id, moved}
use vela_protocol.Accounts.{
  load_protocol_config, validate_protocol_config_address, decode_protocol_config, config_paused,
  config_hook_program_id, config_wrapping_vault, config_wrapped_usdc_mint, load_keeper_config,
  decode_keeper_config, keeper_authority, validate_token_2022_transfer_accounts,
  unpack_token_account, transfer_hook_account_metas, invoke_transfer_checked_with_hook,
}
use vela_protocol.Stream.Account.{
  stream_seeds, load_stream_mandate, decode_stream_mandate, write_stream_mandate,
  settle_accrued_in_place, settle_accrued, validate_stream_mandate_address, remaining_cap,
}
use vela_protocol.Stream.Transfer.{
  validate_stream_transfer_accounts, invoke_stream_transfer, decode_token_config,
}
use vela_protocol.Stream.Handlers.{
  PauseStream, ResumeStream, ExecuteStream, StreamOutcome, check_execute_accounts, check_execute,
  check_stream_accounts, check_control_accounts, pay_stream, open_stream, is_party, pay_settlement,
  settle_before_pause, settle_before_cancel, check_rate_change, execute_stream, pause_stream,
  resume_stream, cancel_stream, update_stream_rate,
}
use vela_protocol.Tests.Fixture.{
  runtime, from_ok, address, config_account, keeper_account, token_config_account, wrapped_tokens,
  meta_list, approval_address,
}

-- Ten tokens a second, up to 20 and to 100 000 in all, settled at 1000.
abbrev pub stream : StreamMandate
stream = record {
  version = 1;
  subscriber = 11;
  merchant = 12;
  mint = 14;
  rate_per_second = 10;
  authorized_max_rate = 20;
  last_settled_ts = pos 1000;
  total_streamed = 500;
  max_streamed = some 100_000;
  paused_at = none;
  min_settle_interval = 60;
  status = StreamStatus.active;
  mandate_index = 0;
  bump = 255;
  pending_new_rate_per_second = 0;
  pending_new_authorized_max_rate = 0;
  pending_effective_at = pos 0;
  pending_change_type = 0;
  pending_nonce_short = 0;
}

abbrev pub stream_address : ℕ
stream_address = address (stream_seeds 11 12 0)

abbrev pub stream_account : StreamMandate → AccountInfo
stream_account m = record {
  key = stream_address;
  owner = program_id;
  lamports = 1000;
  contents = AccountData.stream_mandate (some m);
}

abbrev no_outcome : StreamOutcome
no_outcome = record { mandate = stream_account stream; invocations = []; events = [] }

abbrev pub executing : ExecuteStream
executing = record {
  payer = 13;
  subscriber = 11;
  merchant = 12;
  keeper_config = keeper_account;
  stream_mandate = stream_account stream;
  subscriber_wrapped_account = wrapped_tokens 21 stream_address;
  merchant_wrapped_account = wrapped_tokens 22 12;
  wrapped_usdc_mint = 14;
  pull_approval = approval_address stream_address;
  token_config = token_config_account;
  protocol_config = config_account;
  wrapping_vault = 15;
  hook_program = transfer_hook_program_id;
  extra_account_meta_list = meta_list;
  protocol_program = program_id;
  token_2022_program = 101;
  system_program = 103;
}

abbrev pub executed : StreamOutcome
executed = from_ok no_outcome (execute_stream runtime executing (pos 1100))

pub execute_stream_runs : execute_stream runtime executing (pos 1100) ≡ ok executed
unfolding load_protocol_config validate_protocol_config_address decode_protocol_config config_paused
    config_hook_program_id config_wrapping_vault config_wrapped_usdc_mint load_stream_mandate
    decode_stream_mandate validate_stream_mandate_address settle_accrued_in_place settle_accrued
    remaining_cap ◌-ℤ◌ invoke_stream_transfer validate_token_2022_transfer_accounts
    unpack_token_account decode_token_config invoke_transfer_checked_with_hook
    transfer_hook_account_metas write_stream_mandate validate_stream_transfer_accounts
    check_stream_accounts execute_stream check_execute_accounts load_keeper_config
    decode_keeper_config keeper_authority check_execute pay_stream
execute_stream_runs = refl

-- A thousand tokens go to the merchant.
pub execute_stream_moves : moved 21 22 stream_address executed.invocations ≡ some 1000
unfolding load_protocol_config validate_protocol_config_address decode_protocol_config config_paused
    config_hook_program_id config_wrapping_vault config_wrapped_usdc_mint load_stream_mandate
    decode_stream_mandate validate_stream_mandate_address settle_accrued_in_place settle_accrued
    remaining_cap ◌-ℤ◌ invoke_stream_transfer validate_token_2022_transfer_accounts
    unpack_token_account decode_token_config invoke_transfer_checked_with_hook
    transfer_hook_account_metas write_stream_mandate validate_stream_transfer_accounts
    check_stream_accounts execute_stream check_execute_accounts load_keeper_config
    decode_keeper_config keeper_authority check_execute pay_stream
execute_stream_moves = refl

abbrev pub settled_stream : StreamMandate
settled_stream = record stream { total_streamed = 1500; last_settled_ts = pos 1100 }

pub execute_stream_writes :
    executed.mandate ≡ write_stream_mandate (stream_account stream) settled_stream
unfolding load_protocol_config validate_protocol_config_address decode_protocol_config config_paused
    config_hook_program_id config_wrapping_vault config_wrapped_usdc_mint load_stream_mandate
    decode_stream_mandate validate_stream_mandate_address settle_accrued_in_place settle_accrued
    remaining_cap ◌-ℤ◌ invoke_stream_transfer validate_token_2022_transfer_accounts
    unpack_token_account decode_token_config invoke_transfer_checked_with_hook
    transfer_hook_account_metas write_stream_mandate validate_stream_transfer_accounts
    check_stream_accounts execute_stream check_execute_accounts load_keeper_config
    decode_keeper_config keeper_authority check_execute pay_stream
execute_stream_writes = refl

abbrev pub controlling : ℕ → StreamMandate → PauseStream
controlling authority m = record {
  authority = authority;
  mandate = stream_account m;
  subscriber_wrapped_account = wrapped_tokens 21 stream_address;
  merchant_wrapped_account = wrapped_tokens 22 12;
  wrapped_usdc_mint = 14;
  pull_approval = approval_address stream_address;
  token_config = token_config_account;
  protocol_config = config_account;
  wrapping_vault = 15;
  hook_program = transfer_hook_program_id;
  extra_account_meta_list = meta_list;
  protocol_program = program_id;
  token_2022_program = 101;
  system_program = 103;
}

abbrev paused : StreamOutcome
paused = from_ok no_outcome (pause_stream runtime (controlling 12 stream) (pos 1100))

pause_stream_runs : pause_stream runtime (controlling 12 stream) (pos 1100) ≡ ok paused
unfolding load_protocol_config validate_protocol_config_address decode_protocol_config config_paused
    config_hook_program_id config_wrapping_vault config_wrapped_usdc_mint load_stream_mandate
    decode_stream_mandate validate_stream_mandate_address settle_accrued_in_place settle_accrued
    remaining_cap ◌-ℤ◌ invoke_stream_transfer validate_token_2022_transfer_accounts
    unpack_token_account decode_token_config invoke_transfer_checked_with_hook
    transfer_hook_account_metas write_stream_mandate validate_stream_transfer_accounts
    check_stream_accounts open_stream check_control_accounts is_party pay_settlement pause_stream
    settle_before_pause
pause_stream_runs = refl

abbrev cancelled : StreamOutcome
cancelled = from_ok no_outcome (cancel_stream runtime (controlling 11 stream) (pos 1100))

cancel_stream_runs : cancel_stream runtime (controlling 11 stream) (pos 1100) ≡ ok cancelled
unfolding load_protocol_config validate_protocol_config_address decode_protocol_config config_paused
    config_hook_program_id config_wrapping_vault config_wrapped_usdc_mint load_stream_mandate
    decode_stream_mandate validate_stream_mandate_address settle_accrued_in_place settle_accrued
    remaining_cap ◌-ℤ◌ invoke_stream_transfer validate_token_2022_transfer_accounts
    unpack_token_account decode_token_config invoke_transfer_checked_with_hook
    transfer_hook_account_metas write_stream_mandate validate_stream_transfer_accounts
    check_stream_accounts open_stream check_control_accounts is_party pay_settlement cancel_stream
    settle_before_cancel
cancel_stream_runs = refl

abbrev raised : StreamOutcome
raised =
    from_ok no_outcome
      (update_stream_rate runtime (controlling 11 stream) (some 30) (some 40) (pos 1100))

update_stream_rate_runs :
    update_stream_rate runtime (controlling 11 stream) (some 30) (some 40) (pos 1100) ≡ ok raised
unfolding load_protocol_config validate_protocol_config_address decode_protocol_config config_paused
    config_hook_program_id config_wrapping_vault config_wrapped_usdc_mint load_stream_mandate
    decode_stream_mandate validate_stream_mandate_address settle_accrued_in_place settle_accrued
    remaining_cap ◌-ℤ◌ invoke_stream_transfer validate_token_2022_transfer_accounts
    unpack_token_account decode_token_config invoke_transfer_checked_with_hook
    transfer_hook_account_metas write_stream_mandate validate_stream_transfer_accounts
    check_stream_accounts open_stream check_control_accounts is_party pay_settlement
    update_stream_rate check_rate_change
update_stream_rate_runs = refl

-- The stream after the pause.
abbrev pub paused_stream : StreamMandate
paused_stream = record stream {
  total_streamed = 1500;
  last_settled_ts = pos 1100;
  paused_at = some (pos 1100);
  status = StreamStatus.paused;
}

abbrev resuming : ResumeStream
resuming = record { authority = 11; mandate = stream_account paused_stream }

abbrev resumed : StreamOutcome
resumed = from_ok no_outcome (resume_stream runtime resuming (pos 5000))

resume_stream_runs : resume_stream runtime resuming (pos 5000) ≡ ok resumed
unfolding resume_stream load_stream_mandate decode_stream_mandate validate_stream_mandate_address
    is_party write_stream_mandate ◌-ℤ◌
resume_stream_runs = refl
