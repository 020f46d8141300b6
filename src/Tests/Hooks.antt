-- ===== src/Tests/Hooks.antt =====
-- The hook, on the transfer of a settlement.
use vela_protocol.Base.{◌≤◌, false, ◌≡◌, ◌↔◌, refl, arith}
use vela_protocol.Base.Int.{pos, ◌-ℤ◌}
use vela_protocol.Errors.{ok, err, vela, VelaError}
use vela_protocol.Runtime.{AccountInfo, AccountData, program_id}
use vela_protocol.Hook.Config.{
  load_protocol_config, load_token_config, deserialize_protocol_config, deserialize_token_config,
}
use vela_protocol.Hook.Handler.{
  TransferHook, check_stream, check_cap, check_authority, check_transfer, touches_vault,
  transfer_hook,
}
use vela_protocol.Hook.Gate.{Passes, transfer_hook-Passes}
use vela_protocol.Hook.Settlement.{check_stream_iff, transfer_hook-settlement}
use vela_protocol.Tests.Fixture.{
  runtime, protocol_config, config_account, token_config_account, meta_list, approval_address,
}
use vela_protocol.Tests.Streams.{stream, stream_address, stream_account, settled_stream}
use vela_protocol.Tests.StreamLives.{settles}

-- A transfer of wrapped tokens from account 21 to account 22 by a protocol authority.
abbrev pub hooked : AccountInfo → AccountInfo → TransferHook
hooked authority approval = record {
  source_token = record {
    key = 21;
    state = record { mint = 14; owner = authority.key; amount = 1_000_000 };
  };
  mint = 14;
  destination_token = record { key = 22; state = record { mint = 14; owner = 12; amount = 0 } };
  owner = authority;
  extra_account_meta_list = meta_list;
  protocol_program = program_id;
  wrapping_vault = 15;
  protocol_config = config_account;
  pull_approval = approval;
  token_config = token_config_account;
}

abbrev no_approval : AccountInfo
no_approval = record {
  key = approval_address stream_address;
  owner = 103;
  lamports = 0;
  contents = AccountData.empty;
}

abbrev settling : TransferHook
settling = hooked (stream_account stream) no_approval

settling_checks :
    (check_transfer runtime settling ≡ ok protocol_config)
    × (touches_vault runtime settling protocol_config ≡ ok false)
unfolding check_transfer load_protocol_config load_token_config deserialize_protocol_config
    deserialize_token_config touches_vault
settling_checks = (refl, refl)

transfer_hook-settlement_example : transfer_hook runtime settling 1000 (pos 1100) ≡ ok tt
transfer_hook-settlement_example =
    transfer_hook-settlement runtime settling protocol_config false stream settled_stream 1000
      (pos 1100) settling_checks.0 settling_checks.1 refl settles (ground arith)

transfer_hook_runs : transfer_hook runtime settling 999 (pos 1100) ≡ ok tt
unfolding transfer_hook check_transfer load_protocol_config load_token_config
    deserialize_protocol_config deserialize_token_config touches_vault check_authority check_stream
    check_cap ◌-ℤ◌
transfer_hook_runs = refl

-- One token more than the rate allows.
transfer_hook_rejects :
    transfer_hook runtime settling 1001 (pos 1100) ≡ err (vela VelaError.amount_exceeds_stream_rate)
unfolding transfer_hook check_transfer load_protocol_config load_token_config
    deserialize_protocol_config deserialize_token_config touches_vault check_authority check_stream
    check_cap ◌-ℤ◌
transfer_hook_rejects = refl

transfer_hook-Passes_example : Passes runtime settling 999 (pos 1100)
transfer_hook-Passes_example =
    transfer_hook-Passes runtime settling 999 (pos 1100) transfer_hook_runs

check_stream_iff_example : (check_stream stream 700 (pos 1100) ≡ ok tt) ↔ (700 ≤ 1000)
check_stream_iff_example =
    check_stream_iff stream (pos 1100) settled_stream 1000 700 settles (ground arith)
