-- ===== src/Tests/BillingHooks.antt =====
-- The hook, on the transfer of a pull.
use vela_protocol.Base.{false, ◌≡◌, refl}
use vela_protocol.Base.Int.{pos}
use vela_protocol.Errors.{ok}
use vela_protocol.Runtime.{AccountInfo}
use vela_protocol.Hook.Config.{
  load_protocol_config, load_token_config, deserialize_protocol_config, deserialize_token_config,
}
use vela_protocol.Hook.Handler.{TransferHook, check_transfer, touches_vault, transfer_hook}
use vela_protocol.Hook.Billing.{transfer_hook-execute_pull}
use vela_protocol.Tests.Fixture.{runtime, protocol_config}
use vela_protocol.Tests.Hooks.{hooked}
use vela_protocol.Tests.Billing.{
  mandate, mandate_account, approval_account, pulling, billed, execute_pull_runs,
}

abbrev billing : AccountInfo → TransferHook
billing info = hooked info (approval_account info.key)

billing_checks :
    (check_transfer runtime (billing (mandate_account mandate)) ≡ ok protocol_config)
    × (touches_vault runtime (billing (mandate_account mandate)) protocol_config ≡ ok false)
unfolding check_transfer load_protocol_config load_token_config deserialize_protocol_config
    deserialize_token_config touches_vault
billing_checks = (refl, refl)

transfer_hook-execute_pull_example :
    transfer_hook runtime (billing (mandate_account mandate)) 400 (pos 10_100) ≡ ok tt
transfer_hook-execute_pull_example =
    transfer_hook-execute_pull runtime (pulling (mandate_account mandate))
      (billing (mandate_account mandate)) protocol_config false mandate 400 (pos 10_100) billed
      execute_pull_runs.0 execute_pull_runs.1 refl refl refl billing_checks.0 billing_checks.1
