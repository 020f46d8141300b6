-- ===== src/Tests/Wrapping.antt =====
-- Wrapping and unwrapping of tokens, and a run with an agent mandate.
use vela_protocol.Base.{◌≡◌, refl, arith, List, [], ◌∷◌, ◌++◌}
use vela_protocol.Errors.{ok}
use vela_protocol.Runtime.{Invocation, Seed, KeepsBacking}
use vela_protocol.Accounts.{
  load_protocol_config, validate_protocol_config_address, decode_protocol_config,
  config_wrapped_usdc_mint, config_wrapping_vault,
}
use vela_protocol.Wrapping.Handlers.{
  Wrap, Unwrap, check_wrap_accounts, wrap, check_unwrap_accounts, unwrap,
}
use vela_protocol.Wrapping.Run.{BackingStep, BackingRun, BackingRun-KeepsBacking}
use vela_protocol.Tests.Fixture.{runtime, from_ok, address, config_account}
use vela_protocol.Tests.Agents.{tokens}
use vela_protocol.Tests.AgentLives.{vault, usdc, revoking, revoked_agent, revoke_agent_mandate_runs}

abbrev wrapping : Wrap
wrapping = record {
  subscriber = 31;
  config = config_account;
  spl_usdc_mint = 37;
  wrapped_usdc_mint = 14;
  subscriber_usdc_account = usdc;
  destination_wrapped_account = tokens 21 31;
  destination_authority = 31;
  wrapping_vault = vault;
  mint_authority = address (Seed.literal "mint-authority" ∷ []);
  spl_token_program = 102;
  token_2022_program = 101;
}

abbrev wrapped_calls : List Invocation
wrapped_calls = from_ok [] (wrap runtime wrapping 300)

wrap_runs : wrap runtime wrapping 300 ≡ ok wrapped_calls
unfolding wrap check_wrap_accounts load_protocol_config validate_protocol_config_address
    decode_protocol_config config_wrapped_usdc_mint config_wrapping_vault
wrap_runs = refl

abbrev unwrapping : Unwrap
unwrapping = record {
  user = 31;
  config = config_account;
  spl_usdc_mint = 37;
  wrapped_usdc_mint = 14;
  user_wrapped_account = tokens 21 31;
  user_usdc_account = usdc;
  wrapping_vault = vault;
  mint_authority = address (Seed.literal "mint-authority" ∷ []);
  spl_token_program = 102;
  token_2022_program = 101;
}

abbrev unwrapped_calls : List Invocation
unwrapped_calls = from_ok [] (unwrap runtime unwrapping 200)

unwrap_runs : unwrap runtime unwrapping 200 ≡ ok unwrapped_calls
unfolding unwrap check_unwrap_accounts load_protocol_config validate_protocol_config_address
    decode_protocol_config config_wrapped_usdc_mint config_wrapping_vault
unwrap_runs = refl

-- 300 are wrapped, 200 unwrapped, and a mandate that holds 900 is revoked.
wrap_unwrap_revoke :
    BackingRun runtime 14 15
      (38 ∷ 38 ∷ 38 ∷ [])
      (wrapped_calls ++ (unwrapped_calls ++ (revoked_agent.invocations ++ [])))
wrap_unwrap_revoke = BackingRun.more (BackingStep.wrapped wrapping 300 wrapped_calls wrap_runs) (
    BackingRun.more (BackingStep.unwrapped unwrapping 200 unwrapped_calls unwrap_runs) (
      BackingRun.more (BackingStep.revoked revoking revoked_agent revoke_agent_mandate_runs)
        BackingRun.done))

BackingRun-KeepsBacking_example :
    KeepsBacking 14 15 (wrapped_calls ++ (unwrapped_calls ++ (revoked_agent.invocations ++ [])))
BackingRun-KeepsBacking_example =
    BackingRun-KeepsBacking runtime 14 15 (38 ∷ 38 ∷ 38 ∷ [])
      (wrapped_calls ++ (unwrapped_calls ++ (revoked_agent.invocations ++ []))) wrap_unwrap_revoke
      (λ e. ground arith, (λ e. ground arith, (λ e. ground arith, tt)))
