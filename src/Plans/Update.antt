-- ===== src/Plans/Update.antt =====
-- plans/update_mandate_plan.rs: the checks and the handler.
use vela_protocol.Base.{ℕ, true, false, ◌==◌, if◌then◌else◌, Option, none, List, [], ◌∷◌, ◌++◌}
use vela_protocol.Base.Int.{ℤ}
use vela_protocol.Base.Machine.{fit_i64}
use vela_protocol.Errors.{Result, ok, vela, VelaError, ◌>>=◌, ◌>>◌, require, require_keys_eq, ok_or}
use vela_protocol.State.{VelaMandate, TokenConfig}
use vela_protocol.Runtime.{
  Runtime, Seed, AccountInfo, Invocation, Event, program_id, default_pubkey, event_token_symbol,
  require_created,
}
use vela_protocol.Accounts.{
  LoadedPlanAccount, load_plan_account, plan_billing_mint, mandate_amount, write_mandate,
  load_protocol_config, config_wrapped_usdc_mint,
}
use vela_protocol.Stream.Handlers.{check_stream_accounts}
use vela_protocol.Billing.Pull.{check_billing_config, take_plan_terms}
use vela_protocol.Plans.Change.{open_change, check_new_plan, check_change_signer}
use vela_protocol.Plans.Delta.{UpdateMandatePlan, elapsed_in_period, settle_proration}
use vela_protocol.Plans.Proration.{PreciseNumber, compute_proration}

pub record UpdateOutcome : Type 0 where
  pub mandate : AccountInfo
  pub closed : Option (AccountInfo × AccountInfo)
  pub invocations : List Invocation
  pub events : List Event

-- The checks of the token.
unfoldable pub check_change_token : (mint : ℕ) → LoadedPlanAccount → TokenConfig → Result (Unit {0})
check_change_token mint new_plan token_config = do
  require
      (if plan_billing_mint new_plan == default_pubkey
        then true
        else mint == plan_billing_mint new_plan)
      (vela VelaError.token_change_not_supported)
  require token_config.enabled (vela VelaError.token_disabled)
  require_keys_eq token_config.mint mint (vela VelaError.token_not_registered)

module _ (rt : Runtime) where
  -- The constraints that stand at the accounts' declarations.
  unfoldable pub check_update_accounts : UpdateMandatePlan → Result (Unit {0})
  check_update_accounts c = do
    let token_seeds =
        Seed.literal "token_config"
        ∷ Seed.pubkey c.wrapped_usdc_mint
        ∷ Seed.bump c.token_config.state.bump
        ∷ []
    require_created (rt.create_program_address token_seeds program_id) c.token_config.key
    check_stream_accounts rt c.protocol_config.key c.wrapped_usdc_mint c.hook_program
        c.extra_account_meta_list c.protocol_program c.token_2022_program c.system_program

  abbrev initiated_event :
      UpdateMandatePlan → (wrapped_mint : ℕ) → VelaMandate → (proration clock_now : ℤ) → Event
  initiated_event c wrapped_mint mandate proration clock_now =
      Event.mandate_upgrade_initiated (record {
        schema_version = 1;
        mandate = c.mandate.key;
        mint = c.wrapped_usdc_mint;
        token_symbol = event_token_symbol c.wrapped_usdc_mint wrapped_mint;
        old_plan = mandate.plan;
        new_plan = c.new_plan.key;
        proration_amount = proration;
        change_type = 1;
        signer = c.authority.key;
        applied_at = clock_now;
        timestamp = clock_now;
      })

  abbrev finalized_event :
      UpdateMandatePlan → (wrapped_mint : ℕ) → VelaMandate → (proration clock_now : ℤ) → Event
  finalized_event c wrapped_mint mandate proration clock_now =
      Event.mandate_upgrade_finalized (record {
        schema_version = 1;
        mandate = c.mandate.key;
        mint = c.wrapped_usdc_mint;
        token_symbol = event_token_symbol c.wrapped_usdc_mint wrapped_mint;
        old_plan = mandate.plan;
        new_plan = c.new_plan.key;
        proration_amount = proration;
        change_type = 1;
        applied_at = clock_now;
        timestamp = clock_now;
      })

module _ (math : PreciseNumber) (rt : Runtime) where
  -- The change itself, on another plan than the mandate has.
  unfoldable pub apply_update :
      UpdateMandatePlan
      → (wrapped_mint : ℕ) → VelaMandate
      → LoadedPlanAccount
      → ℤ
      → Result UpdateOutcome
  apply_update c wrapped_mint mandate new_plan clock_now = do
    elapsed_seconds ← elapsed_in_period mandate clock_now
    signed_delta ←
        compute_proration math mandate.amount (mandate_amount new_plan) elapsed_seconds
          mandate.frequency
    event_proration_amount ← ok_or (fit_i64 signed_delta) (vela VelaError.math_overflow)
    prorated ← settle_proration rt c wrapped_mint mandate signed_delta clock_now
    let credited = record mandate { credit_balance = prorated.credit_balance }
    ok (record {
      mandate = write_mandate c.mandate (take_plan_terms credited c.new_plan.key new_plan) false;
      closed = prorated.closed;
      invocations = prorated.invocations;
      events =
          initiated_event rt c wrapped_mint mandate event_proration_amount clock_now
            ∷ prorated.events
          ++ finalized_event rt c wrapped_mint mandate event_proration_amount clock_now ∷ [];
    })

  unfoldable pub update_mandate_plan : UpdateMandatePlan → ℤ → Result UpdateOutcome
  unfolding apply_update
  update_mandate_plan c clock_now = do
    check_update_accounts rt c
    config ← load_protocol_config rt c.protocol_config
    check_billing_config config c.hook_program c.wrapping_vault
    mandate ← open_change rt c.mandate
    new_plan ← load_plan_account rt c.new_plan
    check_new_plan new_plan mandate
    check_change_token c.wrapped_usdc_mint new_plan c.token_config.state
    check_change_signer c.authority.key (mandate_amount new_plan) mandate
    if mandate.plan == c.new_plan.key
        then ok (record { mandate = c.mandate; closed = none; invocations = []; events = [] })
        else apply_update c (config_wrapped_usdc_mint config) mandate new_plan clock_now
