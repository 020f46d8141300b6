-- ===== src/Billing/Pull/Accounts.antt =====
-- billing/execute_pull.rs: the accounts of a pull, and the checks of the configuration, the plan, the
-- mandate and the clock that stand before the change of the plan.
use vela_protocol.Base.{
  ℕ, Bool, true, false, Option, none, some, not, ◌==◌, ◌||◌, ltb, if◌then◌else◌, List, [], ◌∷◌,
  get_elem?,
}
use vela_protocol.Base.Int.{ℤ, pos, ltb_ℤ, leb_ℤ}
use vela_protocol.Errors.{
  Result, ok, vela, anchor, VelaError, AnchorError, ◌>>=◌, ◌>>◌, require, require_keys_eq, ok_or,
}
use vela_protocol.State.{VelaMandate, TokenConfig, BillingType, MandateStatus, is_plan_active}
use vela_protocol.Runtime.{
  Runtime, Seed, AccountInfo, Loaded, program_id, default_pubkey, require_created,
}
use vela_protocol.Accounts.{
  LoadedProtocolConfig, config_paused, config_hook_program_id, config_wrapping_vault,
  config_wrapped_usdc_mint, LoadedPlanAccount, plan_status, plan_billing_mint, plan_merchant,
  require_plan_billing_type, same_billing_type,
}
use vela_protocol.Stream.Handlers.{check_stream_accounts}

-- `payer` has signed. Accounts of which only the key is used are given by it.
pub record ExecutePull : Type 0 where
  pub payer : AccountInfo
  pub subscriber : ℕ
  pub merchant : ℕ
  pub keeper_config : AccountInfo
  pub plan : AccountInfo
  pub mandate : AccountInfo
  pub subscriber_wrapped_account : AccountInfo
  pub merchant_wrapped_account : AccountInfo
  pub wrapped_usdc_mint : ℕ
  pub pull_approval : AccountInfo
  pub token_config : Loaded TokenConfig
  pub protocol_config : AccountInfo
  pub wrapping_vault : ℕ
  pub hook_program : ℕ
  pub extra_account_meta_list : ℕ
  pub protocol_program : ℕ
  pub token_2022_program : ℕ
  pub system_program : ℕ
  pub remaining_accounts : List AccountInfo

-- `matches!(mandate.status, MandateStatus::Active)`
abbrev pub is_mandate_active : MandateStatus → Bool
is_mandate_active MandateStatus.active = true
is_mandate_active _ = false

-- `mandate.billing_type == BillingType::Usage`
abbrev pub is_usage : BillingType → Bool
is_usage t = same_billing_type t BillingType.usage

-- The checks of the configuration, the same in update_mandate_plan.rs.
unfoldable pub check_billing_config :
    LoadedProtocolConfig → (hook_program wrapping_vault : ℕ) → Result (Unit {0})
check_billing_config config hook_program wrapping_vault = do
  require (not (config_paused config)) (vela VelaError.protocol_paused)
  let hook_program_id = config_hook_program_id config
  require (not (hook_program_id == default_pubkey)) (vela VelaError.invalid_protocol_config)
  require_keys_eq hook_program hook_program_id (vela VelaError.invalid_protocol_config)
  require_keys_eq wrapping_vault (config_wrapping_vault config) (vela VelaError.vault_mismatch)

unfoldable pub check_billing_mint : (mint billing_mint wrapped_usdc_mint : ℕ) → Result (Unit {0})
check_billing_mint mint billing_mint wrapped_usdc_mint =
    if billing_mint == default_pubkey
    then require_keys_eq mint wrapped_usdc_mint (vela VelaError.usdc_mint_mismatch)
    else require_keys_eq mint billing_mint (vela VelaError.token_change_not_supported)

-- The checks of the signer, the plan, the token and the mandate.
unfoldable pub check_pull :
    ExecutePull
    → (keeper : ℕ) → LoadedProtocolConfig
    → LoadedPlanAccount
    → VelaMandate
    → Result (Unit {0})
check_pull c keeper config plan mandate = do
  require (c.payer.key == keeper || c.payer.key == mandate.subscriber)
      (vela VelaError.unauthorized_keeper)
  require_plan_billing_type plan mandate.billing_type
  require (is_plan_active (plan_status plan)) (vela VelaError.plan_not_active)
  check_billing_mint c.wrapped_usdc_mint (plan_billing_mint plan) (config_wrapped_usdc_mint config)
  require c.token_config.state.enabled (vela VelaError.token_disabled)
  require_keys_eq c.token_config.state.mint c.wrapped_usdc_mint
      (vela VelaError.token_not_registered)
  require (is_mandate_active mandate.status) (vela VelaError.mandate_not_active)
  require_keys_eq c.plan.key mandate.plan (anchor AnchorError.require_keys_eq_violated)
  require_keys_eq (plan_merchant plan) c.merchant (anchor AnchorError.require_keys_eq_violated)
  require_keys_eq mandate.subscriber c.subscriber (anchor AnchorError.require_keys_eq_violated)
  require_keys_eq mandate.merchant c.merchant (anchor AnchorError.require_keys_eq_violated)
  require (mandate.last_billing_recorded_pull == mandate.pulls_executed)
      (vela VelaError.pending_billing_record)

-- The checks of the clock and of the number of pulls.
unfoldable pub check_due : VelaMandate → ℤ → Result (Unit {0})
check_due mandate now = do
  require (if ltb_ℤ (pos 0) mandate.expiry then ltb_ℤ now mandate.expiry else true)
      (vela VelaError.mandate_expired)
  require (ltb mandate.pulls_executed mandate.max_pulls) (vela VelaError.max_pulls_exceeded)
  require (leb_ℤ mandate.next_payment_due now) (vela VelaError.pull_too_early)

-- The usage report, which a usage mandate needs: the first of the remaining accounts.
unfoldable pub usage_report_info : ExecutePull → BillingType → Result (Option AccountInfo)
usage_report_info c BillingType.flat = ok none
usage_report_info c BillingType.usage = do
  report ← ok_or (get_elem? c.remaining_accounts 0) (vela VelaError.period_mismatch)
  ok (some report)

module _ (rt : Runtime) where
  -- The constraints that stand at the accounts' declarations.
  unfoldable pub check_execute_pull_accounts : ExecutePull → Result (Unit {0})
  check_execute_pull_accounts c = do
    let keeper_address = (rt.find_program_address (Seed.literal "keeper-config" ∷ []) program_id).0
    let token_seeds =
        Seed.literal "token_config"
        ∷ Seed.pubkey c.wrapped_usdc_mint
        ∷ Seed.bump c.token_config.state.bump
        ∷ []
    require (c.keeper_config.key == keeper_address) (anchor AnchorError.constraint_seeds)
    require_created (rt.create_program_address token_seeds program_id) c.token_config.key
    check_stream_accounts rt c.protocol_config.key c.wrapped_usdc_mint c.hook_program
        c.extra_account_meta_list c.protocol_program c.token_2022_program c.system_program
