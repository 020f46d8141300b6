-- ===== src/Billing/Pull/Execute.antt =====
-- billing/execute_pull.rs: the transfer and the handler.
use vela_protocol.Base.{ℕ, Bool, Option, none, some, ltb, if◌then◌else◌, List, [], ◌∷◌, ◌++◌}
use vela_protocol.Base.Int.{ℤ, pos}
use vela_protocol.Errors.{Result, ok, ◌>>=◌, ◌>>◌}
use vela_protocol.State.{VelaMandate}
use vela_protocol.Runtime.{Runtime, Seed, AccountInfo, Invocation, Event, event_token_symbol}
use vela_protocol.Accounts.{
  LoadedProtocolConfig, load_protocol_config, config_wrapped_usdc_mint, load_keeper_config,
  keeper_authority, load_plan_account, load_mandate_account, validate_loaded_mandate_address,
  is_legacy_mandate, into_current_mandate, mandate_billing_period, write_mandate, v2_mandate_seeds,
  legacy_mandate_seeds, TransferCheckedWithHookAccounts, validate_token_2022_transfer_accounts,
  invoke_transfer_checked_with_hook, close_program_account, LoadedMandateAccount,
}
use vela_protocol.Billing.Pull.Accounts.{
  ExecutePull, check_execute_pull_accounts, check_billing_config, check_pull, check_due,
  usage_report_info,
}
use vela_protocol.Billing.Pull.Change.{PlanChange, Billed, apply_pending}
use vela_protocol.Billing.Pull.Approval.{
  load_pull_approval, check_approval_terms, check_reported, settle_reported,
}
use vela_protocol.Billing.Pull.Charge.{base_charge, use_credit, record_pull}

-- What a pull leaves behind: `report` is the settled usage report, `closed` the account of the
-- approval, and `refunded` the payer.
pub record BillingOutcome : Type 0 where
  pub mandate : AccountInfo
  pub report : Option AccountInfo
  pub closed : AccountInfo
  pub refunded : AccountInfo
  pub invocations : List Invocation
  pub events : List Event

-- What a pull has found before it asks for the approval.
pub record Due : Type 0 where
  pub config : LoadedProtocolConfig
  pub loaded : LoadedMandateAccount
  pub period : ℤ × ℤ
  pub report : Option AccountInfo
  pub billed : Billed

-- `legacy_seeds` and `current_seeds`
abbrev pub billing_seeds : VelaMandate → (legacy_layout : Bool) → List Seed
billing_seeds m legacy_layout =
    if legacy_layout
    then legacy_mandate_seeds m.subscriber m.plan ++ Seed.bump m.bump ∷ []
    else v2_mandate_seeds m.subscriber m.merchant m.mandate_index ++ Seed.bump m.bump ∷ []

-- The accounts of the transfer.
abbrev pub billing_accounts : ExecutePull → TransferCheckedWithHookAccounts
billing_accounts c = record {
  source = c.subscriber_wrapped_account.key;
  mint = c.wrapped_usdc_mint;
  destination = c.merchant_wrapped_account.key;
  authority = c.mandate.key;
  protocol_program = c.protocol_program;
  wrapping_vault = c.wrapping_vault;
  protocol_config = c.protocol_config.key;
  pull_approval = c.pull_approval.key;
  token_config = c.token_config.key;
  system_program = c.system_program;
  extra_account_meta_list = c.extra_account_meta_list;
  hook_program = c.hook_program;
  token_2022_program = c.token_2022_program;
}

-- `if let Some((old_plan, new_plan, applied_at)) = auto_applied_change { emit!(…) }`
abbrev pub change_events : ExecutePull → (wrapped_mint : ℕ) → Option PlanChange → ℤ → List Event
change_events c wrapped_mint none now = []
change_events c wrapped_mint (some change) now =
    Event.mandate_upgrade_finalized (record {
      schema_version = 1;
      mandate = c.mandate.key;
      mint = c.wrapped_usdc_mint;
      token_symbol = event_token_symbol c.wrapped_usdc_mint wrapped_mint;
      old_plan = change.old_plan;
      new_plan = change.new_plan;
      proration_amount = pos 0;
      change_type = 2;
      applied_at = change.applied_at;
      timestamp = now;
    })
    ∷ []

module _ (rt : Runtime) where
  unfoldable pub invoke_billing_transfer :
      ExecutePull
      → (charge_amount : ℕ) (seeds : List Seed) (destination_owner : ℕ) → Result Invocation
  invoke_billing_transfer c charge_amount seeds destination_owner = do
    validate_token_2022_transfer_accounts c.subscriber_wrapped_account c.merchant_wrapped_account
        c.wrapped_usdc_mint c.token_2022_program c.mandate.key destination_owner
    invoke_transfer_checked_with_hook rt (billing_accounts c) charge_amount
        c.token_config.state.decimals seeds

  -- `if charge_amount > 0 { … }`
  unfoldable pub pay_charge :
      ExecutePull
      → VelaMandate
      → (legacy_layout : Bool) (charge_amount : ℕ) → Result (List Invocation)
  unfolding invoke_billing_transfer
  pay_charge c mandate legacy_layout charge_amount =
      if ltb 0 charge_amount
      then (do
        call ←
            invoke_billing_transfer c charge_amount (billing_seeds mandate legacy_layout)
              mandate.merchant
        ok (call ∷ []))
      else ok []

  -- From the accounts to the plan that the pull charges for.
  unfoldable pub open_pull : ExecutePull → ℤ → Result Due
  open_pull c now = do
    check_execute_pull_accounts rt c
    keeper_config ← load_keeper_config rt c.keeper_config
    config ← load_protocol_config rt c.protocol_config
    check_billing_config config c.hook_program c.wrapping_vault
    current_plan ← load_plan_account rt c.plan
    loaded ← load_mandate_account c.mandate
    validate_loaded_mandate_address rt c.mandate.key loaded
    let mandate = into_current_mandate loaded
    check_pull c (keeper_authority keeper_config) config current_plan mandate
    check_due mandate now
    period ← mandate_billing_period mandate
    report ← usage_report_info c mandate.billing_type
    billed ← apply_pending rt mandate current_plan c.remaining_accounts report now
    ok (record {
      config = config;
      loaded = loaded;
      period = period;
      report = report;
      billed = billed;
    })

  -- From the approval to the charge before credit.
  unfoldable pub approved_charge : ExecutePull → Due → ℤ → Result ℕ
  approved_charge c due now = do
    approval ← load_pull_approval rt c.pull_approval c.mandate.key
    check_approval_terms approval c.mandate.key due.period now
    check_reported rt due.report c.mandate.key due.billed.mandate.merchant approval.period_start
        approval.period_end
    base_charge due.billed.active_plan due.billed.mandate.amount approval.approved_amount

  -- The transfer, the mandate after it, the report and the approval.
  unfoldable pub settle_pull :
      ExecutePull → Due → (base_charge_amount : ℕ) → ℤ → Result BillingOutcome
  settle_pull c due base_charge_amount now = do
    let (mandate, charge_amount) = use_credit due.billed.mandate base_charge_amount
    let legacy_layout = is_legacy_mandate due.loaded
    invocations ← pay_charge c mandate legacy_layout charge_amount
    pulled ← record_pull mandate now
    report ← settle_reported due.report
    (closed, refunded) ← close_program_account rt c.pull_approval c.payer
    ok (record {
      mandate = write_mandate c.mandate pulled legacy_layout;
      report = report;
      closed = closed;
      refunded = refunded;
      invocations = invocations;
      events = change_events c (config_wrapped_usdc_mint due.config) due.billed.change now;
    })

  unfoldable pub execute_pull : ExecutePull → ℤ → Result BillingOutcome
  unfolding open_pull approved_charge settle_pull
  execute_pull c now = do
    due ← open_pull c now
    base_charge_amount ← approved_charge c due now
    settle_pull c due base_charge_amount now
