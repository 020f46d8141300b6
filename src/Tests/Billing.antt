-- ===== src/Tests/Billing.antt =====
-- A pull of a flat subscription, in both layouts of its mandate.
use vela_protocol.Base.{ℕ, some, none, true, false, ◌≡◌, refl, [], ◌∷◌}
use vela_protocol.Base.Int.{pos, ◌-ℤ◌, ◌+ℤ◌}
use vela_protocol.Errors.{ok}
use vela_protocol.State.{
  VelaMandate, MandateStatus, BillingType, VelaPlan, PlanStatus, PullApproval,
}
use vela_protocol.Runtime.{
  Seed, AccountInfo, AccountData, Layout, program_id, transfer_hook_program_id, moved,
}
use vela_protocol.Accounts.{
  LoadedMandateAccount, load_mandate_account, decode_mandate, into_current_mandate,
  current_from_legacy_mandate, legacy_mandate, is_legacy_mandate, write_mandate, v2_mandate_seeds,
  legacy_mandate_seeds, derive_v2_mandate_address, derive_legacy_mandate_address,
  validate_loaded_mandate_address, mandate_billing_period, load_plan_account, decode_plan,
  load_flat_plan, validate_plan_address, plan_status, plan_billing_mint, plan_merchant,
  plan_billing_type, is_flat, require_plan_billing_type, load_keeper_config, decode_keeper_config,
  keeper_authority, load_protocol_config, validate_protocol_config_address, decode_protocol_config,
  config_paused, config_hook_program_id, config_wrapping_vault, config_wrapped_usdc_mint,
  validate_token_2022_transfer_accounts, unpack_token_account, invoke_transfer_checked_with_hook,
  transfer_hook_account_metas, close_program_account,
}
use vela_protocol.Stream.Handlers.{check_stream_accounts}
use vela_protocol.Billing.Pull.{
  ExecutePull, BillingOutcome, check_billing_config, check_billing_mint, check_pull, check_due,
  usage_report_info, check_execute_pull_accounts, apply_pending, load_pull_approval,
  decode_pull_approval, check_approval_terms, check_reported, settle_reported, base_charge,
  record_pull, use_credit, invoke_billing_transfer, pay_charge, open_pull, approved_charge,
  settle_pull, execute_pull,
}
use vela_protocol.Billing.Reload.{Holds, load-write_mandate}
use vela_protocol.Billing.Authority.{Granted, execute_pull-Granted}
use vela_protocol.Tests.Fixture.{
  runtime, from_ok, address, config_account, keeper_account, token_config, token_config_account,
  wrapped_tokens, meta_list, approval_address,
}

-- 500 every hour, for twelve payments.
abbrev pub plan : VelaPlan
plan = record {
  merchant = 12;
  plan_id = 0;
  amount = 500;
  frequency = 3600;
  trial_period = 0;
  max_pulls = 12;
  status = PlanStatus.active;
  credential_mint = 41;
  billing_mint = 14;
  bump = 255;
  version = 1;
}

abbrev pub plan_account : AccountInfo
plan_account = record {
  key = address (Seed.literal "plan" ∷ Seed.pubkey 12 ∷ Seed.u64_le 0 ∷ []);
  owner = program_id;
  lamports = 1000;
  contents = AccountData.flat_plan (record { current = some plan; legacy = none }) none;
}

-- Two payments were made, the third is due at 10000, and there is a credit of 100.
abbrev pub mandate : VelaMandate
mandate = record {
  subscriber = 11;
  plan = plan_account.key;
  merchant = 12;
  amount = 500;
  frequency = 3600;
  start_date = pos 2800;
  expiry = pos 46_000;
  max_pulls = 12;
  pulls_executed = 2;
  next_payment_due = pos 10_000;
  last_pull_at = pos 6400;
  last_billing_recorded_pull = 2;
  validation_request_nonce = 3;
  billing_request_nonce = 2;
  status = MandateStatus.active;
  bump = 255;
  billing_type = BillingType.flat;
  mandate_index = 0;
  version = 1;
  credit_balance = 100;
  pending_new_plan = 0;
  pending_effective_at = pos 0;
  pending_change_type = 0;
  pending_nonce_short = 0;
}

abbrev pub mandate_account : VelaMandate → AccountInfo
mandate_account m = record {
  key = address (v2_mandate_seeds 11 12 0);
  owner = program_id;
  lamports = 1000;
  contents = AccountData.mandate (Layout.current m);
}

abbrev legacy_account : AccountInfo
legacy_account = record {
  key = address (legacy_mandate_seeds 11 plan_account.key);
  owner = program_id;
  lamports = 1000;
  contents = AccountData.mandate (Layout.legacy (legacy_mandate mandate) true);
}

abbrev pub approval : ℕ → PullApproval
approval key = record {
  mandate = key;
  period_start = pos 6400;
  period_end = pos 10_000;
  valid_until = pos 13_000;
  approved = true;
  approved_amount = 500;
  created_at = pos 9400;
  bump = 255;
}

abbrev pub approval_account : ℕ → AccountInfo
approval_account key = record {
  key = approval_address key;
  owner = program_id;
  lamports = 820;
  contents = AccountData.pull_approval (some (approval key));
}

abbrev pub payer : AccountInfo
payer = record { key = 13; owner = 103; lamports = 5000; contents = AccountData.empty }

-- The keeper pulls on a mandate.
abbrev pub pulling : AccountInfo → ExecutePull
pulling info = record {
  payer = payer;
  subscriber = 11;
  merchant = 12;
  keeper_config = keeper_account;
  plan = plan_account;
  mandate = info;
  subscriber_wrapped_account = wrapped_tokens 21 info.key;
  merchant_wrapped_account = wrapped_tokens 22 12;
  wrapped_usdc_mint = 14;
  pull_approval = approval_account info.key;
  token_config = record { key = token_config_account.key; state = token_config };
  protocol_config = config_account;
  wrapping_vault = 15;
  hook_program = transfer_hook_program_id;
  extra_account_meta_list = meta_list;
  protocol_program = program_id;
  token_2022_program = 101;
  system_program = 103;
  remaining_accounts = [];
}

abbrev pub nothing : BillingOutcome
nothing = record {
  mandate = payer;
  report = none;
  closed = payer;
  refunded = payer;
  invocations = [];
  events = [];
}

abbrev pub billed : BillingOutcome
billed = from_ok nothing (execute_pull runtime (pulling (mandate_account mandate)) (pos 10_100))

-- The credit of 100 is used: 400 are paid.
pub execute_pull_runs :
    (execute_pull runtime (pulling (mandate_account mandate)) (pos 10_100) ≡ ok billed)
    × (moved 21 22 (mandate_account mandate).key billed.invocations ≡ some 400)
unfolding load_mandate_account decode_mandate into_current_mandate is_legacy_mandate write_mandate
    derive_v2_mandate_address derive_legacy_mandate_address validate_loaded_mandate_address
    mandate_billing_period load_plan_account decode_plan load_flat_plan validate_plan_address
    plan_status plan_billing_mint plan_merchant plan_billing_type is_flat require_plan_billing_type
    load_keeper_config decode_keeper_config keeper_authority load_protocol_config
    validate_protocol_config_address decode_protocol_config config_paused config_hook_program_id
    config_wrapping_vault config_wrapped_usdc_mint validate_token_2022_transfer_accounts
    unpack_token_account invoke_transfer_checked_with_hook transfer_hook_account_metas
    close_program_account check_stream_accounts check_billing_config check_billing_mint check_pull
    check_due usage_report_info check_execute_pull_accounts apply_pending load_pull_approval
    decode_pull_approval check_approval_terms check_reported settle_reported base_charge record_pull
    use_credit invoke_billing_transfer pay_charge open_pull approved_charge settle_pull execute_pull
    ◌-ℤ◌ ◌+ℤ◌
execute_pull_runs = (refl, refl)

execute_pull-Granted_example :
    Granted runtime (pulling (mandate_account mandate)) (pos 10_100) billed
execute_pull-Granted_example =
    execute_pull-Granted runtime (pulling (mandate_account mandate)) (pos 10_100) billed
      execute_pull_runs.0

load_mandate_runs :
    load_mandate_account (mandate_account mandate) ≡ ok (LoadedMandateAccount.current mandate)
unfolding load_mandate_account decode_mandate
load_mandate_runs = refl

pub mandate_Holds : Holds (mandate_account mandate) mandate false
unfolding into_current_mandate is_legacy_mandate
mandate_Holds = record {
  loaded = LoadedMandateAccount.current mandate;
  loads = load_mandate_runs;
  current = refl;
  layout = refl;
}

-- A mandate with less credit, in the layout that the account has.
abbrev poorer : VelaMandate
poorer = record mandate { credit_balance = 30 }

load-write_mandate_example :
    Holds
      (write_mandate
        (mandate_account mandate)
        poorer
        (is_legacy_mandate (LoadedMandateAccount.current mandate)))
      poorer
      (is_legacy_mandate (LoadedMandateAccount.current mandate))
load-write_mandate_example =
    load-write_mandate (mandate_account mandate) (LoadedMandateAccount.current mandate) poorer
      load_mandate_runs refl

abbrev legacy_billed : BillingOutcome
legacy_billed = from_ok nothing (execute_pull runtime (pulling legacy_account) (pos 10_100))

legacy_pull_runs : execute_pull runtime (pulling legacy_account) (pos 10_100) ≡ ok legacy_billed
unfolding legacy_mandate current_from_legacy_mandate load_mandate_account decode_mandate
    into_current_mandate is_legacy_mandate write_mandate derive_v2_mandate_address
    derive_legacy_mandate_address validate_loaded_mandate_address mandate_billing_period
    load_plan_account decode_plan load_flat_plan validate_plan_address plan_status plan_billing_mint
    plan_merchant plan_billing_type is_flat require_plan_billing_type load_keeper_config
    decode_keeper_config keeper_authority load_protocol_config validate_protocol_config_address
    decode_protocol_config config_paused config_hook_program_id config_wrapping_vault
    config_wrapped_usdc_mint validate_token_2022_transfer_accounts unpack_token_account
    invoke_transfer_checked_with_hook transfer_hook_account_metas close_program_account
    check_stream_accounts check_billing_config check_billing_mint check_pull check_due
    usage_report_info check_execute_pull_accounts apply_pending load_pull_approval
    decode_pull_approval check_approval_terms check_reported settle_reported base_charge record_pull
    use_credit invoke_billing_transfer pay_charge open_pull approved_charge settle_pull execute_pull
    ◌-ℤ◌ ◌+ℤ◌
legacy_pull_runs = refl
