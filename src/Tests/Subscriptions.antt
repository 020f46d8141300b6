-- ===== src/Tests/Subscriptions.antt =====
-- A subscription from its beginning to its end.
use vela_protocol.Base.{some, inl, ◌≡◌, refl, []}
use vela_protocol.Base.Int.{pos, ◌-ℤ◌, ◌+ℤ◌}
use vela_protocol.Errors.{ok}
use vela_protocol.Runtime.{AccountData, program_id, moved}
use vela_protocol.Accounts.{
  LoadedPlanAccount, load_mandate_account, decode_mandate, into_current_mandate, is_legacy_mandate,
  write_mandate, v2_mandate_seeds, derive_v2_mandate_address, derive_legacy_mandate_address,
  validate_loaded_mandate_address, load_plan_account, decode_plan, load_flat_plan,
  validate_plan_address, plan_status, plan_billing_mint, plan_merchant, plan_billing_type,
  plan_max_pulls, plan_id, plan_bump, plan_credential_mint, is_flat, add_delay, compute_flat_expiry,
  plan_expiry, initial_next_payment_due, mandate_amount, mandate_frequency,
  require_plan_billing_type, merchant_seeds, into_current_merchant, decode_merchant_state,
  write_merchant_state, validate_merchant_state_address, load_merchant_state,
  resolve_merchant_credential_mint, load_keeper_config, decode_keeper_config, keeper_authority,
  load_protocol_config, validate_protocol_config_address, decode_protocol_config, config_paused,
  config_hook_program_id, config_wrapping_vault, config_wrapped_usdc_mint,
  validate_token_2022_transfer_accounts, unpack_token_account, invoke_transfer_checked_with_hook,
  transfer_hook_account_metas, close_program_account, mandate_billing_period,
}
use vela_protocol.Stream.Handlers.{check_stream_accounts}
use vela_protocol.Billing.Pull.{
  ExecutePull, BillingOutcome, check_billing_config, check_billing_mint, check_pull, check_due,
  usage_report_info, check_execute_pull_accounts, apply_pending, load_pull_approval,
  decode_pull_approval, check_approval_terms, check_reported, settle_reported, base_charge,
  record_pull, use_credit, invoke_billing_transfer, pay_charge, open_pull, approved_charge,
  settle_pull, execute_pull,
}
use vela_protocol.Plans.Flat.{check_plan_token}
use vela_protocol.Plans.Subscribe.{
  Subscribe, Subscribed, check_subscription, new_mandate, check_subscribe_accounts,
  check_credential, credential_authority, subscribe_calls, invoke_all, subscribe,
}
use vela_protocol.Plans.Cancel.{
  Cancel, AdminCancel, CancelOutcome, check_cancelled_plan, cancelled, cancel_calls, cancel,
}
use vela_protocol.Plans.Life.{cancel-no_pull}
use vela_protocol.Tests.Fixture.{
  runtime, from_ok, address, config_account, token_config, token_config_account, wrapped_tokens,
  approval_address,
}
use vela_protocol.Tests.Billing.{
  plan, plan_account, approval, mandate, mandate_account, payer, pulling, nothing,
}
use vela_protocol.Tests.Pricing.{merchant_account}

abbrev pub subscribing : Subscribe
subscribing = record {
  subscriber = 11;
  merchant = 12;
  merchant_state = record {
    key = address (merchant_seeds 12);
    state = record {
      merchant = 12;
      plan_count = 1;
      bump = 255;
      credential_mint = 41;
      mandate_counter = 0;
      stream_mandate_counter = 0;
      version = 1;
    };
  };
  plan = plan_account;
  mandate = record {
    key = address (v2_mandate_seeds 11 12 0);
    owner = 103;
    lamports = 0;
    contents = AccountData.empty;
  };
  credential_mint = 41;
  billing_mint = 14;
  token_config = record { key = token_config_account.key; state = token_config };
  subscriber_credential_account = 11_041;
  token_program = 102;
  token_2022_program = 101;
  associated_token_program = 104;
  system_program = 103;
}

abbrev pub subscribed : Subscribed
subscribed =
    from_ok
      (record { mandate = payer; merchant_state = subscribing.merchant_state; invocations = [] })
      (subscribe runtime subscribing (pos 2800))

pub subscribe_runs :
    (subscribe runtime subscribing (pos 2800) ≡ ok subscribed)
    × (load_plan_account runtime plan_account ≡ ok (LoadedPlanAccount.flat plan))
unfolding write_mandate load_plan_account decode_plan load_flat_plan validate_plan_address
    plan_status plan_billing_mint plan_merchant plan_billing_type plan_max_pulls plan_id plan_bump
    plan_credential_mint is_flat add_delay compute_flat_expiry plan_expiry initial_next_payment_due
    mandate_amount mandate_frequency into_current_merchant decode_merchant_state
    write_merchant_state validate_merchant_state_address load_merchant_state
    resolve_merchant_credential_mint check_plan_token check_subscription new_mandate
    check_subscribe_accounts check_credential credential_authority subscribe_calls invoke_all
    subscribe ◌-ℤ◌ ◌+ℤ◌
subscribe_runs = (refl, refl)

-- The first payment, of 500, at 6500.
abbrev pub first_pull : ExecutePull
first_pull = record (pulling subscribed.mandate) {
  pull_approval = record {
    key = approval_address subscribed.mandate.key;
    owner = program_id;
    lamports = 820;
    contents = AccountData.pull_approval (
        some (record (approval subscribed.mandate.key) {
          period_start = pos 2800;
          period_end = pos 6400;
        }));
  };
}

abbrev pub first_billed : BillingOutcome
first_billed = from_ok nothing (execute_pull runtime first_pull (pos 6500))

pub first_pull_runs :
    (execute_pull runtime first_pull (pos 6500) ≡ ok first_billed)
    × (moved 21 22 subscribed.mandate.key first_billed.invocations ≡ some 500)
unfolding load_mandate_account decode_mandate into_current_mandate is_legacy_mandate write_mandate
    derive_v2_mandate_address derive_legacy_mandate_address validate_loaded_mandate_address
    mandate_billing_period load_plan_account decode_plan load_flat_plan validate_plan_address
    plan_status plan_billing_mint plan_merchant plan_billing_type is_flat require_plan_billing_type
    load_keeper_config decode_keeper_config keeper_authority load_protocol_config
    validate_protocol_config_address decode_protocol_config config_paused config_hook_program_id
    config_wrapping_vault config_wrapped_usdc_mint validate_token_2022_transfer_accounts
    unpack_token_account invoke_transfer_checked_with_hook transfer_hook_account_metas
    close_program_account check_stream_accounts check_billing_config check_billing_mint check_pull
    check_due usage_report_info check_execute_pull_accounts apply_pending load_pull_approval
    decode_pull_approval check_approval_terms check_reported settle_reported base_charge record_pull
    use_credit invoke_billing_transfer pay_charge open_pull approved_charge settle_pull execute_pull
    ◌-ℤ◌ ◌+ℤ◌ plan_max_pulls plan_id plan_bump plan_credential_mint add_delay compute_flat_expiry
    plan_expiry initial_next_payment_due mandate_amount mandate_frequency into_current_merchant
    decode_merchant_state write_merchant_state validate_merchant_state_address load_merchant_state
    resolve_merchant_credential_mint check_plan_token check_subscription new_mandate
    check_subscribe_accounts check_credential credential_authority subscribe_calls invoke_all
    subscribe
first_pull_runs = (refl, refl)

abbrev cancelling : Cancel
cancelling = record {
  authority = 11;
  subscriber = 11;
  merchant = 12;
  merchant_state = merchant_account;
  plan = plan_account;
  mandate = mandate_account mandate;
  subscriber_credential_account = 11_041;
  credential_mint = 41;
  token_2022_program = 101;
  subscriber_token_account = wrapped_tokens 23 11;
  token_program = 102;
}

abbrev admin_cancelling : AdminCancel
admin_cancelling = record {
  admin = 10;
  protocol_config = config_account;
  merchant = 12;
  merchant_state = merchant_account;
  subscriber = 11;
  plan = plan_account;
  mandate = mandate_account mandate;
  subscriber_credential_account = 11_041;
  credential_mint = 41;
  token_2022_program = 101;
}

abbrev ended : CancelOutcome
ended = from_ok (record { mandate = payer; invocations = [] }) (cancel runtime cancelling)

cancel_runs : cancel runtime cancelling ≡ ok ended
unfolding load_mandate_account decode_mandate into_current_mandate is_legacy_mandate write_mandate
    derive_v2_mandate_address derive_legacy_mandate_address validate_loaded_mandate_address
    load_plan_account decode_plan load_flat_plan validate_plan_address plan_merchant
    plan_billing_type plan_credential_mint require_plan_billing_type into_current_merchant
    decode_merchant_state validate_merchant_state_address load_merchant_state
    resolve_merchant_credential_mint check_credential invoke_all check_cancelled_plan cancelled
    cancel_calls cancel
cancel_runs = refl

cancel-no_pull_example : ¬ (execute_pull runtime (pulling ended.mandate) (pos 10_100) ≡ ok nothing)
cancel-no_pull_example =
    cancel-no_pull runtime runtime cancelling admin_cancelling ended (pulling ended.mandate)
      (pos 10_100) nothing (inl cancel_runs) refl
