-- ===== src/Tests/Runs.antt =====
-- Two pulls of a flat subscription, with the record of the first between them.
use vela_protocol.Accounts.{
  load_mandate_account, decode_mandate, into_current_mandate, is_legacy_mandate, write_mandate,
  derive_v2_mandate_address, derive_legacy_mandate_address, validate_loaded_mandate_address,
  mandate_billing_period, load_plan_account, decode_plan, load_flat_plan, validate_plan_address,
  plan_status, plan_billing_mint, plan_merchant, plan_billing_type, is_flat,
  require_plan_billing_type, load_keeper_config, decode_keeper_config, keeper_authority,
  load_protocol_config, validate_protocol_config_address, decode_protocol_config, config_paused,
  config_hook_program_id, config_wrapping_vault, config_wrapped_usdc_mint,
  validate_token_2022_transfer_accounts, unpack_token_account, invoke_transfer_checked_with_hook,
  transfer_hook_account_metas, close_program_account, plan_max_pulls, plan_id, plan_bump,
  plan_credential_mint, add_delay, compute_flat_expiry, plan_expiry, initial_next_payment_due,
  mandate_amount, mandate_frequency, into_current_merchant, decode_merchant_state,
  write_merchant_state, validate_merchant_state_address, load_merchant_state,
  resolve_merchant_credential_mint, into_current_config, LoadedPlanAccount,
}
use vela_protocol.Arcium.Accounts.{
  effective_mxe_program_id, cluster_id_from_offset, derive_cluster_pubkey,
  derive_computation_pubkey, derive_comp_def_pubkey_for_mxe, derive_mxe_pubkey,
  validate_cluster_configuration, validate_protocol_config, validate_static_callback_accounts,
  validate_callback_binding,
}
use vela_protocol.Arcium.Callback.{
  verified_output, load_arcium_config, open_callback, request_seeds,
}
use vela_protocol.Arcium.Request.{
  validate_pending_arcium_request, complete_arcium_request, ArciumRequestState, ArciumRequestFlow,
  ArciumRequestStatus,
}
use vela_protocol.Base.{ℕ, ◌*◌, ◌≤◌, some, none, true, false, ◌≡◌, refl, [], ◌∷◌, arith}
use vela_protocol.Base.Int.{ℤ, ◌-ℤ◌, ◌+ℤ◌, pos}
use vela_protocol.Billing.Between.{recorded}
use vela_protocol.Billing.Computation.{
  RecordBillingEventCallback, Recorded, record_billing_event_callback, check_recording_accounts,
  billing_event_seeds, empty_billing_event,
}
use vela_protocol.Billing.Pull.{
  check_billing_config, check_billing_mint, check_pull, check_due, usage_report_info,
  check_execute_pull_accounts, apply_pending, load_pull_approval, decode_pull_approval,
  check_approval_terms, check_reported, settle_reported, base_charge, record_pull, use_credit,
  invoke_billing_transfer, pay_charge, open_pull, approved_charge, settle_pull, execute_pull,
  ExecutePull, BillingOutcome,
}
use vela_protocol.Billing.Reload.{Holds}
use vela_protocol.Billing.Runs.{Pulls, none, pull, between, Bounded, Pulls-Bounded}
use vela_protocol.Errors.{ok}
use vela_protocol.Plans.Flat.{check_plan_token}
use vela_protocol.Plans.Life.{subscribe-Pulls}
use vela_protocol.Plans.Subscribe.{
  check_subscription, new_mandate, check_subscribe_accounts, check_credential, credential_authority,
  subscribe_calls, invoke_all, subscribe,
}
use vela_protocol.Runtime.{Seed, AccountInfo, AccountData, Layout, Loaded, program_id, moved}
use vela_protocol.State.{VelaMandate}
use vela_protocol.Stream.Handlers.{check_stream_accounts}
use vela_protocol.Tests.Billing.{
  plan, plan_account, mandate, mandate_account, approval, pulling, nothing, billed,
  execute_pull_runs, mandate_Holds,
}
use vela_protocol.Tests.Fixture.{runtime, from_ok, address, config_account, approval_address}
use vela_protocol.Tests.Grants.{arcium}
use vela_protocol.Tests.Subscriptions.{
  subscribing, subscribed, subscribe_runs, first_billed, first_pull, first_pull_runs,
}

abbrev held : AccountData → VelaMandate
held (AccountData.mandate (Layout.current m)) = m
held _ = mandate

-- The mandate in an account that holds one in the current layout.
abbrev stored : AccountInfo → VelaMandate
stored info = held info.contents

abbrev request : (mandate : ℕ) (pulls : ℕ) → Loaded ArciumRequestState
request mandate pulls = record {
  key = address (request_seeds "billing" mandate (Seed.u64_le pulls));
  state = record {
    mandate = mandate;
    flow = ArciumRequestFlow.billing_record;
    subject = pulls;
    computation_offset = 78;
    request_nonce = 3;
    status = ArciumRequestStatus.pending;
    created_at = pos 6500;
    completed_at = pos 0;
    bump = 255;
    version = 1;
  };
}

-- The record of the last pull of the mandate that stands in the account.
abbrev recording : AccountInfo → RecordBillingEventCallback
recording info = record {
  callback = record {
    arcium_program = 105;
    comp_def_account =
        derive_comp_def_pubkey_for_mxe runtime arcium "record_billing_event_v2" program_id;
    mxe_account = derive_mxe_pubkey runtime arcium program_id;
    computation_account = derive_computation_pubkey runtime arcium 0 78;
    cluster_account = 7;
    cluster_decodes = true;
    instructions_sysvar = 108;
    config = config_account;
    request_state = request info.key (stored info).pulls_executed;
    verified = some (record { ciphertexts = 1 ∷ 2 ∷ []; nonce = 5 });
  };
  billing_event = record {
    key = address (billing_event_seeds info.key (stored info).pulls_executed);
    state = empty_billing_event 0;
  };
  mandate = record { key = info.key; state = stored info };
  plan = record { key = plan_account.key; state = plan };
}

abbrev recorded_state : AccountInfo → VelaMandate
recorded_state info = record (stored info) {
  last_billing_recorded_pull = (stored info).pulls_executed;
}

abbrev recorded_account : AccountInfo → AccountInfo
recorded_account info = record info {
  contents = AccountData.mandate (Layout.current (recorded_state info));
}

-- What the callback leaves.
abbrev noted : AccountInfo → Recorded
noted info =
    from_ok
      (record {
        mandate = (recording info).mandate;
        billing_event = (recording info).billing_event;
        request_state = request 0 0;
        events = [];
      })
      (record_billing_event_callback runtime arcium (recording info) (pos 9000))

-- The next pull, on the approval of its period.
abbrev next_pull : AccountInfo → ℤ → ℤ → ExecutePull
next_pull info start end = record (pulling (recorded_account info)) {
  pull_approval = record {
    key = approval_address info.key;
    owner = program_id;
    lamports = 820;
    contents = AccountData.pull_approval (
        some (record (approval info.key) {
          period_start = start;
          period_end = end;
          valid_until = pos 15_000;
        }));
  };
}

abbrev second_billed : BillingOutcome
second_billed =
    from_ok nothing
      (execute_pull runtime (next_pull billed.mandate (pos 10_000) (pos 13_600)) (pos 13_700))

second_pull_runs :
    (billed.mandate.contents ≡ AccountData.mandate (Layout.current (stored billed.mandate)))
    × (record_billing_event_callback runtime arcium (recording billed.mandate) (pos 9000)
        ≡ ok (noted billed.mandate))
    × (recorded_account billed.mandate ≡ record billed.mandate {
      contents = AccountData.mandate (Layout.current (noted billed.mandate).mandate.state);
    })
    × (execute_pull runtime (next_pull billed.mandate (pos 10_000) (pos 13_600)) (pos 13_700)
        ≡ ok second_billed)
    × (moved 21 22 billed.mandate.key second_billed.invocations ≡ some 500)
unfolding load_mandate_account decode_mandate into_current_mandate is_legacy_mandate write_mandate
    derive_v2_mandate_address derive_legacy_mandate_address validate_loaded_mandate_address
    mandate_billing_period load_plan_account decode_plan load_flat_plan validate_plan_address
    plan_status plan_billing_mint plan_merchant plan_billing_type is_flat require_plan_billing_type
    load_keeper_config decode_keeper_config keeper_authority load_protocol_config
    validate_protocol_config_address decode_protocol_config config_paused config_hook_program_id
    config_wrapping_vault config_wrapped_usdc_mint validate_token_2022_transfer_accounts
    unpack_token_account invoke_transfer_checked_with_hook transfer_hook_account_metas
    close_program_account check_stream_accounts check_billing_config check_billing_mint check_pull
    check_due usage_report_info check_execute_pull_accounts apply_pending load_pull_approval
    decode_pull_approval check_approval_terms check_reported settle_reported base_charge record_pull
    use_credit invoke_billing_transfer pay_charge open_pull approved_charge settle_pull execute_pull
    ◌-ℤ◌ ◌+ℤ◌ plan_max_pulls plan_id plan_bump plan_credential_mint add_delay compute_flat_expiry
    plan_expiry initial_next_payment_due mandate_amount mandate_frequency into_current_merchant
    decode_merchant_state write_merchant_state validate_merchant_state_address load_merchant_state
    resolve_merchant_credential_mint check_plan_token check_subscription new_mandate
    check_subscribe_accounts check_credential credential_authority subscribe_calls invoke_all
    subscribe into_current_config load_arcium_config effective_mxe_program_id cluster_id_from_offset
    derive_cluster_pubkey derive_computation_pubkey derive_comp_def_pubkey_for_mxe derive_mxe_pubkey
    validate_cluster_configuration validate_protocol_config validate_static_callback_accounts
    validate_callback_binding verified_output open_callback validate_pending_arcium_request
    complete_arcium_request record_billing_event_callback check_recording_accounts
    empty_billing_event
second_pull_runs = (refl, refl, refl, refl, refl)

-- 400 at 10100, and the whole 500 at 13700.
pulls : Pulls runtime arcium (pos 14_000) (mandate_account mandate) 2 900 second_billed.mandate
pulls =
    pull (mandate_account mandate) 1 400 500 (next_pull billed.mandate (pos 10_000) (pos 13_600))
      (pos 13_700) second_billed
      (between (mandate_account mandate) billed.mandate (recorded_account billed.mandate) 1 400
        (pull (mandate_account mandate) 0 0 400 (pulling (mandate_account mandate)) (pos 10_100)
          billed (none (mandate_account mandate)) (ground arith) execute_pull_runs.0
          execute_pull_runs.1)
        (recorded (recording billed.mandate) (pos 9000) (noted billed.mandate) refl
          second_pull_runs.0 second_pull_runs.1 second_pull_runs.2))
      (ground arith) second_pull_runs.3 second_pull_runs.4

Pulls-Bounded_example :
    (after : VelaMandate) × Holds second_billed.mandate after false
    × Bounded mandate after 2 900 (pos 14_000)
Pulls-Bounded_example =
    Pulls-Bounded runtime arcium (pos 14_000) (mandate_account mandate) second_billed.mandate 2 900
      mandate false pulls mandate_Holds refl

abbrev later_billed : BillingOutcome
later_billed =
    from_ok nothing
      (execute_pull runtime (next_pull first_billed.mandate (pos 6400) (pos 10_000)) (pos 10_100))

later_pull_runs :
    (first_billed.mandate.contents
      ≡ AccountData.mandate (Layout.current (stored first_billed.mandate)))
    × (record_billing_event_callback runtime arcium (recording first_billed.mandate) (pos 9000)
        ≡ ok (noted first_billed.mandate))
    × (recorded_account first_billed.mandate ≡ record first_billed.mandate {
      contents = AccountData.mandate (Layout.current (noted first_billed.mandate).mandate.state);
    })
    × (execute_pull runtime (next_pull first_billed.mandate (pos 6400) (pos 10_000)) (pos 10_100)
        ≡ ok later_billed)
    × (moved 21 22 first_billed.mandate.key later_billed.invocations ≡ some 500)
unfolding load_mandate_account decode_mandate into_current_mandate is_legacy_mandate write_mandate
    derive_v2_mandate_address derive_legacy_mandate_address validate_loaded_mandate_address
    mandate_billing_period load_plan_account decode_plan load_flat_plan validate_plan_address
    plan_status plan_billing_mint plan_merchant plan_billing_type is_flat require_plan_billing_type
    load_keeper_config decode_keeper_config keeper_authority load_protocol_config
    validate_protocol_config_address decode_protocol_config config_paused config_hook_program_id
    config_wrapping_vault config_wrapped_usdc_mint validate_token_2022_transfer_accounts
    unpack_token_account invoke_transfer_checked_with_hook transfer_hook_account_metas
    close_program_account check_stream_accounts check_billing_config check_billing_mint check_pull
    check_due usage_report_info check_execute_pull_accounts apply_pending load_pull_approval
    decode_pull_approval check_approval_terms check_reported settle_reported base_charge record_pull
    use_credit invoke_billing_transfer pay_charge open_pull approved_charge settle_pull execute_pull
    ◌-ℤ◌ ◌+ℤ◌ plan_max_pulls plan_id plan_bump plan_credential_mint add_delay compute_flat_expiry
    plan_expiry initial_next_payment_due mandate_amount mandate_frequency into_current_merchant
    decode_merchant_state write_merchant_state validate_merchant_state_address load_merchant_state
    resolve_merchant_credential_mint check_plan_token check_subscription new_mandate
    check_subscribe_accounts check_credential credential_authority subscribe_calls invoke_all
    subscribe into_current_config load_arcium_config effective_mxe_program_id cluster_id_from_offset
    derive_cluster_pubkey derive_computation_pubkey derive_comp_def_pubkey_for_mxe derive_mxe_pubkey
    validate_cluster_configuration validate_protocol_config validate_static_callback_accounts
    validate_callback_binding verified_output open_callback validate_pending_arcium_request
    complete_arcium_request record_billing_event_callback check_recording_accounts
    empty_billing_event
later_pull_runs = (refl, refl, refl, refl, refl)

-- The first two payments of a new subscription.
subscription_pulls :
    Pulls runtime arcium (pos 11_000) subscribed.mandate 2 1000 later_billed.mandate
subscription_pulls =
    pull subscribed.mandate 1 500 500 (next_pull first_billed.mandate (pos 6400) (pos 10_000))
      (pos 10_100) later_billed
      (between subscribed.mandate first_billed.mandate (recorded_account first_billed.mandate) 1 500
        (pull subscribed.mandate 0 0 500 first_pull (pos 6500) first_billed
          (none subscribed.mandate) (ground arith) first_pull_runs.0 first_pull_runs.1)
        (recorded (recording first_billed.mandate) (pos 9000) (noted first_billed.mandate) refl
          later_pull_runs.0 later_pull_runs.1 later_pull_runs.2))
      (ground arith) later_pull_runs.3 later_pull_runs.4

subscribe-Pulls_example :
    (1000 ≤ 2 * mandate_amount (LoadedPlanAccount.flat plan))
    × (2 ≤ plan_max_pulls (LoadedPlanAccount.flat plan))
subscribe-Pulls_example =
    subscribe-Pulls runtime runtime arcium subscribing (pos 2800) (pos 11_000) subscribed
      (LoadedPlanAccount.flat plan) 2 1000 later_billed.mandate subscribe_runs.0 subscribe_runs.1
      subscription_pulls
