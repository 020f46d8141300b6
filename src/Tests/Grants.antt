-- ===== src/Tests/Grants.antt =====
-- The answer to a validation, and the pull after it, where a dearer plan is due.
use vela_protocol.Base.{ℕ, some, none, true, leb, if◌then◌else◌, ◌≡◌, refl, [], ◌∷◌, arith}
use vela_protocol.Base.Int.{pos, ◌-ℤ◌, ◌+ℤ◌, ◌≤ℤ◌}
use vela_protocol.Errors.{ok, err, vela, VelaError}
use vela_protocol.State.{VelaMandate, VelaPlan}
use vela_protocol.Runtime.{Seed, AccountInfo, AccountData, Loaded, program_id}
use vela_protocol.Accounts.{
  LoadedProtocolConfig, LoadedMandateAccount, LoadedPlanAccount, load_mandate_account,
  decode_mandate, into_current_mandate, derive_v2_mandate_address, derive_legacy_mandate_address,
  validate_loaded_mandate_address, mandate_billing_period, load_plan_account, decode_plan,
  load_flat_plan, validate_plan_address, plan_status, plan_billing_mint, plan_merchant,
  plan_billing_type, plan_max_pulls, mandate_amount, mandate_frequency, is_flat,
  require_plan_billing_type, load_keeper_config, decode_keeper_config, keeper_authority,
  load_protocol_config, validate_protocol_config_address, decode_protocol_config, config_paused,
  config_hook_program_id, config_wrapping_vault, config_wrapped_usdc_mint, into_current_config,
}
use vela_protocol.Arcium.Request.{
  ArciumRequestState, ArciumRequestFlow, ArciumRequestStatus, validate_pending_arcium_request,
  complete_arcium_request,
}
use vela_protocol.Arcium.Accounts.{
  ArciumProgram, effective_mxe_program_id, cluster_id_from_offset, derive_cluster_pubkey,
  derive_computation_pubkey, derive_comp_def_pubkey_for_mxe, derive_mxe_pubkey,
  validate_cluster_configuration, validate_protocol_config, validate_static_callback_accounts,
  validate_callback_binding,
}
use vela_protocol.Arcium.Callback.{
  verified_output, request_seeds, load_arcium_config, open_callback,
}
use vela_protocol.Stream.Handlers.{check_stream_accounts}
use vela_protocol.Billing.Pull.{
  ExecutePull, Due, check_billing_config, check_billing_mint, check_pull, check_due,
  usage_report_info, check_execute_pull_accounts, take_plan_terms, check_mint_kept,
  apply_pending_plan, apply_pending, open_pull, approved_charge,
}
use vela_protocol.Billing.Computation.{
  ValidateMandateCallback, CallbackOutcome, check_callback_accounts, validate_mandate_callback,
  period_approval,
}
use vela_protocol.Billing.Grants.{Stored, approved_charge-validated}
use vela_protocol.Tests.Fixture.{
  runtime, from_ok, address, protocol_config, config_account, approval_address,
}
use vela_protocol.Tests.Billing.{plan, mandate, mandate_account, approval, pulling}

-- Every computation is queued.
abbrev pub arcium : ArciumProgram
arcium = record {
  id = 105;
  cluster_seed = "Cluster";
  mempool_seed = "Mempool";
  execpool_seed = "Execpool";
  comp_seed = "ComputationAccount";
  comp_def_seed = "ComputationDefinitionAccount";
  mxe_seed = "MXEAccount";
  sign_seed = "ArciumSignerAccount";
  fee_pool = 106;
  clock = 107;
  instructions_sysvar = 108;
  comp_def_offset = λ name. 4;
  queue_computation = λ queued. ok tt;
}

-- A plan that costs 800 instead of 500, scheduled for the payment that is due.
abbrev pub dearer : VelaPlan
dearer = record plan { plan_id = 1; amount = 800 }

abbrev pub dearer_account : AccountInfo
dearer_account = record {
  key = address (Seed.literal "plan" ∷ Seed.pubkey 12 ∷ Seed.u64_le 1 ∷ []);
  owner = program_id;
  lamports = 1000;
  contents = AccountData.flat_plan (record { current = some dearer; legacy = none }) none;
}

abbrev scheduled : VelaMandate
scheduled = record mandate {
  pending_new_plan = dearer_account.key;
  pending_effective_at = pos 10_000;
  pending_change_type = 2;
  pending_nonce_short = 9;
}

abbrev mandate_key : ℕ
mandate_key = (mandate_account scheduled).key

abbrev request : Loaded ArciumRequestState
request = record {
  key = address (request_seeds "validation" mandate_key (Seed.i64_le (pos 10_000)));
  state = record {
    mandate = mandate_key;
    flow = ArciumRequestFlow.validation;
    subject = 10_000;
    computation_offset = 77;
    request_nonce = 3;
    status = ArciumRequestStatus.pending;
    created_at = pos 9000;
    completed_at = pos 0;
    bump = 255;
    version = 1;
  };
}

abbrev answering : ValidateMandateCallback
answering = record {
  callback = record {
    arcium_program = 105;
    comp_def_account =
        derive_comp_def_pubkey_for_mxe runtime arcium "validate_mandate_v2" program_id;
    mxe_account = derive_mxe_pubkey runtime arcium program_id;
    computation_account = derive_computation_pubkey runtime arcium 0 77;
    cluster_account = 7;
    cluster_decodes = true;
    instructions_sysvar = 108;
    config = config_account;
    request_state = request;
    verified = some true;
  };
  pull_approval = record { key = approval_address mandate_key; state = approval mandate_key };
  mandate = record { key = mandate_key; state = scheduled };
}

abbrev answered : CallbackOutcome
answered =
    from_ok
      (record { pull_approval = answering.pull_approval; request_state = request; events = [] })
      (validate_mandate_callback runtime arcium answering (pos 9400))

answering_runs : validate_mandate_callback runtime arcium answering (pos 9400) ≡ ok answered
unfolding load_protocol_config validate_protocol_config_address decode_protocol_config
    into_current_config load_arcium_config effective_mxe_program_id cluster_id_from_offset
    derive_cluster_pubkey derive_computation_pubkey derive_comp_def_pubkey_for_mxe derive_mxe_pubkey
    validate_cluster_configuration validate_protocol_config validate_static_callback_accounts
    validate_callback_binding verified_output open_callback validate_pending_arcium_request
    complete_arcium_request check_callback_accounts period_approval mandate_billing_period
    validate_mandate_callback ◌-ℤ◌ ◌+ℤ◌
answering_runs = refl

-- The pull after the answer, with the account of the dearer plan.
abbrev pulling_dearer : ExecutePull
pulling_dearer = record (pulling (mandate_account scheduled)) {
  pull_approval = record {
    key = approval_address mandate_key;
    owner = program_id;
    lamports = 820;
    contents = AccountData.pull_approval (some answered.pull_approval.state);
  };
  remaining_accounts = dearer_account ∷ [];
}

abbrev due : Due
due =
    from_ok
      (record {
        config = LoadedProtocolConfig.current protocol_config;
        loaded = LoadedMandateAccount.current scheduled;
        period = (pos 0, pos 0);
        report = none;
        billed = record {
          mandate = scheduled;
          active_plan = LoadedPlanAccount.flat plan;
          change = none;
        };
      })
      (open_pull runtime pulling_dearer (pos 10_100))

pulling_dearer_runs :
    (open_pull runtime pulling_dearer (pos 10_100) ≡ ok due)
    × (into_current_mandate due.loaded ≡ scheduled)
    × (due.billed.mandate.amount ≡ 800)
    × Stored answering answered pulling_dearer
unfolding load_protocol_config validate_protocol_config_address decode_protocol_config
    into_current_config load_arcium_config effective_mxe_program_id cluster_id_from_offset
    derive_cluster_pubkey derive_computation_pubkey derive_comp_def_pubkey_for_mxe derive_mxe_pubkey
    validate_cluster_configuration validate_protocol_config validate_static_callback_accounts
    validate_callback_binding verified_output open_callback validate_pending_arcium_request
    complete_arcium_request check_callback_accounts period_approval mandate_billing_period
    validate_mandate_callback ◌-ℤ◌ ◌+ℤ◌ load_mandate_account decode_mandate into_current_mandate
    derive_v2_mandate_address derive_legacy_mandate_address validate_loaded_mandate_address
    load_plan_account decode_plan load_flat_plan validate_plan_address plan_status plan_billing_mint
    plan_merchant plan_billing_type plan_max_pulls mandate_amount mandate_frequency is_flat
    require_plan_billing_type load_keeper_config decode_keeper_config keeper_authority config_paused
    config_hook_program_id config_wrapping_vault config_wrapped_usdc_mint check_stream_accounts
    check_billing_config check_billing_mint check_pull check_due usage_report_info
    check_execute_pull_accounts take_plan_terms check_mint_kept apply_pending_plan apply_pending
    open_pull
pulling_dearer_runs =
    (refl, refl, refl, record { key = refl; owner = refl; contents = refl; mandate = refl })

in_time : pos 10_100 ≤ℤ pos 9400 +ℤ pos 3600
unfolding ◌+ℤ◌
in_time = ground arith

approved_charge-validated_example : approved_charge runtime pulling_dearer due (pos 10_100) ≡ (
    if leb due.billed.mandate.amount 500
    then ok due.billed.mandate.amount
    else err (vela VelaError.amount_exceeds_plan_amount))
approved_charge-validated_example =
    approved_charge-validated runtime arcium answering (pos 9400) (pos 10_100) answered
      pulling_dearer due answering_runs refl pulling_dearer_runs.3 pulling_dearer_runs.0
      pulling_dearer_runs.1 in_time
