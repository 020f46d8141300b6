-- ===== src/Billing/Computation/Record.antt =====
-- billing/request_billing_record.rs
use vela_protocol.Base.{ℕ, String, true, false, ltb, ◌==◌, List, [], ◌∷◌}
use vela_protocol.Base.Int.{ℤ, pos}
use vela_protocol.Base.Machine.{u64_checked_add, i64_of_u64, i64_checked_sub}
use vela_protocol.Errors.{Result, ok, vela, VelaError, ◌>>=◌, ◌>>◌, require, ok_or}
use vela_protocol.State.{VelaMandate, VelaPlan, BillingEvent}
use vela_protocol.Runtime.{
  Runtime, Seed, AccountInfo, Loaded, program_id, default_pubkey, require_created,
}
use vela_protocol.Accounts.{
  load_mandate_account, validate_loaded_mandate_address, is_legacy_mandate, into_current_mandate,
  write_mandate,
}
use vela_protocol.Arcium.Request.{
  ArciumRequestState, ArciumRequestFlow, is_zero, start_arcium_request,
}
use vela_protocol.Arcium.Accounts.{
  ArciumProgram, Argument, Queued, QueueAccounts, derive_billing_computation_offset,
  validate_queue_accounts, build_callback_instruction,
}
use vela_protocol.Arcium.Callback.{
  load_arcium_config, check_offset, request_seeds, require_found, find,
}
use vela_protocol.Billing.Computation.Common.{check_request_accounts}

-- `billing_event` and `request_state` are zero where Anchor has just created them.
pub record RequestBillingRecord : Type 0 where
  pub config : AccountInfo
  pub queue : QueueAccounts
  pub sign_pda_account : ℕ
  pub plan : Loaded VelaPlan
  pub mandate : AccountInfo
  pub billing_event : Loaded BillingEvent
  pub request_state : Loaded ArciumRequestState
  pub system_program : ℕ
  pub arcium_program : ℕ

pub record RecordRequested : Type 0 where
  pub mandate : AccountInfo
  pub billing_event : Loaded BillingEvent
  pub request_state : Loaded ArciumRequestState
  pub queued : Queued

abbrev pub record_billing_event_circuit : String
record_billing_event_circuit = "record_billing_event_v2"

abbrev pub billing_event_seeds : (mandate pulls_executed : ℕ) → List Seed
billing_event_seeds mandate pulls_executed =
    Seed.literal "billing" ∷ Seed.pubkey mandate ∷ Seed.u64_le pulls_executed ∷ []

abbrev ten_zeros : List ℕ
ten_zeros = 0 ∷ 0 ∷ 0 ∷ 0 ∷ 0 ∷ 0 ∷ 0 ∷ 0 ∷ 0 ∷ 0 ∷ []

unfoldable pub empty_billing_event : (bump : ℕ) → BillingEvent
empty_billing_event bump = record {
  mandate = default_pubkey;
  merchant = default_pubkey;
  subscriber = default_pubkey;
  plan_id = 0;
  encrypted_blob = ten_zeros;
  nonce = 0;
  created_at = pos 0;
  bump = bump;
}

unfoldable pub record_arguments :
    VelaPlan → VelaMandate → (period_start period_end : ℤ) → List Argument
record_arguments plan mandate period_start period_end =
    Argument.plaintext_u64 plan.amount
    ∷ Argument.plaintext_i64 mandate.last_pull_at
    ∷ Argument.plaintext_u64 mandate.pulls_executed
    ∷ Argument.plaintext_i64 period_start
    ∷ Argument.plaintext_i64 period_end
    ∷ Argument.plaintext_u64 0
    ∷ []

-- The checks of the mandate.
unfoldable pub check_record_request :
    VelaMandate → (plan_key pulls_executed_seed : ℕ) → Result (Unit {0})
check_record_request mandate plan_key pulls_executed_seed = do
  require (ltb 0 mandate.pulls_executed) (vela VelaError.approval_not_granted)
  require (pulls_executed_seed == mandate.pulls_executed)
      (vela VelaError.invalid_computation_offset)
  require (plan_key == mandate.plan) (vela VelaError.plan_not_active)
  require (ltb mandate.last_billing_recorded_pull mandate.pulls_executed)
      (vela VelaError.billing_event_already_exists)

module _ (rt : Runtime) (ar : ArciumProgram) where
  -- The constraints that stand at the accounts' declarations.
  unfoldable pub check_record_accounts :
      RequestBillingRecord → (pulls_executed_seed : ℕ) → Result (Unit {0})
  check_record_accounts c pulls_executed_seed = do
    let plan = c.plan.state
    let plan_seeds =
        Seed.literal "plan"
        ∷ Seed.pubkey plan.merchant
        ∷ Seed.u64_le plan.plan_id
        ∷ Seed.bump plan.bump
        ∷ []
    let pulls_seed = Seed.u64_le pulls_executed_seed
    check_request_accounts rt ar c.config c.sign_pda_account c.system_program c.arcium_program
    require_created (rt.create_program_address plan_seeds program_id) c.plan.key
    require_found rt (billing_event_seeds c.mandate.key pulls_executed_seed) c.billing_event.key
    require_found rt (request_seeds "billing" c.mandate.key pulls_seed) c.request_state.key

  unfoldable pub request_billing_record :
      RequestBillingRecord
      → (requested_computation_offset pulls_executed_seed : ℕ) (now : ℤ) → Result RecordRequested
  request_billing_record c requested_computation_offset pulls_executed_seed now = do
    let pulls_seed = Seed.u64_le pulls_executed_seed
    check_record_accounts c pulls_executed_seed
    loaded ← load_mandate_account c.mandate
    validate_loaded_mandate_address rt c.mandate.key loaded
    let mandate = into_current_mandate loaded
    check_record_request mandate c.plan.key pulls_executed_seed
    (config, mxe_program_id) ← load_arcium_config rt ar c.config
    next_nonce ← ok_or (u64_checked_add mandate.billing_request_nonce 1) (vela VelaError.overflow)
    let computation_offset =
        derive_billing_computation_offset rt ar c.mandate.key mandate.pulls_executed next_nonce
    check_offset config c.queue.cluster_account requested_computation_offset computation_offset
    validate_queue_accounts rt ar c.queue config.cluster_offset computation_offset
        record_billing_event_circuit mxe_program_id
    frequency ← ok_or (i64_of_u64 c.plan.state.frequency) (vela VelaError.overflow)
    period_start ←
        ok_or (i64_checked_sub mandate.next_payment_due frequency) (vela VelaError.overflow)
    require (is_zero c.billing_event.state.created_at) (vela VelaError.billing_event_already_exists)
    started ← start_arcium_request c.request_state.state (record {
      mandate = c.mandate.key;
      flow = ArciumRequestFlow.billing_record;
      subject = pulls_executed_seed;
      computation_offset = computation_offset;
      request_nonce = next_nonce;
      bump = (find rt (request_seeds "billing" c.mandate.key pulls_seed)).1;
      now = now;
    })
    callback ←
        build_callback_instruction rt ar (123 ∷ 164 ∷ 16 ∷ 122 ∷ 130 ∷ 206 ∷ 223 ∷ 55 ∷ [])
          computation_offset config.cluster_offset record_billing_event_circuit mxe_program_id
          (record { pubkey = c.request_state.key; is_writable = true }
            ∷ record { pubkey = c.billing_event.key; is_writable = true }
            ∷ record { pubkey = c.config.key; is_writable = false }
            ∷ record { pubkey = c.mandate.key; is_writable = false }
            ∷ record { pubkey = c.plan.key; is_writable = false }
            ∷ [])
    let queued : Queued = record {
      computation_offset = computation_offset;
      args = record_arguments c.plan.state mandate period_start mandate.next_payment_due;
      callback = callback;
    }
    ar.queue_computation queued
    ok (record {
      mandate =
          write_mandate c.mandate (record mandate { billing_request_nonce = next_nonce })
            (is_legacy_mandate loaded);
      billing_event = record {
        key = c.billing_event.key;
        state =
            empty_billing_event (find rt (billing_event_seeds c.mandate.key pulls_executed_seed)).1;
      };
      request_state = record { key = c.request_state.key; state = started };
      queued = queued;
    })
