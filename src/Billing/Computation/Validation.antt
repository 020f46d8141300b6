-- ===== src/Billing/Computation/Validation.antt =====
-- billing/request_validation.rs and billing/validation_callback.rs
use vela_protocol.Base.{
  ℕ, String, Bool, true, false, not, ltb, ◌==◌, if◌then◌else◌, List, [], ◌∷◌, length, map,
}
use vela_protocol.Base.Int.{ℤ, pos, ltb_ℤ, leb_ℤ, eq_ℤ}
use vela_protocol.Base.Machine.{u64_checked_add, i64_checked_add}
use vela_protocol.Errors.{Result, ok, vela, VelaError, ◌>>=◌, ◌>>◌, require, require_keys_eq, ok_or}
use vela_protocol.State.{VelaMandate, PullApproval, BillingType, is_plan_active}
use vela_protocol.Runtime.{Runtime, Seed, AccountInfo, Loaded, Event, pull_approval_ttl_seconds}
use vela_protocol.Accounts.{
  LoadedPlanAccount, load_plan_account, plan_status, mandate_amount, require_plan_billing_type,
  load_mandate_account, validate_loaded_mandate_address, is_legacy_mandate, into_current_mandate,
  mandate_billing_period, write_mandate,
}
use vela_protocol.Arcium.Request.{
  ArciumRequestState, ArciumRequestFlow, start_arcium_request, complete_arcium_request,
}
use vela_protocol.Arcium.Accounts.{
  ArciumProgram, Argument, Queued, QueueAccounts, i64_bits, derive_validation_computation_offset,
  validate_queue_accounts, validate_static_callback_accounts, build_callback_instruction,
}
use vela_protocol.Arcium.Callback.{
  CallbackAccounts, load_arcium_config, check_offset, open_callback, request_seeds, approval_seeds,
  require_found, find, reset_approval,
}
use vela_protocol.Billing.Pull.{is_mandate_active, is_usage}
use vela_protocol.Billing.Computation.Common.{
  RequestOutcome, CallbackOutcome, check_no_approval, period_approval, check_request_accounts,
  check_callback_accounts,
}

-- `pull_approval` and `request_state` are zero where Anchor has just created them.
pub record RequestValidation : Type 0 where
  pub config : AccountInfo
  pub queue : QueueAccounts
  pub sign_pda_account : ℕ
  pub plan : AccountInfo
  pub mandate : AccountInfo
  pub pull_approval : Loaded PullApproval
  pub request_state : Loaded ArciumRequestState
  pub system_program : ℕ
  pub arcium_program : ℕ

-- The checks of the mandate, the plan and the clock.
unfoldable pub check_validation :
    (plan_key : ℕ)
    → VelaMandate
    → LoadedPlanAccount
    → (next_payment_due_seed : ℤ) (ciphertext : List ℕ) (now : ℤ) → Result (Unit {0})
check_validation plan_key mandate plan next_payment_due_seed ciphertext now = do
  require_keys_eq plan_key mandate.plan (vela VelaError.plan_not_active)
  require_plan_billing_type plan BillingType.flat
  require (is_mandate_active mandate.status) (vela VelaError.mandate_not_active)
  require (mandate.amount == mandate_amount plan) (vela VelaError.plan_not_active)
  require (ltb mandate.pulls_executed mandate.max_pulls) (vela VelaError.max_pulls_exceeded)
  require (if ltb_ℤ (pos 0) mandate.expiry then ltb_ℤ now mandate.expiry else true)
      (vela VelaError.mandate_expired)
  require (leb_ℤ mandate.next_payment_due now) (vela VelaError.pull_too_early)
  require (eq_ℤ next_payment_due_seed mandate.next_payment_due)
      (vela VelaError.invalid_arcium_request_state)
  require (is_plan_active (plan_status plan)) (vela VelaError.plan_not_active)
  require (length ciphertext == 8) (vela VelaError.invalid_ciphertext_input)

abbrev encrypted_validation : List ℕ → List Argument
encrypted_validation (a ∷ b ∷ c ∷ d ∷ e ∷ f ∷ rest) =
    Argument.encrypted_u64 a
    ∷ Argument.encrypted_u64 b
    ∷ Argument.encrypted_u64 c
    ∷ Argument.encrypted_i64 d
    ∷ Argument.encrypted_i64 e
    ∷ Argument.encrypted_i64 f
    ∷ map Argument.encrypted_u64 rest
encrypted_validation _ = []

-- The arguments that the builder is given.
unfoldable pub validation_arguments : (pub_key nonce : ℕ) (ciphertext : List ℕ) → List Argument
validation_arguments pub_key nonce ciphertext =
    Argument.x25519_pubkey pub_key ∷ Argument.plaintext_u128 nonce ∷ encrypted_validation ciphertext

abbrev validate_mandate_circuit : String
validate_mandate_circuit = "validate_mandate_v2"

-- `mandate` and `pull_approval` are accounts that Anchor has loaded.
pub record ValidateMandateCallback : Type 0 where
  pub callback : CallbackAccounts Bool
  pub pull_approval : Loaded PullApproval
  pub mandate : Loaded VelaMandate

module _ (rt : Runtime) (ar : ArciumProgram) where
  unfoldable pub request_validation :
      RequestValidation
      → (requested_computation_offset : ℕ) (next_payment_due_seed : ℤ) (ciphertext : List ℕ)
        (pub_key nonce : ℕ) (now : ℤ)
      → Result RequestOutcome
  request_validation c requested_computation_offset next_payment_due_seed ciphertext pub_key nonce
        now =
      do
        let due_seed = Seed.i64_le next_payment_due_seed
        let state_seeds = request_seeds "validation" c.mandate.key due_seed
        check_request_accounts rt ar c.config c.sign_pda_account c.system_program c.arcium_program
        require_found rt (approval_seeds rt c.mandate.key) c.pull_approval.key
        require_found rt state_seeds c.request_state.key
        loaded ← load_mandate_account c.mandate
        validate_loaded_mandate_address rt c.mandate.key loaded
        let mandate = into_current_mandate loaded
        plan ← load_plan_account rt c.plan
        check_validation c.plan.key mandate plan next_payment_due_seed ciphertext now
        (config, mxe_program_id) ← load_arcium_config rt ar c.config
        next_nonce ←
            ok_or (u64_checked_add mandate.validation_request_nonce 1) (vela VelaError.overflow)
        let computation_offset =
            derive_validation_computation_offset rt ar c.mandate.key mandate.next_payment_due
              next_nonce
        check_offset config c.queue.cluster_account requested_computation_offset computation_offset
        validate_queue_accounts rt ar c.queue config.cluster_offset computation_offset
            validate_mandate_circuit mxe_program_id
        period ← mandate_billing_period mandate
        check_no_approval c.pull_approval.state c.mandate.key period now
        started ← start_arcium_request c.request_state.state (record {
          mandate = c.mandate.key;
          flow = ArciumRequestFlow.validation;
          subject = i64_bits next_payment_due_seed;
          computation_offset = computation_offset;
          request_nonce = next_nonce;
          bump = (find rt state_seeds).1;
          now = now;
        })
        callback ←
            build_callback_instruction rt ar (18 ∷ 21 ∷ 173 ∷ 122 ∷ 11 ∷ 126 ∷ 79 ∷ 200 ∷ [])
              computation_offset config.cluster_offset validate_mandate_circuit mxe_program_id
              (record { pubkey = c.request_state.key; is_writable = true }
                ∷ record { pubkey = c.pull_approval.key; is_writable = true }
                ∷ record { pubkey = c.config.key; is_writable = false }
                ∷ record { pubkey = c.mandate.key; is_writable = false }
                ∷ [])
        let queued : Queued = record {
          computation_offset = computation_offset;
          args = validation_arguments pub_key nonce ciphertext;
          callback = callback;
        }
        ar.queue_computation queued
        ok (record {
          mandate =
              write_mandate c.mandate (record mandate { validation_request_nonce = next_nonce })
                (is_legacy_mandate loaded);
          pull_approval = record {
            key = c.pull_approval.key;
            state = reset_approval (find rt (approval_seeds rt c.mandate.key)).1;
          };
          request_state = record { key = c.request_state.key; state = started };
          queued = queued;
        })

  unfoldable pub validate_mandate_callback : ValidateMandateCallback → ℤ → Result CallbackOutcome
  validate_mandate_callback c now = do
    let mandate = c.mandate.state
    check_callback_accounts rt ar c.callback "validation" c.mandate.key
        (Seed.i64_le mandate.next_payment_due) c.pull_approval.key
    result ←
        open_callback rt ar c.callback
          (validate_static_callback_accounts rt ar c.callback.mxe_account
            c.callback.comp_def_account validate_mandate_circuit)
          c.mandate.key ArciumRequestFlow.validation (i64_bits mandate.next_payment_due)
    require (is_mandate_active mandate.status) (vela VelaError.mandate_not_active)
    require (not (is_usage mandate.billing_type)) (vela VelaError.billing_type_mismatch)
    period ← mandate_billing_period mandate
    valid_until ← ok_or (i64_checked_add now pull_approval_ttl_seconds) (vela VelaError.overflow)
    completed ← complete_arcium_request c.callback.request_state.state now
    ok (record {
      pull_approval = record {
        key = c.pull_approval.key;
        state =
            period_approval c.mandate.key period now valid_until result mandate.amount
              (find rt (approval_seeds rt c.mandate.key)).1;
      };
      request_state = record { key = c.callback.request_state.key; state = completed };
      events =
          Event.validation_complete
            (record { mandate = c.mandate.key; approved = result; timestamp = now })
          ∷ [];
    })
