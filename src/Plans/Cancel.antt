-- ===== src/Plans/Cancel.antt =====
-- plans/cancel.rs, plans/admin_cancel.rs and plans/close_mandate.rs
use vela_protocol.Base.{ℕ, not, ◌==◌, ◌&&◌, if◌then◌else◌, List, [], ◌∷◌, Bool}
use vela_protocol.Errors.{
  Result, ok, vela, anchor, VelaError, AnchorError, ◌>>=◌, ◌>>◌, require, require_keys_eq,
}
use vela_protocol.State.{VelaMandate, MandateStatus}
use vela_protocol.Runtime.{Runtime, Seed, AccountInfo, Instruction, Invocation, data_is_empty}
use vela_protocol.Accounts.{
  LoadedPlanAccount, load_plan_account, plan_merchant, plan_credential_mint,
  require_plan_billing_type, load_mandate_account, validate_loaded_mandate_address,
  is_legacy_mandate, into_current_mandate, write_mandate, load_protocol_config, config_admin,
  merchant_seeds, resolve_merchant_credential_mint, close_program_account,
}
use vela_protocol.Arcium.Callback.{require_found, find}
use vela_protocol.Billing.Pull.{is_mandate_active}
use vela_protocol.Plans.Subscribe.{check_credential, credential_authority, invoke_all}

-- `authority` has signed.
pub record Cancel : Type 0 where
  pub authority : ℕ
  pub subscriber : ℕ
  pub merchant : ℕ
  pub merchant_state : AccountInfo
  pub plan : AccountInfo
  pub mandate : AccountInfo
  pub subscriber_credential_account : ℕ
  pub credential_mint : ℕ
  pub token_2022_program : ℕ
  pub subscriber_token_account : AccountInfo
  pub token_program : ℕ

-- `admin` has signed.
pub record AdminCancel : Type 0 where
  pub admin : ℕ
  pub protocol_config : AccountInfo
  pub merchant : ℕ
  pub merchant_state : AccountInfo
  pub subscriber : ℕ
  pub plan : AccountInfo
  pub mandate : AccountInfo
  pub subscriber_credential_account : ℕ
  pub credential_mint : ℕ
  pub token_2022_program : ℕ

-- `authority` has signed.
pub record CloseMandate : Type 0 where
  pub authority : ℕ
  pub subscriber : AccountInfo
  pub mandate : AccountInfo

pub record CancelOutcome : Type 0 where
  pub mandate : AccountInfo
  pub invocations : List Invocation

-- The checks of the plan, the same in both cancellations.
unfoldable pub check_cancelled_plan :
    LoadedPlanAccount
    → VelaMandate
    → (plan_key merchant token_2022_program token_2022_id : ℕ) → Result (Unit {0})
check_cancelled_plan plan mandate plan_key merchant token_2022_program token_2022_id = do
  let violated = anchor AnchorError.require_keys_eq_violated
  require_plan_billing_type plan mandate.billing_type
  require_keys_eq token_2022_program token_2022_id violated
  require_keys_eq plan_key mandate.plan violated
  require_keys_eq merchant (plan_merchant plan) violated
  require_keys_eq mandate.merchant (plan_merchant plan) violated

unfoldable pub cancelled : VelaMandate → VelaMandate
cancelled m = record m { status = MandateStatus.cancelled }

-- `matches!(status, MandateStatus::Cancelled | MandateStatus::Expired)`
abbrev has_ended : MandateStatus → Bool
has_ended status = not (is_mandate_active status)

module _ (rt : Runtime) where
  -- The burning of the credential by the subscriber, and the end of the delegation of a token account
  -- of the older token program.
  unfoldable pub cancel_calls : Cancel → List Invocation
  cancel_calls c =
      record {
        instruction =
            Instruction.burn rt.token_2022_id c.credential_mint c.subscriber_credential_account
              c.authority 1;
        signer_seeds = [];
      }
      ∷ (if c.subscriber_token_account.owner == c.token_program
            && not (data_is_empty c.subscriber_token_account.contents)
          then (record {
            instruction =
                Instruction.revoke c.token_program c.subscriber_token_account.key c.authority;
            signer_seeds = [];
          }
              ∷ [])
          else [])

  unfoldable pub cancel : Cancel → Result CancelOutcome
  cancel c = do
    require_found rt (merchant_seeds c.merchant) c.merchant_state.key
    loaded ← load_mandate_account c.mandate
    validate_loaded_mandate_address rt c.mandate.key loaded
    let mandate = into_current_mandate loaded
    plan ← load_plan_account rt c.plan
    check_cancelled_plan plan mandate c.plan.key c.merchant c.token_2022_program rt.token_2022_id
    let resolved =
        resolve_merchant_credential_mint rt c.merchant_state (plan_merchant plan)
          (plan_credential_mint plan)
    require_keys_eq c.credential_mint resolved (anchor AnchorError.require_keys_eq_violated)
    require (mandate.subscriber == c.subscriber) (vela VelaError.unauthorized_cancel)
    require (c.authority == c.subscriber) (vela VelaError.unauthorized_cancel)
    require (is_mandate_active mandate.status) (vela VelaError.mandate_not_active)
    check_credential rt c.credential_mint resolved c.token_2022_program
        c.subscriber_credential_account c.subscriber
    invoke_all rt (cancel_calls c)
    ok (record {
      mandate = write_mandate c.mandate (cancelled mandate) (is_legacy_mandate loaded);
      invocations = cancel_calls c;
    })

  -- The burning of the credential by the authority over its mint.
  unfoldable pub admin_cancel_calls :
      AdminCancel → LoadedPlanAccount → (resolved : ℕ) → List Invocation
  admin_cancel_calls c plan resolved =
      let merchant_bump = (find rt (merchant_seeds c.merchant)).1 in
      let (authority, seeds) =
        credential_authority rt plan c.plan.key c.merchant_state.key merchant_bump resolved in
      record {
        instruction =
            Instruction.burn rt.token_2022_id c.credential_mint c.subscriber_credential_account
              authority 1;
        signer_seeds = seeds;
      }
      ∷ []

  unfoldable pub admin_cancel : AdminCancel → Result CancelOutcome
  admin_cancel c = do
    require_found rt (Seed.literal "config" ∷ []) c.protocol_config.key
    require_found rt (merchant_seeds c.merchant) c.merchant_state.key
    config ← load_protocol_config rt c.protocol_config
    require_keys_eq c.admin (config_admin config) (vela VelaError.unauthorized_admin)
    loaded ← load_mandate_account c.mandate
    validate_loaded_mandate_address rt c.mandate.key loaded
    let mandate = into_current_mandate loaded
    plan ← load_plan_account rt c.plan
    check_cancelled_plan plan mandate c.plan.key c.merchant c.token_2022_program rt.token_2022_id
    let resolved =
        resolve_merchant_credential_mint rt c.merchant_state (plan_merchant plan)
          (plan_credential_mint plan)
    require_keys_eq c.credential_mint resolved (anchor AnchorError.require_keys_eq_violated)
    require_keys_eq mandate.subscriber c.subscriber (anchor AnchorError.require_keys_eq_violated)
    require (is_mandate_active mandate.status) (vela VelaError.mandate_not_active)
    check_credential rt c.credential_mint resolved c.token_2022_program
        c.subscriber_credential_account c.subscriber
    invoke_all rt (admin_cancel_calls c plan resolved)
    ok (record {
      mandate = write_mandate c.mandate (cancelled mandate) (is_legacy_mandate loaded);
      invocations = admin_cancel_calls c plan resolved;
    })

  -- The closed account, and the subscriber.
  unfoldable pub close_mandate : CloseMandate → Result (AccountInfo × AccountInfo)
  close_mandate c = do
    loaded ← load_mandate_account c.mandate
    validate_loaded_mandate_address rt c.mandate.key loaded
    let mandate = into_current_mandate loaded
    require_keys_eq c.authority mandate.subscriber (vela VelaError.unauthorized_cancel)
    require_keys_eq c.subscriber.key mandate.subscriber (vela VelaError.unauthorized_cancel)
    require (has_ended mandate.status) (vela VelaError.migration_precondition_failed)
    close_program_account rt c.mandate c.subscriber
