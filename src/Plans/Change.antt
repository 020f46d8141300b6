-- ===== src/Plans/Change.antt =====
-- plans/schedule_plan_change.rs and plans/cancel_plan_change.rs
use vela_protocol.Base.{
  ℕ, Bool, true, false, not, ltb, ◌==◌, ◌&&◌, ◌||◌, if◌then◌else◌, List, [], ◌∷◌,
}
use vela_protocol.Base.Int.{ℤ, pos}
use vela_protocol.Errors.{Result, ok, vela, VelaError, ◌>>=◌, ◌>>◌, require, require_keys_eq}
use vela_protocol.State.{VelaMandate, is_plan_active, clear_pending}
use vela_protocol.Runtime.{
  Runtime, Seed, AccountInfo, Event, default_pubkey, current_account_version, event_token_symbol,
}
use vela_protocol.Accounts.{
  LoadedPlanAccount, load_plan_account, plan_merchant, plan_status, plan_billing_mint,
  mandate_amount, load_mandate_account, validate_loaded_mandate_address, is_legacy_mandate,
  into_current_mandate, write_mandate, load_protocol_config, config_paused,
  config_wrapped_usdc_mint,
}
use vela_protocol.Billing.Pull.{is_mandate_active}
use vela_protocol.Arcium.Callback.{require_found}

-- `authority` has signed.
pub record SchedulePlanChange : Type 0 where
  pub authority : ℕ
  pub new_plan : AccountInfo
  pub mandate : AccountInfo
  pub protocol_config : AccountInfo

pub record CancelPlanChange : Type 0 where
  pub authority : ℕ
  pub mandate : AccountInfo
  pub protocol_config : AccountInfo

pub record ChangeOutcome : Type 0 where
  pub mandate : AccountInfo
  pub events : List Event

-- The merchant and the status of the new plan, the same in update_mandate_plan.rs.
unfoldable pub check_new_plan : LoadedPlanAccount → VelaMandate → Result (Unit {0})
check_new_plan new_plan mandate = do
  require_keys_eq (plan_merchant new_plan) mandate.merchant (vela VelaError.unauthorized_upgrade)
  require (is_plan_active (plan_status new_plan)) (vela VelaError.plan_not_active)

-- Who may change the plan, the same in update_mandate_plan.rs: the subscriber or the merchant, and the
-- subscriber only where the amount rises.
unfoldable pub check_change_signer : (authority new_amount : ℕ) → VelaMandate → Result (Unit {0})
check_change_signer authority new_amount mandate = do
  let is_subscriber = authority == mandate.subscriber
  require (is_subscriber || authority == mandate.merchant) (vela VelaError.unauthorized_upgrade)
  require (if ltb mandate.amount new_amount then is_subscriber else true)
      (vela VelaError.unauthorized_upgrade)

-- `mandate.has_pending_change()`
abbrev pub has_pending_change : VelaMandate → Bool
has_pending_change m = not (m.pending_change_type == 0)

-- `compute_nonce`: the slot alone.
abbrev compute_nonce : (mandate new_plan slot : ℕ) → ℕ
compute_nonce mandate new_plan slot = slot

-- The same change is already scheduled.
unfoldable pub already_scheduled : VelaMandate → (new_plan nonce : ℕ) → Bool
already_scheduled m new_plan nonce =
    m.pending_change_type == 2 && m.pending_new_plan == new_plan && m.pending_nonce_short == nonce

unfoldable pub scheduled_mandate : VelaMandate → (new_plan nonce : ℕ) → VelaMandate
scheduled_mandate m new_plan nonce = record m {
  pending_new_plan = new_plan;
  pending_effective_at = m.next_payment_due;
  pending_change_type = 2;
  pending_nonce_short = nonce;
  version = current_account_version;
}

module _ (rt : Runtime) where
  -- The mandate in its current layout, at its address and active: the first checks of the changes.
  unfoldable pub open_change : AccountInfo → Result VelaMandate
  open_change info = do
    loaded ← load_mandate_account info
    require (not (is_legacy_mandate loaded)) (vela VelaError.mandate_version_unsupported)
    validate_loaded_mandate_address rt info.key loaded
    require (is_mandate_active (into_current_mandate loaded).status)
        (vela VelaError.mandate_not_active)
    ok (into_current_mandate loaded)

  -- What is written where the change is new.
  unfoldable pub write_schedule :
      SchedulePlanChange → VelaMandate → (event_mint wrapped_mint nonce : ℕ) → ℤ → ChangeOutcome
  write_schedule c mandate event_mint wrapped_mint nonce now = record {
    mandate = write_mandate c.mandate (scheduled_mandate mandate c.new_plan.key nonce) false;
    events =
        Event.mandate_upgrade_initiated (record {
          schema_version = 1;
          mandate = c.mandate.key;
          mint = event_mint;
          token_symbol = event_token_symbol event_mint wrapped_mint;
          old_plan = mandate.plan;
          new_plan = c.new_plan.key;
          proration_amount = pos 0;
          change_type = 2;
          signer = c.authority;
          applied_at = mandate.next_payment_due;
          timestamp = now;
        })
        ∷ [];
  }

  -- `slot` and `now` are the clock's.
  unfoldable pub schedule_plan_change :
      SchedulePlanChange → (slot : ℕ) (now : ℤ) → Result ChangeOutcome
  schedule_plan_change c slot now = do
    require_found rt (Seed.literal "config" ∷ []) c.protocol_config.key
    config ← load_protocol_config rt c.protocol_config
    require (not (config_paused config)) (vela VelaError.protocol_paused)
    mandate ← open_change c.mandate
    new_plan ← load_plan_account rt c.new_plan
    check_new_plan new_plan mandate
    let billing_mint = plan_billing_mint new_plan
    let wrapped_mint = config_wrapped_usdc_mint config
    let event_mint = if billing_mint == default_pubkey then wrapped_mint else billing_mint
    check_change_signer c.authority (mandate_amount new_plan) mandate
    let nonce = compute_nonce c.mandate.key c.new_plan.key slot
    if mandate.plan == c.new_plan.key || already_scheduled mandate c.new_plan.key nonce
        then ok (record { mandate = c.mandate; events = [] })
        else ok (write_schedule c mandate event_mint wrapped_mint nonce now)

  unfoldable pub cancel_plan_change : CancelPlanChange → (now : ℤ) → Result ChangeOutcome
  cancel_plan_change c now = do
    require_found rt (Seed.literal "config" ∷ []) c.protocol_config.key
    config ← load_protocol_config rt c.protocol_config
    mandate ← open_change c.mandate
    require (has_pending_change mandate) (vela VelaError.no_pending_change)
    require (c.authority == mandate.subscriber || c.authority == mandate.merchant)
        (vela VelaError.unauthorized_upgrade)
    let cleared = record (clear_pending mandate) { version = current_account_version }
    let event = Event.mandate_upgrade_cancelled (record {
      schema_version = 1;
      mandate = c.mandate.key;
      mint = default_pubkey;
      token_symbol = "";
      old_plan = mandate.plan;
      new_plan = mandate.pending_new_plan;
      proration_amount = pos 0;
      change_type = 2;
      signer = c.authority;
      applied_at = mandate.pending_effective_at;
      timestamp = now;
    })
    ok (record { mandate = write_mandate c.mandate cleared false; events = event ∷ [] })
