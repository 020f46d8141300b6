-- ===== src/Plans/Subscribe.antt =====
-- plans/subscribe.rs
use vela_protocol.Base.{ℕ, String, true, false, ◌==◌, if◌then◌else◌, List, [], ◌∷◌, ◌++◌}
use vela_protocol.Base.Int.{ℤ, pos}
use vela_protocol.Base.Machine.{u64_checked_add}
use vela_protocol.Errors.{
  Result, ok, vela, program, anchor, VelaError, ProgramError, AnchorError, ◌>>=◌, ◌>>◌, require,
  require_keys_eq, ok_or,
}
use vela_protocol.State.{VelaMandate, MandateStatus, MerchantState, TokenConfig, is_plan_active}
use vela_protocol.Runtime.{
  Runtime, Seed, AccountInfo, AccountData, Loaded, Instruction, Invocation, data_is_empty,
  program_id, default_pubkey, current_account_version, require_program,
}
use vela_protocol.Accounts.{
  LoadedPlanAccount, load_plan_account, plan_status, plan_merchant, plan_billing_mint,
  plan_credential_mint, plan_billing_type, plan_max_pulls, plan_id, plan_bump, plan_expiry,
  initial_next_payment_due, mandate_amount, mandate_frequency, is_flat, v2_mandate_seeds,
  write_mandate, merchant_seeds, write_merchant_state, resolve_merchant_credential_mint,
}
use vela_protocol.Arcium.Callback.{require_found, find}
use vela_protocol.Plans.Flat.{check_plan_token, require_token_config}

-- `subscriber` has signed; `merchant_state` is an account that Anchor has loaded.
pub record Subscribe : Type 0 where
  pub subscriber : ℕ
  pub merchant : ℕ
  pub merchant_state : Loaded MerchantState
  pub plan : AccountInfo
  pub mandate : AccountInfo
  pub credential_mint : ℕ
  pub billing_mint : ℕ
  pub token_config : Loaded TokenConfig
  pub subscriber_credential_account : ℕ
  pub token_program : ℕ
  pub token_2022_program : ℕ
  pub associated_token_program : ℕ
  pub system_program : ℕ

pub record Subscribed : Type 0 where
  pub mandate : AccountInfo
  pub merchant_state : Loaded MerchantState
  pub invocations : List Invocation

-- `VelaMandate::SIZE`
abbrev pub vela_mandate_size : ℕ
vela_mandate_size = 268

-- The merchant's state, as an account again.
abbrev pub merchant_state_info : Loaded MerchantState → AccountInfo
merchant_state_info s =
    write_merchant_state
      (record { key = s.key; owner = program_id; lamports = 0; contents = AccountData.empty })
      s.state

-- The checks of the plan and of the token.
unfoldable pub check_subscription : Subscribe → LoadedPlanAccount → Result (Unit {0})
check_subscription c plan = do
  require (is_plan_active (plan_status plan)) (vela VelaError.plan_not_active)
  require_keys_eq c.merchant (plan_merchant plan) (anchor AnchorError.require_keys_eq_violated)
  require
      (if plan_billing_mint plan == default_pubkey
        then true
        else c.billing_mint == plan_billing_mint plan)
      (vela VelaError.token_change_not_supported)
  check_plan_token c.token_config.state c.billing_mint

abbrev pub plan_seed_prefix : LoadedPlanAccount → String
plan_seed_prefix plan = if is_flat plan then "plan" else "usage_plan"

abbrev pub credential_seed_prefix : LoadedPlanAccount → String
credential_seed_prefix plan = if is_flat plan then "credential" else "usage_credential"

-- The mandate that is written.
unfoldable pub new_mandate :
    Subscribe
    → LoadedPlanAccount
    → (mandate_index bump : ℕ) (start expiry next_payment_due : ℤ) → VelaMandate
new_mandate c plan mandate_index bump start expiry next_payment_due = record {
  subscriber = c.subscriber;
  plan = c.plan.key;
  merchant = plan_merchant plan;
  amount = mandate_amount plan;
  frequency = mandate_frequency plan;
  start_date = start;
  expiry = expiry;
  max_pulls = plan_max_pulls plan;
  pulls_executed = 0;
  next_payment_due = next_payment_due;
  last_pull_at = pos 0;
  last_billing_recorded_pull = 0;
  validation_request_nonce = 0;
  billing_request_nonce = 0;
  status = MandateStatus.active;
  bump = bump;
  billing_type = plan_billing_type plan;
  mandate_index = mandate_index;
  version = current_account_version;
  credit_balance = 0;
  pending_new_plan = default_pubkey;
  pending_effective_at = pos 0;
  pending_change_type = 0;
  pending_nonce_short = 0;
}

module _ (rt : Runtime) where
  -- The constraints that stand at the accounts' declarations.
  unfoldable pub check_subscribe_accounts : Subscribe → Result (Unit {0})
  check_subscribe_accounts c = do
    require_found rt (merchant_seeds c.merchant) c.merchant_state.key
    require_token_config rt c.billing_mint c.token_config
    require_program c.token_program rt.spl_token_id
    require_program c.associated_token_program rt.associated_token_id
    require_program c.system_program rt.system_program_id

  -- The checks of the credential's accounts.
  unfoldable pub check_credential :
      (credential_mint resolved token_2022_program account subscriber : ℕ) → Result (Unit {0})
  check_credential credential_mint resolved token_2022_program account subscriber = do
    let violated = anchor AnchorError.require_keys_eq_violated
    require_keys_eq credential_mint resolved violated
    require_keys_eq token_2022_program rt.token_2022_id violated
    require_keys_eq account
        (rt.associated_token_address subscriber credential_mint token_2022_program) violated

  -- The authority over a credential mint with its seeds, the same in admin_cancel.rs: the merchant's
  -- state, or the plan for a mint at the plan's own address.
  unfoldable pub credential_authority :
      LoadedPlanAccount → (plan_key merchant_state merchant_bump resolved : ℕ) → ℕ × List Seed
  credential_authority plan plan_key merchant_state merchant_bump resolved =
      let merchant = plan_merchant plan in
      let id_seed = Seed.u64_le (plan_id plan) in
      let legacy_seeds =
        Seed.literal (credential_seed_prefix plan) ∷ Seed.pubkey merchant ∷ id_seed ∷ [] in
      let own_seeds =
        Seed.literal (plan_seed_prefix plan)
        ∷ Seed.pubkey merchant
        ∷ id_seed
        ∷ Seed.bump (plan_bump plan)
        ∷ [] in
      if resolved == (find rt legacy_seeds).0
      then (plan_key, own_seeds)
      else (merchant_state, merchant_seeds merchant ++ Seed.bump merchant_bump ∷ [])

  -- The three invocations: the credential's account, the mandate's account, and the credential.
  unfoldable pub subscribe_calls :
      Subscribe → LoadedPlanAccount → (mandate_seeds : List Seed) (resolved : ℕ) → List Invocation
  subscribe_calls c plan mandate_seeds resolved =
      let merchant_bump = (find rt (merchant_seeds c.merchant)).1 in
      let (authority, seeds) =
        credential_authority plan c.plan.key c.merchant_state.key merchant_bump resolved in
      let lamports = rt.minimum_balance vela_mandate_size in
      record {
        instruction =
            Instruction.create_associated_token c.subscriber c.subscriber_credential_account
              c.subscriber c.credential_mint c.token_2022_program;
        signer_seeds = [];
      }
      ∷ record {
        instruction =
            Instruction.create_account c.subscriber c.mandate.key lamports vela_mandate_size
              program_id;
        signer_seeds = mandate_seeds;
      }
      ∷ record {
        instruction =
            Instruction.mint_to rt.token_2022_id c.credential_mint c.subscriber_credential_account
              authority 1;
        signer_seeds = seeds;
      }
      ∷ []

  -- Every invocation of the list succeeds.
  unfoldable pub invoke_all : List Invocation → Result (Unit {0})
  invoke_all [] = ok tt
  invoke_all (call ∷ rest) = do rt.invoke call; invoke_all rest

  unfoldable pub subscribe : Subscribe → ℤ → Result Subscribed
  subscribe c now = do
    check_subscribe_accounts c
    plan ← load_plan_account rt c.plan
    check_subscription c plan
    let merchant = plan_merchant plan
    let state = c.merchant_state.state
    let seeds = v2_mandate_seeds c.subscriber merchant state.mandate_counter
    let (address, bump) = find rt seeds
    require_keys_eq c.mandate.key address (anchor AnchorError.require_keys_eq_violated)
    let resolved =
        resolve_merchant_credential_mint rt (merchant_state_info c.merchant_state) merchant
          (plan_credential_mint plan)
    check_credential c.credential_mint resolved c.token_2022_program c.subscriber_credential_account
        c.subscriber
    counter ← ok_or (u64_checked_add state.mandate_counter 1) (vela VelaError.overflow)
    require (data_is_empty c.mandate.contents) (program ProgramError.account_already_initialized)
    let calls = subscribe_calls c plan (seeds ++ Seed.bump bump ∷ []) resolved
    invoke_all calls
    expiry ← plan_expiry plan now
    next_payment_due ← initial_next_payment_due plan now
    let created = record c.mandate {
      owner = program_id;
      lamports = rt.minimum_balance vela_mandate_size;
    }
    let mandate = new_mandate c plan state.mandate_counter bump now expiry next_payment_due
    ok (record {
      mandate = write_mandate created mandate false;
      merchant_state = record {
        key = c.merchant_state.key;
        state = record state { mandate_counter = counter };
      };
      invocations = calls;
    })
