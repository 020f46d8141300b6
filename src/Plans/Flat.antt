-- ===== src/Plans/Flat.antt =====
-- plans/create_plan.rs and plans/update_plan.rs
use vela_protocol.Base.{
  ℕ, ◌-◌, Option, none, some, not, ltb, leb, ◌==◌, ◌&&◌, ◌||◌, if◌then◌else◌, List, [], ◌∷◌, ◌++◌,
  is_some,
}
use vela_protocol.Base.Machine.{u64_checked_add}
use vela_protocol.Errors.{
  Result, ok, err, vela, program, anchor, VelaError, ProgramError, AnchorError, ◌>>=◌, ◌>>◌,
  require, require_keys_eq, ok_or,
}
use vela_protocol.State.{VelaPlan, PlanStatus, MerchantState, TokenConfig, is_transfer_hook}
use vela_protocol.Runtime.{
  Runtime, Seed, AccountInfo, Loaded, Instruction, Invocation, Event, data_is_empty, program_id,
  default_pubkey, current_account_version, require_program, require_created,
}
use vela_protocol.Accounts.{
  LoadedPlanAccount, load_plan_account, plan_merchant, is_flat, write_plan, merchant_seeds,
  ensure_merchant_state, resolve_merchant_credential_mint, write_merchant_state,
}
use vela_protocol.Arcium.Callback.{require_found, find}

-- `merchant` has signed.
pub record CreatePlan : Type 0 where
  pub merchant : ℕ
  pub merchant_state : AccountInfo
  pub plan : AccountInfo
  pub credential_mint : ℕ
  pub billing_mint : ℕ
  pub token_config : Loaded TokenConfig
  pub system_program : ℕ
  pub token_2022_program : ℕ

-- What the creation of a plan leaves behind.
pub record PlanCreated : Type 0 where
  pub plan : AccountInfo
  pub merchant_state : AccountInfo
  pub invocations : List Invocation

-- `merchant` has signed; `plan_data_len` is the length of the plan's data.
pub record UpdatePlan : Type 0 where
  pub merchant : ℕ
  pub plan : AccountInfo
  pub plan_data_len : ℕ
  pub system_program : ℕ

pub record PlanOutcome : Type 0 where
  pub plan : AccountInfo
  pub invocations : List Invocation
  pub events : List Event

abbrev pub min_frequency_seconds : ℕ
min_frequency_seconds = 3600

-- `VelaPlan::SIZE`
abbrev pub vela_plan_size : ℕ
vela_plan_size = 179

unfoldable pub validate_flat_plan_terms : (amount frequency max_pulls : ℕ) → Result (Unit {0})
validate_flat_plan_terms amount frequency max_pulls = do
  require (ltb 0 amount) (vela VelaError.invalid_amount)
  require (leb min_frequency_seconds frequency) (vela VelaError.frequency_too_low)
  require (ltb 0 max_pulls) (vela VelaError.max_pulls_too_low)

-- The checks of the token, the same in create_usage_plan.rs.
unfoldable pub check_plan_token : TokenConfig → (billing_mint : ℕ) → Result (Unit {0})
check_plan_token token_config billing_mint = do
  require token_config.enabled (vela VelaError.token_disabled)
  require (is_transfer_hook token_config.billing_rail) (vela VelaError.invalid_billing_rail)
  require_keys_eq token_config.mint billing_mint (vela VelaError.token_not_registered)

-- The merchant's credential mint is the one that was resolved, the same in create_usage_plan.rs.
unfoldable pub check_merchant_credential : MerchantState → (resolved : ℕ) → Result (Unit {0})
check_merchant_credential state resolved =
    require (not (state.credential_mint == default_pubkey) && resolved == state.credential_mint)
      (vela VelaError.migration_precondition_failed)

abbrev pub plan_seeds : (merchant plan_id : ℕ) → List Seed
plan_seeds merchant plan_id = Seed.literal "plan" ∷ Seed.pubkey merchant ∷ Seed.u64_le plan_id ∷ []

-- The flat plan of an account that loads as one, in the current layout.
unfoldable pub current_flat_plan : LoadedPlanAccount → Result VelaPlan
current_flat_plan (LoadedPlanAccount.flat p) = ok p
current_flat_plan (LoadedPlanAccount.legacy_flat p) = ok (record {
  merchant = p.merchant;
  plan_id = p.plan_id;
  amount = p.amount;
  frequency = p.frequency;
  trial_period = p.trial_period;
  max_pulls = p.max_pulls;
  status = p.status;
  credential_mint = p.credential_mint;
  billing_mint = default_pubkey;
  bump = p.bump;
  version = current_account_version;
})
current_flat_plan _ = err (vela VelaError.billing_type_mismatch)

-- `if let Some(value) = update { … }`
abbrev pub updated : ℕ → Option ℕ → ℕ
updated old none = old
updated old (some value) = value

module _ (rt : Runtime) where
  abbrev pub require_token_config : (mint : ℕ) → Loaded TokenConfig → Result (Unit {0})
  require_token_config mint token_config =
      let seeds =
        Seed.literal "token_config" ∷ Seed.pubkey mint ∷ Seed.bump token_config.state.bump ∷ [] in
      require_created (rt.create_program_address seeds program_id) token_config.key

  -- The constraints that stand at the accounts' declarations.
  unfoldable pub check_create_plan_accounts : CreatePlan → Result (Unit {0})
  check_create_plan_accounts c = do
    require_found rt (merchant_seeds c.merchant) c.merchant_state.key
    require_token_config c.billing_mint c.token_config
    require_program c.system_program rt.system_program_id

  -- The addresses of the plan and of its credential mint, and that the plan is new.
  unfoldable pub check_plan_addresses : CreatePlan → (plan_id : ℕ) → Result (Unit {0})
  check_plan_addresses c plan_id = do
    let credential_seeds =
        Seed.literal "credential" ∷ Seed.pubkey c.merchant ∷ Seed.u64_le plan_id ∷ []
    require (c.plan.key == (find rt (plan_seeds c.merchant plan_id)).0)
        (program ProgramError.invalid_seeds)
    require (c.credential_mint == (find rt credential_seeds).0) (program ProgramError.invalid_seeds)
    require (data_is_empty c.plan.contents) (program ProgramError.account_already_initialized)

  unfoldable pub create_plan :
      CreatePlan → (amount frequency trial_period max_pulls : ℕ) → Result PlanCreated
  create_plan c amount frequency trial_period max_pulls = do
    check_create_plan_accounts c
    validate_flat_plan_terms amount frequency max_pulls
    check_plan_token c.token_config.state c.billing_mint
    require_keys_eq c.token_2022_program rt.token_2022_id
        (anchor AnchorError.require_keys_eq_violated)
    (state, state_info, calls) ←
        ensure_merchant_state rt c.merchant c.merchant_state c.merchant
          (find rt (merchant_seeds c.merchant)).1
    let plan_id = state.plan_count
    let plan_bump = (find rt (plan_seeds c.merchant plan_id)).1
    check_plan_addresses c plan_id
    let resolved = resolve_merchant_credential_mint rt state_info c.merchant c.credential_mint
    check_merchant_credential state resolved
    let lamports = rt.minimum_balance vela_plan_size
    let creation : Invocation = record {
      instruction =
          Instruction.create_account c.merchant c.plan.key lamports vela_plan_size program_id;
      signer_seeds = plan_seeds c.merchant plan_id ++ Seed.bump plan_bump ∷ [];
    }
    rt.invoke creation
    plan_count ← ok_or (u64_checked_add state.plan_count 1) (vela VelaError.overflow)
    let created = record c.plan { owner = program_id; lamports = lamports }
    ok (record {
      plan = write_plan created (record {
        merchant = c.merchant;
        plan_id = plan_id;
        amount = amount;
        frequency = frequency;
        trial_period = trial_period;
        max_pulls = max_pulls;
        status = PlanStatus.active;
        credential_mint = resolved;
        billing_mint = c.billing_mint;
        bump = plan_bump;
        version = current_account_version;
      });
      merchant_state = write_merchant_state state_info (record state { plan_count = plan_count });
      invocations = calls ++ creation ∷ [];
    })

  -- Tops a plan's account up to the rent of its current size, the same in update_usage_plan.rs.
  unfoldable pub resize_plan :
      (payer data_len size : ℕ) → AccountInfo → Result (AccountInfo × List Invocation)
  resize_plan payer data_len size info =
      let new_lamports = rt.minimum_balance size in
      if ltb data_len size && ltb info.lamports new_lamports
      then (do
        let call : Invocation = record {
          instruction = Instruction.transfer payer info.key (new_lamports - info.lamports);
          signer_seeds = [];
        }
        rt.invoke call
        ok (record info { lamports = new_lamports }, call ∷ []))
      else ok (info, [])

  unfoldable pub update_plan :
      UpdatePlan → (amount frequency trial_period max_pulls : Option ℕ) → Result PlanOutcome
  update_plan c amount frequency trial_period max_pulls = do
    require_program c.system_program rt.system_program_id
    require (is_some amount || is_some frequency || is_some trial_period || is_some max_pulls)
        (vela VelaError.no_update_provided)
    loaded ← load_plan_account rt c.plan
    require (is_flat loaded) (vela VelaError.billing_type_mismatch)
    require (plan_merchant loaded == c.merchant) (vela VelaError.unauthorized_cancel)
    old ← current_flat_plan loaded
    let plan = record old {
      amount = updated old.amount amount;
      frequency = updated old.frequency frequency;
      trial_period = updated old.trial_period trial_period;
      max_pulls = updated old.max_pulls max_pulls;
    }
    validate_flat_plan_terms plan.amount plan.frequency plan.max_pulls
    (resized, calls) ← resize_plan c.merchant c.plan_data_len vela_plan_size c.plan
    let event = Event.plan_updated (record {
      plan = c.plan.key;
      merchant = c.merchant;
      plan_id = plan.plan_id;
      old_amount = old.amount;
      new_amount = plan.amount;
      old_frequency = old.frequency;
      new_frequency = plan.frequency;
      old_trial_period = old.trial_period;
      new_trial_period = plan.trial_period;
      old_max_pulls = old.max_pulls;
      new_max_pulls = plan.max_pulls;
    })
    ok (record { plan = write_plan resized plan; invocations = calls; events = event ∷ [] })
