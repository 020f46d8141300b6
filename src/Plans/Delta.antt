-- ===== src/Plans/Delta.antt =====
-- plans/update_mandate_plan.rs: the accounts, the elapsed time, and the charge or credit of the change.
use vela_protocol.Base.{ℕ, leb, if◌then◌else◌, Option, none, some, List, [], ◌∷◌, ◌++◌}
use vela_protocol.Base.Int.{ℤ, pos, pos_part, neg_part, leb_ℤ, ltb_ℤ}
use vela_protocol.Base.Machine.{
  narrow, u64_mod, u64_checked_add, i64_of_u64, u64_of_i64, i64_checked_sub,
}
use vela_protocol.Errors.{Result, ok, vela, VelaError, ◌>>=◌, ◌>>◌, require, ok_or}
use vela_protocol.State.{VelaMandate, TokenConfig}
use vela_protocol.Runtime.{
  Runtime, Seed, AccountInfo, AccountData, Loaded, Invocation, Event, program_id,
  event_token_symbol,
}
use vela_protocol.Accounts.{mandate_billing_period, v2_mandate_seeds, close_program_account}
use vela_protocol.Stream.Transfer.{StreamTransferAccounts, invoke_stream_transfer}
use vela_protocol.Billing.Pull.{load_pull_approval, check_approval_terms}

-- `authority` has signed.
pub record UpdateMandatePlan : Type 0 where
  pub authority : AccountInfo
  pub new_plan : AccountInfo
  pub mandate : AccountInfo
  pub subscriber_wrapped_account : AccountInfo
  pub merchant_wrapped_account : AccountInfo
  pub wrapped_usdc_mint : ℕ
  pub pull_approval : AccountInfo
  pub token_config : Loaded TokenConfig
  pub protocol_config : AccountInfo
  pub wrapping_vault : ℕ
  pub hook_program : ℕ
  pub extra_account_meta_list : ℕ
  pub protocol_program : ℕ
  pub token_2022_program : ℕ
  pub system_program : ℕ

-- What the proration leaves behind: the approval's account and the authority if the approval was
-- closed, and the credit.
pub record Prorated : Type 0 where
  pub credit_balance : ℕ
  pub closed : Option (AccountInfo × AccountInfo)
  pub invocations : List Invocation
  pub events : List Event

-- `Account<'info, TokenConfig>`, as an account again.
abbrev token_config_info : Loaded TokenConfig → AccountInfo
token_config_info c = record {
  key = c.key;
  owner = program_id;
  lamports = 0;
  contents = AccountData.token_config (some c.state);
}

unfoldable pub elapsed_in_period : VelaMandate → ℤ → Result ℕ
elapsed_in_period mandate clock_now = do
  period_total ← ok_or (i64_of_u64 mandate.frequency) (vela VelaError.overflow)
  period_start ←
      ok_or (i64_checked_sub mandate.next_payment_due period_total) (vela VelaError.overflow)
  if leb_ℤ clock_now period_start
      then ok 0
      else if leb_ℤ mandate.next_payment_due clock_now
      then ok mandate.frequency
      else (do
        elapsed ← ok_or (i64_checked_sub clock_now period_start) (vela VelaError.overflow)
        ok_or (u64_of_i64 elapsed) (vela VelaError.overflow))

-- The accounts of the transfer.
abbrev pub charge_accounts : UpdateMandatePlan → VelaMandate → StreamTransferAccounts
charge_accounts c m = record {
  source = c.subscriber_wrapped_account;
  mint = c.wrapped_usdc_mint;
  destination = c.merchant_wrapped_account;
  authority = c.mandate.key;
  protocol_program = c.protocol_program;
  wrapping_vault = c.wrapping_vault;
  protocol_config = c.protocol_config.key;
  pull_approval = c.pull_approval.key;
  token_config = token_config_info c.token_config;
  system_program = c.system_program;
  extra_account_meta_list = c.extra_account_meta_list;
  hook_program = c.hook_program;
  token_2022_program = c.token_2022_program;
  expected_source_authority = c.mandate.key;
  expected_destination_owner = m.merchant;
}

abbrev pub charge_seeds : VelaMandate → List Seed
charge_seeds m = v2_mandate_seeds m.subscriber m.merchant m.mandate_index ++ Seed.bump m.bump ∷ []

-- `u64::try_from` of an i128.
abbrev u64_of_i128 : ℕ → Result ℕ
u64_of_i128 n = ok_or (narrow u64_mod n) (vela VelaError.math_overflow)

module _ (rt : Runtime) where
  unfoldable pub validate_pull_approval :
      AccountInfo
      → (key : ℕ) → VelaMandate
      → (charge_amount : ℕ) (clock_now : ℤ) → Result (Unit {0})
  validate_pull_approval info key mandate charge_amount clock_now = do
    approval ← load_pull_approval rt info key
    period ← mandate_billing_period mandate
    check_approval_terms approval key period clock_now
    require (leb charge_amount approval.approved_amount) (vela VelaError.amount_exceeds_plan_amount)

  -- `if signed_delta > 0 { … }`
  unfoldable pub charge_proration : UpdateMandatePlan → VelaMandate → ℕ → ℤ → Result Prorated
  charge_proration c mandate delta clock_now = do
    charge_amount ← u64_of_i128 delta
    validate_pull_approval c.pull_approval c.mandate.key mandate charge_amount clock_now
    call ←
        invoke_stream_transfer rt (charge_accounts c mandate) charge_amount (charge_seeds mandate)
    closed ← close_program_account rt c.pull_approval c.authority
    ok (record {
      credit_balance = mandate.credit_balance;
      closed = some closed;
      invocations = call ∷ [];
      events = [];
    })

  -- `else if signed_delta < 0 { … }`
  unfoldable pub credit_proration :
      UpdateMandatePlan → (wrapped_mint : ℕ) → VelaMandate → ℕ → ℤ → Result Prorated
  credit_proration c wrapped_mint mandate delta clock_now = do
    credit_amount ← u64_of_i128 delta
    balance ← ok_or (u64_checked_add mandate.credit_balance credit_amount) (vela VelaError.overflow)
    let event = Event.mandate_credit_added (record {
      schema_version = 1;
      mandate = c.mandate.key;
      mint = c.wrapped_usdc_mint;
      token_symbol = event_token_symbol c.wrapped_usdc_mint wrapped_mint;
      old_plan = mandate.plan;
      new_plan = c.new_plan.key;
      credit_amount = credit_amount;
      new_credit_balance = balance;
      applied_at = clock_now;
      timestamp = clock_now;
    })
    ok (record { credit_balance = balance; closed = none; invocations = []; events = event ∷ [] })

  unfoldable pub settle_proration :
      UpdateMandatePlan
      → (wrapped_mint : ℕ) → VelaMandate
      → (signed_delta : ℤ) → ℤ
      → Result Prorated
  unfolding charge_proration credit_proration
  settle_proration c wrapped_mint mandate signed_delta clock_now =
      if ltb_ℤ (pos 0) signed_delta
      then charge_proration c mandate (pos_part signed_delta) clock_now
      else if ltb_ℤ signed_delta (pos 0)
      then credit_proration c wrapped_mint mandate (neg_part signed_delta) clock_now
      else ok (record {
        credit_balance = mandate.credit_balance;
        closed = none;
        invocations = [];
        events = [];
      })
