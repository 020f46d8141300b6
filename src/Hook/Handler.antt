-- ===== src/Hook/Handler.antt =====
-- `handler_transfer_hook`
use vela_protocol.Base.{
  ℕ, ◌+◌, Option, Bool, none, some, false, not, leb, ◌==◌, ◌||◌, ◌&&◌, if◌then◌else◌, [], ◌∷◌,
}
use vela_protocol.Base.Int.{ℤ, pos, leb_ℤ, eq_ℤ}
use vela_protocol.Base.Machine.{u128_mod, narrow, i64_checked_sub, u64_of_i64, u128_checked_mul}
use vela_protocol.Errors.{
  Result, ok, err, vela, program, anchor, VelaError, ProgramError, AnchorError, ◌>>=◌, ◌>>◌,
  require, require_keys_eq, ok_or,
}
use vela_protocol.State.{StreamMandate, PullApproval, ProtocolConfig, is_active, is_transfer_hook}
use vela_protocol.Runtime.{
  Runtime, Seed, AccountInfo, AccountData, Layout, TokenAccount, Loaded, data_is_empty, program_id,
  transfer_hook_program_id,
}
use vela_protocol.Accounts.{mandate_billing_period}
use vela_protocol.Hook.Config.{load_protocol_config, load_token_config}

pub record TransferHook : Type 0 where
  pub source_token : Loaded TokenAccount
  pub mint : ℕ
  pub destination_token : Loaded TokenAccount
  pub owner : AccountInfo
  pub extra_account_meta_list : ℕ
  pub protocol_program : ℕ
  pub wrapping_vault : ℕ
  pub protocol_config : AccountInfo
  pub pull_approval : AccountInfo
  pub token_config : AccountInfo

-- `if let Some(cap) = stream.max_streamed { … }`
unfoldable pub check_cap : StreamMandate → ℕ → Result (Unit {0})
check_cap stream amount = elim stream.max_streamed [
  | none ↦ ok tt
  | some cap ↦ (do
    next_total ← ok_or (narrow u128_mod (stream.total_streamed + amount)) (vela VelaError.overflow)
    require (leb next_total cap) (vela VelaError.stream_cap_exceeded))
]

-- The streaming branch.
unfoldable pub check_stream : StreamMandate → ℕ → ℤ → Result (Unit {0})
check_stream stream amount now = do
  require (is_active stream.status) (vela VelaError.stream_not_active)
  elapsed_i64 ← ok_or (i64_checked_sub now stream.last_settled_ts) (vela VelaError.clock_regression)
  require (leb_ℤ (pos 0) elapsed_i64) (vela VelaError.clock_regression)
  require (leb_ℤ (pos stream.min_settle_interval) elapsed_i64)
      (vela VelaError.min_settle_interval_violation)
  elapsed ← ok_or (u64_of_i64 elapsed_i64) (vela VelaError.overflow)
  gross ← ok_or (u128_checked_mul elapsed stream.rate_per_second) (vela VelaError.overflow)
  require (leb amount gross) (vela VelaError.amount_exceeds_stream_rate)
  check_cap stream amount

-- `if let Some((period_start, period_end)) = expected_approval_period { … }`
unfoldable pub check_period : PullApproval → Option (ℤ × ℤ) → Result (Unit {0})
check_period a none = ok tt
check_period a (some (period_start, period_end)) =
    require (eq_ℤ a.period_start period_start && eq_ℤ a.period_end period_end)
      (vela VelaError.transfer_not_authorized)

unfoldable pub check_approval :
    PullApproval → (owner : ℕ) → Option (ℤ × ℤ) → ℕ → ℤ → Result (Unit {0})
check_approval a owner period amount now = do
  require_keys_eq a.mandate owner (vela VelaError.transfer_not_authorized)
  require a.approved (vela VelaError.approval_not_granted)
  require (leb_ℤ now a.valid_until) (vela VelaError.approval_expired)
  check_period a period
  require (leb amount a.approved_amount) (vela VelaError.amount_exceeds_plan_amount)

-- What the data of the approval account is.
unfoldable pub read_approval : AccountData → Result PullApproval
read_approval AccountData.short = err (vela VelaError.wrong_account_type)
read_approval (AccountData.pull_approval none) = err (vela VelaError.transfer_not_authorized)
read_approval (AccountData.pull_approval (some a)) = ok a
read_approval _ = err (vela VelaError.wrong_account_type)

module _ (rt : Runtime) where
  -- The branch of an authority that is not a stream.
  unfoldable pub check_pull_approval : TransferHook → Option (ℤ × ℤ) → ℕ → ℤ → Result (Unit {0})
  check_pull_approval c period amount now = do
    let seeds = Seed.literal "approval" ∷ Seed.pubkey c.owner.key ∷ []
    let expected_approval = (rt.find_program_address seeds program_id).0
    require_keys_eq c.pull_approval.key expected_approval (vela VelaError.transfer_not_authorized)
    require (c.pull_approval.owner == program_id && not (data_is_empty c.pull_approval.contents))
        (vela VelaError.transfer_not_authorized)
    approval ← read_approval c.pull_approval.contents
    check_approval approval c.owner.key period amount now

  -- The gate of an authority that the protocol owns, by what its data is.
  unfoldable pub check_authority : TransferHook → AccountData → ℕ → ℤ → Result (Unit {0})
  check_authority c AccountData.short amount now = err (program ProgramError.invalid_account_data)
  check_authority c (AccountData.stream_mandate (some stream)) amount now =
      check_stream stream amount now
  check_authority c (AccountData.stream_mandate none) amount now =
      err (vela VelaError.wrong_account_type)
  check_authority c (AccountData.mandate (Layout.current mandate)) amount now = do
    period ← mandate_billing_period mandate
    check_pull_approval c (some period) amount now
  check_authority c (AccountData.mandate _) amount now = err (vela VelaError.wrong_account_type)
  check_authority c _ amount now = check_pull_approval c none amount now

  -- The constraints of the accounts, and the checks of the configuration and the token accounts.
  unfoldable pub check_transfer : TransferHook → Result ProtocolConfig
  check_transfer c = do
    let meta_seeds = Seed.literal "extra-account-metas" ∷ Seed.pubkey c.mint ∷ []
    let meta_address = (rt.find_program_address meta_seeds transfer_hook_program_id).0
    require (c.extra_account_meta_list == meta_address) (anchor AnchorError.constraint_seeds)
    require (c.protocol_program == program_id) (anchor AnchorError.constraint_address)
    protocol_config ← load_protocol_config rt c.protocol_config
    require_keys_eq protocol_config.transfer_hook_program_id transfer_hook_program_id
        (vela VelaError.invalid_protocol_config)
    token_config ← load_token_config rt c.token_config c.mint
    require_keys_eq token_config.mint c.mint (vela VelaError.token_not_registered)
    require token_config.enabled (vela VelaError.token_disabled)
    require (is_transfer_hook token_config.billing_rail) (vela VelaError.invalid_billing_rail)
    require_keys_eq c.source_token.state.mint c.mint (vela VelaError.transfer_not_authorized)
    require_keys_eq c.destination_token.state.mint c.mint (vela VelaError.transfer_not_authorized)
    require_keys_eq c.source_token.state.owner c.owner.key (vela VelaError.transfer_not_authorized)
    ok protocol_config

  -- Whether the transfer wraps or unwraps: it touches the vault of the wrapped mint.
  unfoldable pub touches_vault : TransferHook → ProtocolConfig → Result Bool
  touches_vault c config =
      if c.mint == config.wrapped_usdc_mint
      then (do
        require_keys_eq c.wrapping_vault config.wrapping_vault (vela VelaError.vault_mismatch)
        ok (
            c.source_token.key == config.wrapping_vault
            || c.destination_token.key == config.wrapping_vault))
      else ok false

  unfoldable pub transfer_hook : TransferHook → ℕ → ℤ → Result (Unit {0})
  transfer_hook c amount now = do
    config ← check_transfer c
    vault ← touches_vault c config
    if vault
        then ok tt
        else if not (c.owner.owner == program_id)
        then ok tt
        else check_authority c c.owner.contents amount now
