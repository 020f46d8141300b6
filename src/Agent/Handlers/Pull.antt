-- ===== src/Agent/Handlers/Pull.antt =====
-- agent_mandates/agent_pull.rs
use vela_protocol.Base.{
  ℕ, some, true, not, leb, ◌==◌, ◌&&◌, if◌then◌else◌, [], ◌∷◌, ◌++◌, get_elem?, set,
}
use vela_protocol.Base.Int.{ℤ, pos, leb_ℤ, ltb_ℤ}
use vela_protocol.Base.Machine.{u64_checked_add, i64_saturating_sub, i64_checked_add}
use vela_protocol.Errors.{
  Result, ok, err, vela, anchor, VelaError, AnchorError, ◌>>=◌, ◌>>◌, require, require_keys_eq,
  ok_or,
}
use vela_protocol.State.{AgentMandate, AgentMandateStatus, ProtocolConfig, PullApproval}
use vela_protocol.Runtime.{
  Runtime, Seed, AccountInfo, AccountData, Loaded, Invocation, Event, program_id, default_pubkey,
  usdc_decimals, agent_pull_approval_ttl_seconds, require_program,
}
use vela_protocol.Accounts.{
  TransferCheckedWithHookAccounts, invoke_transfer_checked_with_hook, close_program_account,
}
use vela_protocol.Agent.Limits.{
  reset_daily_if_needed, find_service_index, reset_service_daily_if_needed,
}
use vela_protocol.Agent.Account.{
  agent_seeds, load_agent_mandate, is_legacy, into_current_agent, write_agent_mandate,
}
use vela_protocol.Agent.Handlers.Common.{
  LoadedToken, AgentOutcome, check_token, check_owned_token, check_agent_address,
  check_protocol_config,
}

-- `payer` and `agent` have signed. `pull_approval` is the account as Anchor's `init` left it: of the
-- program, zeroed.
pub record AgentPull : Type 0 where
  pub payer : AccountInfo
  pub agent : ℕ
  pub authority : ℕ
  pub agent_mandate : AccountInfo
  pub mandate_wrapped_account : LoadedToken
  pub service_wrapped_account : LoadedToken
  pub pull_approval : AccountInfo
  pub token_config : ℕ
  pub wrapped_usdc_mint : ℕ
  pub protocol_config : Loaded ProtocolConfig
  pub wrapping_vault : ℕ
  pub hook_program : ℕ
  pub extra_account_meta_list : ℕ
  pub protocol_program : ℕ
  pub token_2022_program : ℕ
  pub system_program : ℕ

-- Beside the mandate: the approval as it stood during the transfer, and the accounts of its closing.
pub record PullOutcome : Type 0 where
  pub left : AgentOutcome
  pub granted : AccountInfo
  pub closed : AccountInfo
  pub refunded : AccountInfo

-- `match mandate.status { … }`
unfoldable pub require_pullable : AgentMandateStatus → Result (Unit {0})
require_pullable AgentMandateStatus.active = ok tt
require_pullable AgentMandateStatus.paused = err (vela VelaError.mandate_paused)
require_pullable AgentMandateStatus.revoked = err (vela VelaError.mandate_revoked)

-- `if mandate.last_pull_at > 0 && mandate.min_pull_interval > 0 { … }`
unfoldable pub check_cooldown : AgentMandate → ℤ → Result (Unit {0})
check_cooldown m now =
    if ltb_ℤ (pos 0) m.last_pull_at && ltb_ℤ (pos 0) m.min_pull_interval
    then require (leb_ℤ m.min_pull_interval (i64_saturating_sub now m.last_pull_at))
        (vela VelaError.pull_cooldown_active)
    else ok tt

-- `(next_service_spent, next_daily_spent, next_total_spent)`
pub record NextSpent : Type 0 where
  pub service : ℕ
  pub daily : ℕ
  pub total : ℕ

-- The limits, on the mandate whose windows have been reset.
unfoldable pub check_limits : AgentMandate → ℕ → ℕ → ℤ → Result NextSpent
check_limits m index amount now = do
  service_limit ← ok_or (get_elem? m.services index) (vela VelaError.unauthorized_service)
  next_service ← ok_or (u64_checked_add service_limit.daily_spent amount) (vela VelaError.overflow)
  require (leb next_service service_limit.daily_limit) (vela VelaError.service_daily_limit_exceeded)
  next_daily ← ok_or (u64_checked_add m.daily_spent amount) (vela VelaError.overflow)
  require (leb next_daily m.daily_limit) (vela VelaError.daily_limit_exceeded)
  next_total ← ok_or (u64_checked_add m.total_spent amount) (vela VelaError.overflow)
  require (leb next_total m.lifetime_cap) (vela VelaError.lifetime_cap_exceeded)
  require (leb m.min_pull_amount amount) (vela VelaError.pull_amount_too_small)
  check_cooldown m now
  ok (record { service = next_service; daily = next_daily; total = next_total })

-- The mandate with its windows reset.
abbrev pub reset_windows : AgentMandate → ℕ → ℤ → AgentMandate
reset_windows m index now = reset_daily_if_needed (reset_service_daily_if_needed m index now) now

-- The pull is recorded.
unfoldable pub record_pull : AgentMandate → ℕ → NextSpent → ℤ → Result AgentMandate
record_pull m index next now = do
  service_state ← ok_or (get_elem? m.services index) (vela VelaError.unauthorized_service)
  ok (record m {
    services = set m.services index (record service_state { daily_spent = next.service });
    daily_spent = next.daily;
    total_spent = next.total;
    last_pull_at = now;
  })

-- The approval that the hook reads during the transfer.
abbrev pub agent_approval : ℕ → ℕ → ℤ → ℤ → ℕ → PullApproval
agent_approval mandate amount now valid_until bump = record {
  mandate = mandate;
  period_start = pos 0;
  period_end = pos 0;
  valid_until = valid_until;
  approved = true;
  approved_amount = amount;
  created_at = now;
  bump = bump;
}

-- The accounts of the transfer.
abbrev pub pull_transfer_accounts : AgentPull → TransferCheckedWithHookAccounts
pull_transfer_accounts c = record {
  source = c.mandate_wrapped_account.key;
  mint = c.wrapped_usdc_mint;
  destination = c.service_wrapped_account.key;
  authority = c.agent_mandate.key;
  protocol_program = c.protocol_program;
  wrapping_vault = c.wrapping_vault;
  protocol_config = c.protocol_config.key;
  pull_approval = c.pull_approval.key;
  token_config = c.token_config;
  system_program = c.system_program;
  extra_account_meta_list = c.extra_account_meta_list;
  hook_program = c.hook_program;
  token_2022_program = c.token_2022_program;
}

module _ (rt : Runtime) where
  -- The constraints of the accounts.
  unfoldable pub check_pull_accounts : AgentPull → Result (Unit {0})
  check_pull_accounts c = do
    let approval_seeds = Seed.literal "approval" ∷ Seed.pubkey c.agent_mandate.key ∷ []
    let approval_address = (rt.find_program_address approval_seeds program_id).0
    let meta_seeds = Seed.literal "extra-account-metas" ∷ Seed.pubkey c.wrapped_usdc_mint ∷ []
    let meta_address = (rt.find_program_address meta_seeds c.hook_program).0
    check_agent_address rt c.agent_mandate.key c.authority c.agent
    check_owned_token c.mandate_wrapped_account c.wrapped_usdc_mint c.agent_mandate.key
        c.token_2022_program
    check_token c.service_wrapped_account c.wrapped_usdc_mint c.token_2022_program
    require (c.pull_approval.key == approval_address) (anchor AnchorError.constraint_seeds)
    require (c.wrapped_usdc_mint == c.protocol_config.state.wrapped_usdc_mint)
        (anchor AnchorError.constraint_address)
    check_protocol_config rt c.protocol_config
    require (c.wrapping_vault == c.protocol_config.state.wrapping_vault)
        (anchor AnchorError.constraint_address)
    require (c.extra_account_meta_list == meta_address) (anchor AnchorError.constraint_seeds)
    require (c.protocol_program == program_id) (anchor AnchorError.constraint_address)
    require_program c.token_2022_program rt.token_2022_id
    require_program c.system_program rt.system_program_id

  -- The checks of the protocol's configuration.
  unfoldable pub check_pull_protocol : AgentPull → Result (Unit {0})
  check_pull_protocol c = do
    let config = c.protocol_config.state
    require (not config.paused) (vela VelaError.protocol_paused)
    require (not (config.transfer_hook_program_id == default_pubkey))
        (vela VelaError.invalid_protocol_config)
    require_keys_eq c.hook_program config.transfer_hook_program_id
        (vela VelaError.invalid_protocol_config)

  -- The approval is granted.
  unfoldable pub grant_approval : AgentPull → ℕ → ℤ → Result AccountInfo
  grant_approval c amount now = do
    let seeds = Seed.literal "approval" ∷ Seed.pubkey c.agent_mandate.key ∷ []
    let approval_bump = (rt.find_program_address seeds program_id).1
    valid_until ←
        ok_or (i64_checked_add now agent_pull_approval_ttl_seconds) (vela VelaError.overflow)
    ok (record c.pull_approval {
      contents =
          AccountData.pull_approval
            (some (agent_approval c.agent_mandate.key amount now valid_until approval_bump));
    })

  -- The event, with the balance that the transfer leaves.
  abbrev pub pull_event : AgentPull → AgentMandate → ℕ → ℕ → Invocation → Event
  pull_event c m service amount call =
      let tokens = c.mandate_wrapped_account in
      Event.agent_pull_executed (record {
        mandate = c.agent_mandate.key;
        authority = m.authority;
        agent = m.agent;
        service = service;
        amount = amount;
        daily_spent = m.daily_spent;
        total_spent = m.total_spent;
        remaining_balance = (rt.reload (call ∷ []) tokens.key tokens.state).amount;
      })

  unfoldable pub agent_pull : AgentPull → ℕ → ℤ → Result PullOutcome
  agent_pull c amount now = do
    check_pull_accounts c
    loaded ← load_agent_mandate rt c.agent_mandate c.authority c.agent
    let m = into_current_agent loaded
    require_pullable m.status
    check_pull_protocol c
    let service = c.service_wrapped_account.state.owner
    index ← ok_or (find_service_index m.services service) (vela VelaError.unauthorized_service)
    let fresh = reset_windows m index now
    next ← check_limits fresh index amount now
    require (leb amount c.mandate_wrapped_account.state.amount)
        (vela VelaError.insufficient_mandate_balance)
    granted ← grant_approval c amount now
    call ←
        invoke_transfer_checked_with_hook rt (pull_transfer_accounts c) amount usdc_decimals
          (agent_seeds c.authority c.agent ++ Seed.bump m.bump ∷ [])
    (closed, refunded) ← close_program_account rt granted c.payer
    m' ← record_pull fresh index next now
    written ← write_agent_mandate c.agent_mandate m' (is_legacy loaded)
    ok (record {
      left = record {
        mandate = written;
        invocations = call ∷ [];
        events = pull_event c m' service amount call ∷ [];
      };
      granted = granted;
      closed = closed;
      refunded = refunded;
    })
