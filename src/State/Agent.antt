-- ===== src/State/Agent.antt =====
-- state/agent_mandate.rs, and the legacy layout of accounts/agent_mandate_account.rs.
use vela_protocol.Base.{ℕ, List}
use vela_protocol.Base.Int.{ℤ}

pub record ServiceLimit : Type 0 where
  pub service : ℕ
  pub daily_limit : ℕ
  pub daily_spent : ℕ
  pub last_reset : ℤ

pub data AgentMandateStatus : Type 0 where
  active paused revoked : AgentMandateStatus

-- The fields of `AgentMandateV1`, which `AgentMandate` has too.
pub record AgentMandateV1 : Type 0 where
  pub authority : ℕ
  pub agent : ℕ
  pub daily_limit : ℕ
  pub daily_spent : ℕ
  pub daily_last_reset : ℤ
  pub lifetime_cap : ℕ
  pub total_spent : ℕ
  pub min_pull_amount : ℕ
  pub min_pull_interval : ℤ
  pub last_pull_at : ℤ
  pub status : AgentMandateStatus
  pub services : List ServiceLimit
  pub bump : ℕ

pub record AgentMandate : Type 0 where
  pub authority : ℕ
  pub agent : ℕ
  pub daily_limit : ℕ
  pub daily_spent : ℕ
  pub daily_last_reset : ℤ
  pub lifetime_cap : ℕ
  pub total_spent : ℕ
  pub min_pull_amount : ℕ
  pub min_pull_interval : ℤ
  pub last_pull_at : ℤ
  pub status : AgentMandateStatus
  pub services : List ServiceLimit
  pub bump : ℕ
  pub version : ℕ
