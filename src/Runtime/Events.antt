-- ===== src/Runtime/Events.antt =====
-- The events that the modelled handlers emit: state/billing_event.rs and the agent and configuration handlers.
use vela_protocol.Base.{ℕ, Bool, Option, String}
use vela_protocol.Base.Int.{ℤ}
use vela_protocol.State.{AgentMandateStatus, KeeperMode, BillingRail}
use vela_protocol.Runtime.BillingEvents.{
  MandateUpgradeInitiated, MandateUpgradeFinalized, MandateCreditAdded, ValidationCompleteEvent,
  UsageComputationCompleteEvent, BillingEventCreatedEvent, PlanUpdated, UsagePlanUpdated,
}

pub record StreamCreated : Type 0 where
  pub schema_version : ℕ
  pub mandate : ℕ
  pub subscriber : ℕ
  pub merchant : ℕ
  pub mint : ℕ
  pub token_symbol : String
  pub rate_per_second : ℕ
  pub authorized_max_rate : ℕ
  pub max_streamed : Option ℕ
  pub min_settle_interval : ℕ
  pub timestamp : ℤ

pub record StreamSettled : Type 0 where
  pub schema_version : ℕ
  pub mandate : ℕ
  pub mint : ℕ
  pub token_symbol : String
  pub amount : ℕ
  pub total_streamed_after : ℕ
  pub last_settled_ts : ℤ
  pub timestamp : ℤ

pub record StreamPaused : Type 0 where
  pub schema_version : ℕ
  pub mandate : ℕ
  pub mint : ℕ
  pub token_symbol : String
  pub paused_at : ℤ
  pub signer : ℕ
  pub final_settle_amount : ℕ
  pub timestamp : ℤ

pub record StreamResumed : Type 0 where
  pub schema_version : ℕ
  pub mandate : ℕ
  pub mint : ℕ
  pub token_symbol : String
  pub resumed_at : ℤ
  pub pause_duration_secs : ℕ
  pub signer : ℕ
  pub timestamp : ℤ

pub record StreamRateUpdated : Type 0 where
  pub schema_version : ℕ
  pub mandate : ℕ
  pub mint : ℕ
  pub token_symbol : String
  pub old_rate_per_second : ℕ
  pub new_rate_per_second : ℕ
  pub old_authorized_max_rate : ℕ
  pub new_authorized_max_rate : ℕ
  pub signer : ℕ
  pub final_settle_amount : ℕ
  pub timestamp : ℤ

pub record StreamCancelled : Type 0 where
  pub schema_version : ℕ
  pub mandate : ℕ
  pub mint : ℕ
  pub token_symbol : String
  pub cancelled_at : ℤ
  pub signer : ℕ
  pub final_settle_amount : ℕ
  pub total_streamed_final : ℕ
  pub timestamp : ℤ

pub record AgentMandateCreated : Type 0 where
  pub mandate : ℕ
  pub authority : ℕ
  pub agent : ℕ
  pub daily_limit : ℕ
  pub lifetime_cap : ℕ
  pub service_count : ℕ
  pub funded_amount : ℕ
  pub remaining_balance : ℕ

pub record AgentMandateAdjusted : Type 0 where
  pub mandate : ℕ
  pub authority : ℕ
  pub agent : ℕ
  pub daily_limit : ℕ
  pub lifetime_cap : ℕ
  pub min_pull_amount : ℕ
  pub min_pull_interval : ℤ
  pub daily_spent : ℕ
  pub total_spent : ℕ
  pub remaining_balance : ℕ

pub record AgentPullExecuted : Type 0 where
  pub mandate : ℕ
  pub authority : ℕ
  pub agent : ℕ
  pub service : ℕ
  pub amount : ℕ
  pub daily_spent : ℕ
  pub total_spent : ℕ
  pub remaining_balance : ℕ

-- The fields of `AgentMandatePaused` and of `AgentMandateResumed`.
pub record AgentMandatePaused : Type 0 where
  pub mandate : ℕ
  pub authority : ℕ
  pub agent : ℕ
  pub daily_spent : ℕ
  pub total_spent : ℕ

pub record AgentMandateRevoked : Type 0 where
  pub mandate : ℕ
  pub authority : ℕ
  pub agent : ℕ
  pub daily_spent : ℕ
  pub total_spent : ℕ
  pub remaining_balance : ℕ

pub record AgentMandateDrained : Type 0 where
  pub mandate : ℕ
  pub authority : ℕ
  pub agent : ℕ
  pub status : AgentMandateStatus
  pub daily_spent : ℕ
  pub total_spent : ℕ
  pub remaining_balance : ℕ

-- The fields of `KeeperConfigInitialized` and of `KeeperConfigUpdated`.
pub record KeeperConfigUpdated : Type 0 where
  pub admin : ℕ
  pub mode : KeeperMode
  pub keeper_authority : ℕ

pub record TokenConfigCreated : Type 0 where
  pub mint : ℕ
  pub billing_rail : BillingRail
  pub decimals : ℕ
  pub admin : ℕ

pub record TokenConfigUpdated : Type 0 where
  pub mint : ℕ
  pub enabled : Option Bool
  pub oracle_reference : Option ℕ

pub data Event : Type 0 where
  stream_created : StreamCreated → Event
  stream_settled : StreamSettled → Event
  stream_paused : StreamPaused → Event
  stream_resumed : StreamResumed → Event
  stream_rate_updated : StreamRateUpdated → Event
  stream_cancelled : StreamCancelled → Event
  mandate_upgrade_initiated : MandateUpgradeInitiated → Event
  mandate_upgrade_finalized : MandateUpgradeFinalized → Event
  mandate_upgrade_cancelled : MandateUpgradeInitiated → Event
  plan_updated : PlanUpdated → Event
  usage_plan_updated : UsagePlanUpdated → Event
  mandate_credit_added : MandateCreditAdded → Event
  validation_complete : ValidationCompleteEvent → Event
  usage_computation_complete : UsageComputationCompleteEvent → Event
  billing_event_created : BillingEventCreatedEvent → Event
  agent_mandate_created : AgentMandateCreated → Event
  agent_mandate_adjusted : AgentMandateAdjusted → Event
  agent_pull_executed : AgentPullExecuted → Event
  agent_mandate_paused agent_mandate_resumed : AgentMandatePaused → Event
  agent_mandate_revoked : AgentMandateRevoked → Event
  agent_mandate_drained : AgentMandateDrained → Event
  keeper_config_initialized keeper_config_updated : KeeperConfigUpdated → Event
  token_config_created : TokenConfigCreated → Event
  token_config_updated : TokenConfigUpdated → Event
