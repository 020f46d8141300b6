-- ===== src/State/Stream.antt =====
-- state/stream_mandate.rs
use vela_protocol.Base.{ℕ, Bool, true, false, Option}
use vela_protocol.Base.Int.{ℤ}

pub data StreamStatus : Type 0 where
  active paused cancelled : StreamStatus

pub record StreamMandate : Type 0 where
  pub version : ℕ
  pub subscriber : ℕ
  pub merchant : ℕ
  pub mint : ℕ
  pub rate_per_second : ℕ
  pub authorized_max_rate : ℕ
  pub last_settled_ts : ℤ
  pub total_streamed : ℕ
  pub max_streamed : Option ℕ
  pub paused_at : Option ℤ
  pub min_settle_interval : ℕ
  pub status : StreamStatus
  pub mandate_index : ℕ
  pub bump : ℕ
  pub pending_new_rate_per_second : ℕ
  pub pending_new_authorized_max_rate : ℕ
  pub pending_effective_at : ℤ
  pub pending_change_type : ℕ
  pub pending_nonce_short : ℕ

-- `mandate.status == StreamStatus::Active`
abbrev pub is_active : StreamStatus → Bool
is_active StreamStatus.active = true
is_active _ = false

abbrev pub is_cancelled : StreamStatus → Bool
is_cancelled StreamStatus.cancelled = true
is_cancelled _ = false
