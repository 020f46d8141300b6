-- ===== src/Stream/Handlers/Resume.antt =====
-- streaming/resume_stream.rs
use vela_protocol.Base.{ℕ, none, [], ◌∷◌}
use vela_protocol.Base.Int.{ℤ, pos, pos_part, leb_ℤ}
use vela_protocol.Base.Machine.{i64_checked_sub}
use vela_protocol.Errors.{Result, ok, err, vela, VelaError, ◌>>=◌, ◌>>◌, require, ok_or}
use vela_protocol.State.{StreamStatus}
use vela_protocol.Runtime.{Runtime, AccountInfo, Event}
use vela_protocol.Stream.Account.{
  load_stream_mandate, validate_stream_mandate_address, write_stream_mandate,
}
use vela_protocol.Stream.Handlers.Control.{StreamOutcome, is_party}

pub record ResumeStream : Type 0 where
  pub authority : ℕ
  pub mandate : AccountInfo

-- `match mandate.status` of the handler.
abbrev pub require_resumable : StreamStatus → Result (Unit {0})
require_resumable StreamStatus.paused = ok tt
require_resumable StreamStatus.active = err (vela VelaError.stream_not_active)
require_resumable StreamStatus.cancelled = err (vela VelaError.stream_already_cancelled)

-- `pause_duration as u64` is read after the test that it is not negative.
unfoldable pub resume_stream : Runtime → ResumeStream → ℤ → Result StreamOutcome
resume_stream rt c clock_now = do
  loaded ← load_stream_mandate c.mandate
  validate_stream_mandate_address rt c.mandate.key loaded
  require (is_party c.authority loaded) (vela VelaError.unauthorized_stream_signer)
  require_resumable loaded.status
  paused_at ← ok_or loaded.paused_at (vela VelaError.stream_not_active)
  pause_duration ← ok_or (i64_checked_sub clock_now paused_at) (vela VelaError.clock_regression)
  require (leb_ℤ (pos 0) pause_duration) (vela VelaError.clock_regression)
  let mandate = record loaded {
    last_settled_ts = clock_now;
    paused_at = none;
    status = StreamStatus.active;
  }
  let event = Event.stream_resumed (record {
    schema_version = 1;
    mandate = c.mandate.key;
    mint = mandate.mint;
    token_symbol = "";
    resumed_at = clock_now;
    pause_duration_secs = pos_part pause_duration;
    signer = c.authority;
    timestamp = clock_now;
  })
  ok (record {
    mandate = write_stream_mandate c.mandate mandate;
    invocations = [];
    events = event ∷ [];
  })
