-- ===== src/Stream/Handlers/Pause.antt =====
-- streaming/pause_stream.rs
use vela_protocol.Base.{ℕ, some, if◌then◌else◌, [], ◌∷◌}
use vela_protocol.Base.Int.{ℤ, pos, leb_ℤ}
use vela_protocol.Base.Machine.{i64_checked_sub}
use vela_protocol.Errors.{Result, ok, err, vela, VelaError, ◌>>=◌, ◌>>◌, require, ok_or}
use vela_protocol.State.{StreamMandate, StreamStatus}
use vela_protocol.Runtime.{Runtime, Event, event_token_symbol}
use vela_protocol.Accounts.{config_wrapped_usdc_mint}
use vela_protocol.Stream.Account.{write_stream_mandate, settle_accrued_in_place}
use vela_protocol.Stream.Handlers.Control.{
  PauseStream, StreamOutcome, is_party, open_stream, pay_settlement,
}

-- `match mandate.status` of the handler.
abbrev pub require_pausable : StreamStatus → Result (Unit {0})
require_pausable StreamStatus.active = ok tt
require_pausable StreamStatus.paused = err (vela VelaError.stream_already_paused)
require_pausable StreamStatus.cancelled = err (vela VelaError.stream_already_cancelled)

-- The settlement before the pause: nothing, where the interval has not passed.
unfoldable pub settle_before_pause : StreamMandate → ℤ → Result (StreamMandate × ℕ)
settle_before_pause m clock_now = do
  elapsed ← ok_or (i64_checked_sub clock_now m.last_settled_ts) (vela VelaError.clock_regression)
  require (leb_ℤ (pos 0) elapsed) (vela VelaError.clock_regression)
  if leb_ℤ (pos m.min_settle_interval) elapsed
      then settle_accrued_in_place m clock_now
      else ok (m, 0)

unfoldable pub pause_stream : Runtime → PauseStream → ℤ → Result StreamOutcome
pause_stream rt c clock_now = do
  (config, loaded) ← open_stream rt c
  require (is_party c.authority loaded) (vela VelaError.unauthorized_stream_signer)
  require_pausable loaded.status
  (settled, settle_amount) ← settle_before_pause loaded clock_now
  calls ← pay_settlement rt c settled settle_amount
  let mandate = record settled { paused_at = some clock_now; status = StreamStatus.paused }
  let event = Event.stream_paused (record {
    schema_version = 1;
    mandate = c.mandate.key;
    mint = mandate.mint;
    token_symbol = event_token_symbol mandate.mint (config_wrapped_usdc_mint config);
    paused_at = clock_now;
    signer = c.authority;
    final_settle_amount = settle_amount;
    timestamp = clock_now;
  })
  ok (record {
    mandate = write_stream_mandate c.mandate mandate;
    invocations = calls;
    events = event ∷ [];
  })
