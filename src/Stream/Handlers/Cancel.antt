-- ===== src/Stream/Handlers/Cancel.antt =====
-- streaming/cancel_stream.rs
use vela_protocol.Base.{ℕ, none, not, ◌&&◌, if◌then◌else◌, [], ◌∷◌}
use vela_protocol.Base.Int.{ℤ, pos, leb_ℤ}
use vela_protocol.Base.Machine.{i64_checked_sub}
use vela_protocol.Errors.{Result, ok, vela, VelaError, ◌>>=◌, ◌>>◌, require, ok_or}
use vela_protocol.State.{StreamMandate, StreamStatus, is_active, is_cancelled}
use vela_protocol.Runtime.{Runtime, Event, event_token_symbol}
use vela_protocol.Accounts.{config_wrapped_usdc_mint}
use vela_protocol.Stream.Account.{write_stream_mandate, settle_accrued_in_place}
use vela_protocol.Stream.Handlers.Control.{
  CancelStream, StreamOutcome, is_party, open_stream, pay_settlement,
}

-- The last settlement: nothing, where the stream is paused or the interval has not passed.
unfoldable pub settle_before_cancel : StreamMandate → ℤ → Result (StreamMandate × ℕ)
settle_before_cancel m clock_now = do
  elapsed ← ok_or (i64_checked_sub clock_now m.last_settled_ts) (vela VelaError.clock_regression)
  require (leb_ℤ (pos 0) elapsed) (vela VelaError.clock_regression)
  if is_active m.status && leb_ℤ (pos m.min_settle_interval) elapsed
      then settle_accrued_in_place m clock_now
      else ok (m, 0)

unfoldable pub cancel_stream : Runtime → CancelStream → ℤ → Result StreamOutcome
cancel_stream rt c clock_now = do
  (config, loaded) ← open_stream rt c
  require (is_party c.authority loaded) (vela VelaError.unauthorized_stream_signer)
  require (not (is_cancelled loaded.status)) (vela VelaError.stream_already_cancelled)
  (settled, settle_amount) ← settle_before_cancel loaded clock_now
  calls ← pay_settlement rt c settled settle_amount
  let mandate = record settled { status = StreamStatus.cancelled; paused_at = none }
  let event = Event.stream_cancelled (record {
    schema_version = 1;
    mandate = c.mandate.key;
    mint = mandate.mint;
    token_symbol = event_token_symbol mandate.mint (config_wrapped_usdc_mint config);
    cancelled_at = clock_now;
    signer = c.authority;
    final_settle_amount = settle_amount;
    total_streamed_final = mandate.total_streamed;
    timestamp = clock_now;
  })
  ok (record {
    mandate = write_stream_mandate c.mandate mandate;
    invocations = calls;
    events = event ∷ [];
  })
