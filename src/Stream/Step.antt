-- ===== src/Stream/Step.antt =====
-- What the handlers of instructions/streaming/ may do to a stream that exists, as a relation on its
-- state: the specification that Stream/Effects.antt proves of each handler.
use vela_protocol.Base.{ℕ, none, some, true, false, ◌≡◌, Option, leb}
use vela_protocol.Base.Int.{ℤ, ◌≤ℤ◌}
use vela_protocol.Errors.{ok}
use vela_protocol.State.{StreamMandate, StreamStatus, is_cancelled}
use vela_protocol.Runtime.{AccountInfo, moved}
use vela_protocol.Stream.Account.{
  load_stream_mandate, write_stream_mandate, settle_accrued_in_place,
}
use vela_protocol.Stream.Handlers.{
  StreamOutcome, is_party, settle_before_pause, settle_before_cancel, check_rate_change, apply_rate,
}

-- At time `now`, with the signature of `signer`, `m` becomes `m'` and `paid` goes to the merchant.
pub data StreamStep (now : ℤ) (signer : ℕ) (m : StreamMandate) (paid : ℕ) (m' : StreamMandate)
    : Type 0 where
  execute : settle_accrued_in_place m now ≡ ok (m', paid) → StreamStep now signer m paid m'
  pause :
      (s : StreamMandate)
      → is_party signer m ≡ true
      → m.status ≡ StreamStatus.active
      → settle_before_pause m now ≡ ok (s, paid)
      → m' ≡ record s { paused_at = some now; status = StreamStatus.paused }
      → StreamStep now signer m paid m'
  resume :
      (t : ℤ)
      → is_party signer m ≡ true
      → m.status ≡ StreamStatus.paused
      → m.paused_at ≡ some t
      → t ≤ℤ now
      → paid ≡ 0
      → m' ≡ record m { last_settled_ts = now; paused_at = none; status = StreamStatus.active }
      → StreamStep now signer m paid m'
  cancel :
      (s : StreamMandate)
      → is_party signer m ≡ true
      → is_cancelled m.status ≡ false
      → settle_before_cancel m now ≡ ok (s, paid)
      → m' ≡ record s { status = StreamStatus.cancelled; paused_at = none }
      → StreamStep now signer m paid m'
  change_rate :
      (s : StreamMandate) (new_rate new_max : Option ℕ)
      → check_rate_change signer m new_rate new_max ≡ ok tt
      → settle_accrued_in_place m now ≡ ok (s, paid)
      → m' ≡ apply_rate s new_rate new_max
      → leb m'.rate_per_second m'.authorized_max_rate ≡ true
      → StreamStep now signer m paid m'

-- A handler that read the stream account `info` made a step: it wrote the new state and moved what was
-- paid, by the stream's own authority, and invoked nothing else.
pub record Steps (info : AccountInfo) (source destination : ℕ) (now : ℤ) (signer : ℕ)
    (o : StreamOutcome) : Type 0 where
  pub before : StreamMandate
  pub after : StreamMandate
  pub paid : ℕ
  pub loaded : load_stream_mandate info ≡ ok before
  pub step : StreamStep now signer before paid after
  pub writes : o.mandate ≡ write_stream_mandate info after
  pub moves : moved source destination info.key o.invocations ≡ some paid
