-- ===== src/Stream/Forfeit.antt =====
-- What a pause before the interval of a stream has passed does to the time since the last settlement:
-- pause_stream.rs and resume_stream.rs.
use vela_protocol.Base.{ℕ, ◌<◌, ◌^◌, some, none, true, ◌≡◌, refl, arith, [], Option, inl, inr}
use vela_protocol.Base.Int.{ℤ, pos, ◌+ℤ◌, ◌-ℤ◌, sub-add_pos}
use vela_protocol.Errors.{ok, Result-cases}
use vela_protocol.State.{StreamMandate, StreamStatus}
use vela_protocol.Runtime.{Runtime, AccountInfo}
use vela_protocol.Accounts.{LoadedProtocolConfig}
use vela_protocol.Stream.Account.{
  load_stream_mandate, decode_stream_mandate, write_stream_mandate, validate_stream_mandate_address,
}
use vela_protocol.Stream.Settle.{IsAccruing}
use vela_protocol.Stream.Handlers.{
  PauseStream, ResumeStream, StreamOutcome, is_party, open_stream, pay_settlement,
  settle_before_pause, pause_stream, resume_stream,
}

early_pause :
    (m : StreamMandate) (now : ℤ) (elapsed : ℕ)
    → now ≡ m.last_settled_ts +ℤ pos elapsed
    → elapsed < m.min_settle_interval
    → m.min_settle_interval < 2 ^ 32
    → settle_before_pause m now ≡ ok (m, 0)
unfolding settle_before_pause
early_pause m now elapsed clock early small =
    let sub : now -ℤ m.last_settled_ts ≡ pos elapsed =
      sub-add_pos now m.last_settled_ts elapsed clock in
    ground arith

-- The stream as it stands in its account, at its address.
record Stands (rt : Runtime) (info : AccountInfo) (m : StreamMandate) : Type 0 where
  pub loads : load_stream_mandate info ≡ ok m
  pub placed : validate_stream_mandate_address rt info.key m ≡ ok tt

open_stream-Stands :
    (rt : Runtime) (c : PauseStream) (config : LoadedProtocolConfig) (m : StreamMandate)
    → open_stream rt c ≡ ok (config, m)
    → Stands rt c.mandate m
unfolding open_stream
open_stream-Stands rt c config m h = record { loads = ground arith; placed = ground arith }

-- What differs in the status, the pause and the clock stands as well.
write-Stands :
    (rt : Runtime) (info : AccountInfo) (m : StreamMandate) (clock : ℤ) (since : Option ℤ)
    (status : StreamStatus)
    → Stands rt info m
    → Stands rt
        (write_stream_mandate info
          (record m { last_settled_ts = clock; paused_at = since; status = status }))
        (record m { last_settled_ts = clock; paused_at = since; status = status })
unfolding load_stream_mandate decode_stream_mandate write_stream_mandate
    validate_stream_mandate_address
write-Stands rt info m clock since status s = record {
  loads = ground (arith, s.loads);
  placed = s.placed;
}

-- The two handlers one after the other, the second on what the first wrote.
pub record Forfeited (rt : Runtime) (c : PauseStream) (signer : ℕ) (m : StreamMandate)
    (now later : ℤ) : Type 0 where
  pub paused : StreamOutcome
  pub resumed : StreamOutcome
  pub pauses : pause_stream rt c now ≡ ok paused
  pub resumes :
      resume_stream rt (record { authority = signer; mandate = paused.mandate }) later ≡ ok resumed
  pub unpaid : (paused.invocations ≡ []) × (resumed.invocations ≡ [])
  pub left : load_stream_mandate resumed.mandate ≡ ok (record m { last_settled_ts = later })

pause_stream-early :
    (rt : Runtime) (c : PauseStream) (config : LoadedProtocolConfig) (m : StreamMandate) (now : ℤ)
    → open_stream rt c ≡ ok (config, m)
    → m.status ≡ StreamStatus.active
    → is_party c.authority m ≡ true
    → settle_before_pause m now ≡ ok (m, 0)
    → (o : StreamOutcome) × (pause_stream rt c now ≡ ok o)
      × (o.invocations ≡ [])
      × (o.mandate
          ≡ write_stream_mandate c.mandate
              (record m { paused_at = some now; status = StreamStatus.paused }))
unfolding pause_stream pay_settlement
pause_stream-early rt c config m now opens active party unsettled =
    elim (Result-cases (pause_stream rt c now)) [
      | inr bad ↦ absurd (ground arith)
      | inl (o, e) ↦ (o, e, ground arith, ground arith)
    ]

resume_stream-later :
    (rt : Runtime) (c : ResumeStream) (p : StreamMandate) (now later : ℤ) (wait : ℕ)
    → load_stream_mandate c.mandate ≡ ok p
    → validate_stream_mandate_address rt c.mandate.key p ≡ ok tt
    → p.status ≡ StreamStatus.paused
    → p.paused_at ≡ some now
    → is_party c.authority p ≡ true
    → later ≡ now +ℤ pos wait
    → wait < 2 ^ 63
    → (o : StreamOutcome) × (resume_stream rt c later ≡ ok o)
      × (o.invocations ≡ [])
      × (o.mandate
          ≡ write_stream_mandate c.mandate (record p {
            last_settled_ts = later;
            paused_at = none;
            status = StreamStatus.active;
          }))
unfolding resume_stream
resume_stream-later rt c p now later wait loads placed paused since party clock small =
    let sub : later -ℤ now ≡ pos wait = sub-add_pos later now wait clock in
    elim (Result-cases (resume_stream rt c later)) [
      | inr bad ↦ absurd (ground arith)
      | inl (o, e) ↦ (o, e, ground arith, ground arith)
    ]

-- Where the accounts of a pause pass the first checks and hold an accruing stream, pause_stream
-- succeeds for a party before the interval has passed, resume_stream succeeds for a party at any
-- later time on what the pause wrote, neither pays anything, and the account then loads as the
-- stream with its clock at the time of the resumption.
pub pause_resume-forfeits :
    (rt : Runtime) (c : PauseStream) (config : LoadedProtocolConfig) (m : StreamMandate)
    (signer : ℕ) (now later : ℤ) (elapsed wait : ℕ)
    → open_stream rt c ≡ ok (config, m)
    → IsAccruing m
    → is_party c.authority m ≡ true
    → is_party signer m ≡ true
    → now ≡ m.last_settled_ts +ℤ pos elapsed
    → elapsed < m.min_settle_interval
    → m.min_settle_interval < 2 ^ 32
    → later ≡ now +ℤ pos wait
    → wait < 2 ^ 63
    → Forfeited rt c signer m now later
unfolding is_party
pause_resume-forfeits rt c config m signer now later elapsed wait opens on party other clock early
      small after bound =
    let p : StreamMandate = record m { paused_at = some now; status = StreamStatus.paused } in
    let left : StreamMandate = record m { last_settled_ts = later } in
    let (o, e, unpaid, writes) =
      pause_stream-early rt c config m now opens (ground arith) party
        (early_pause m now elapsed clock early small) in
    let there = open_stream-Stands rt c config m opens in
    let held : Stands rt o.mandate p =
      rw writes
        (write-Stands rt c.mandate m m.last_settled_ts (some now) StreamStatus.paused there) in
    let (o', e', unpaid', writes') =
      resume_stream-later rt (record { authority = signer; mandate = o.mandate }) p now later wait
        held.loads held.placed refl refl other after bound in
    let kept = write-Stands rt o.mandate p later none StreamStatus.active held in
    record {
      paused = o;
      resumed = o';
      pauses = e;
      resumes = e';
      unpaid = (unpaid, unpaid');
      left = rw writes' (ground (arith, kept.loads));
    }
