-- ===== src/Tests/StreamLives.antt =====
-- The life of a stream, step by step.
use vela_protocol.Base.{ℕ, ◌+◌, ◌*◌, ◌≤◌, none, some, true, ◌≡◌, ◌⊎◌, refl, arith, [], ◌∷◌}
use vela_protocol.Base.Int.{pos, ◌+ℤ◌, ◌-ℤ◌}
use vela_protocol.Errors.{ok}
use vela_protocol.State.{StreamMandate, StreamStatus, MerchantState}
use vela_protocol.Runtime.{AccountInfo, AccountData, program_id, Seed}
use vela_protocol.Stream.Account.{
  load_stream_mandate, decode_stream_mandate, write_stream_mandate, settle_accrued_in_place,
  settle_accrued, remaining_cap, validate_stream_mandate_address,
}
use vela_protocol.Stream.Transfer.{validate_stream_transfer_accounts}
use vela_protocol.Accounts.{
  LoadedProtocolConfig, load_protocol_config, validate_protocol_config_address,
  decode_protocol_config, config_paused, config_hook_program_id, config_wrapping_vault,
}
use vela_protocol.Stream.Settle.{
  settle_accrued_in_place-Settled, settle_accrued_in_place-pays, IsAccruing, Settled, due,
}
use vela_protocol.Stream.Handlers.{
  CreateStreamMandate, CreateArgs, StreamOutcome, check_create_accounts, check_stream_terms,
  validate_merchant_state_address, create_stream_mandate, settle_before_pause, is_party,
  open_stream, check_stream_accounts, check_control_accounts,
}
use vela_protocol.Stream.Step.{StreamStep, execute, pause, resume}
use vela_protocol.Stream.Invariant.{IsValid, StreamStep-IsValid, create_stream_mandate-IsValid}
use vela_protocol.Stream.Accrual.{Run, done, more, Run-bounded}
use vela_protocol.Stream.Authority.{SameTerms, StreamStep-authorized}
use vela_protocol.Stream.Forfeit.{Forfeited, pause_resume-forfeits}
use vela_protocol.Tests.Fixture.{runtime, from_ok, address, token_config, protocol_config}
use vela_protocol.Tests.Streams.{
  controlling, stream, paused_stream, stream_address, executed, settled_stream,
}

pub settles : settle_accrued_in_place stream (pos 1100) ≡ ok (settled_stream, 1000)
unfolding settle_accrued_in_place settle_accrued remaining_cap ◌-ℤ◌
settles = refl

settle_accrued_in_place-Settled_example :
    ((¬ IsAccruing stream) × (settled_stream ≡ stream) × (◌≡◌ {A = ℕ} 1000 0))
    ⊎ (IsAccruing stream × Settled stream (pos 1100) settled_stream 1000)
settle_accrued_in_place-Settled_example = settle_accrued_in_place-Settled stream (pos 1100) settles

hundred_later : (pos 1100 ≡ pos 1000 +ℤ pos 100) × (pos 5000 ≡ pos 1100 +ℤ pos 3900)
unfolding ◌+ℤ◌
hundred_later = (refl, refl)

settle_accrued_in_place-pays_example :
    settle_accrued_in_place stream (pos 1100)
    ≡ ok (
      record stream { total_streamed = 500 + due stream 100; last_settled_ts = pos 1100 },
      due stream 100,
    )
settle_accrued_in_place-pays_example =
    settle_accrued_in_place-pays stream (pos 1100) 100 (refl, refl) hundred_later.0 (ground arith)
      (ground arith) (ground arith) (ground arith) (ground arith)

stream-IsValid : IsValid stream
stream-IsValid = record {
  positive = ground arith;
  authorized = ground arith;
  capped = ground arith;
  bounded = ground arith;
  interval = ground arith;
  recorded = λ e. cc;
  versioned = refl;
}

abbrev executing_step : StreamStep (pos 1100) 13 stream 1000 settled_stream
executing_step = execute settles

StreamStep-IsValid_example : IsValid settled_stream
StreamStep-IsValid_example = StreamStep-IsValid executing_step stream-IsValid

StreamStep-authorized_example :
    SameTerms stream settled_stream
    × ((settled_stream.authorized_max_rate ≡ stream.authorized_max_rate) ⊎ (13 ≡ stream.subscriber))
StreamStep-authorized_example = StreamStep-authorized executing_step

-- A stream that the subscriber cancelled is executed once more.
abbrev cancelled_stream : StreamMandate
cancelled_stream = record settled_stream { status = StreamStatus.cancelled }

cancelled_settles : settle_accrued_in_place cancelled_stream (pos 9000) ≡ ok (cancelled_stream, 0)
unfolding settle_accrued_in_place
cancelled_settles = refl

abbrev cancelled_step : StreamStep (pos 9000) 12 cancelled_stream 0 cancelled_stream
cancelled_step = execute cancelled_settles

-- The merchant pauses the stream, and the subscriber resumes it after 3900 seconds.
pauses : settle_before_pause stream (pos 1100) ≡ ok (settled_stream, 1000)
unfolding settle_before_pause settle_accrued_in_place settle_accrued remaining_cap ◌-ℤ◌
pauses = refl

parties : (is_party 12 stream ≡ true) × (is_party 11 paused_stream ≡ true)
unfolding is_party
parties = (refl, refl)

abbrev resumed_stream : StreamMandate
resumed_stream = record paused_stream {
  last_settled_ts = pos 5000;
  paused_at = none;
  status = StreamStatus.active;
}

abbrev pausing_step : StreamStep (pos 1100) 12 stream 1000 paused_stream
pausing_step = pause settled_stream parties.0 refl pauses refl

abbrev resuming_step : StreamStep (pos 5000) 11 paused_stream 0 resumed_stream
resuming_step = resume (pos 1100) parties.1 refl refl (ground arith) refl refl

abbrev pause_and_resume : Run 10 stream 1000 100 resumed_stream
pause_and_resume =
    more 1000 100 0 11 (pos 5000) paused_stream resumed_stream 3900
      (more 0 0 1000 12 (pos 1100) stream paused_stream 100 done (ground arith) pausing_step
        hundred_later.0)
      (ground arith) resuming_step hundred_later.1

Run-bounded_example :
    IsValid resumed_stream × (resumed_stream.total_streamed ≡ 500 + 1000) × (1000 ≤ 10 * 100)
Run-bounded_example = Run-bounded pause_and_resume stream-IsValid

-- The creation of the stream.
abbrev merchant_state : MerchantState
merchant_state = record {
  merchant = 12;
  plan_count = 0;
  bump = 255;
  credential_mint = 0;
  mandate_counter = 0;
  stream_mandate_counter = 0;
  version = 1;
}

abbrev empty_account : AccountInfo
empty_account = record {
  key = stream_address;
  owner = 103;
  lamports = 0;
  contents = AccountData.empty;
}

abbrev creating : CreateStreamMandate
creating = record {
  subscriber = 11;
  merchant_state = record {
    key = address (Seed.literal "merchant" ∷ Seed.pubkey 12 ∷ []);
    state = merchant_state;
  };
  mandate = empty_account;
  mint = 14;
  token_config = record {
    key = address (Seed.literal "token_config" ∷ Seed.pubkey 14 ∷ []);
    state = token_config;
  };
  payer = 11;
  system_program = 103;
}

abbrev terms : CreateArgs
terms = record {
  rate_per_second = 10;
  authorized_max_rate = 20;
  max_streamed = some 100_000;
  min_settle_interval = 60;
}

abbrev created : StreamOutcome × MerchantState
created =
    from_ok (executed, merchant_state) (create_stream_mandate runtime creating terms (pos 1000))

create_stream_mandate_runs : create_stream_mandate runtime creating terms (pos 1000) ≡ ok created
unfolding create_stream_mandate check_create_accounts check_stream_terms
    validate_merchant_state_address write_stream_mandate
create_stream_mandate_runs = refl

create_stream_mandate-IsValid_example :
    (m : StreamMandate) × (created.0.mandate
      ≡ write_stream_mandate (record empty_account { owner = program_id }) m)
    × IsValid m
    × IsAccruing m
    × (m.total_streamed ≡ 0)
    × (m.last_settled_ts ≡ pos 1000)
create_stream_mandate-IsValid_example =
    create_stream_mandate-IsValid runtime creating terms (pos 1000) create_stream_mandate_runs

half_a_minute : pos 1030 ≡ stream.last_settled_ts +ℤ pos 30
unfolding ◌+ℤ◌
half_a_minute = refl

subscriber_is_party : is_party 11 stream ≡ true
unfolding is_party
subscriber_is_party = refl

opens_stream :
    open_stream runtime (controlling 11 stream)
    ≡ ok (LoadedProtocolConfig.current protocol_config, stream)
unfolding load_protocol_config validate_protocol_config_address decode_protocol_config config_paused
    config_hook_program_id config_wrapping_vault load_stream_mandate decode_stream_mandate
    validate_stream_mandate_address validate_stream_transfer_accounts check_stream_accounts
    open_stream check_control_accounts
opens_stream = refl

a_while_later : pos 2000 ≡ pos 1030 +ℤ pos 970
unfolding ◌+ℤ◌
a_while_later = refl

merchant_is_party : is_party 12 stream ≡ true
unfolding is_party
merchant_is_party = refl

-- The subscriber pauses after half a minute, the merchant resumes later.
pause_resume-forfeits_example :
    Forfeited runtime (controlling 11 stream) 12 stream (pos 1030) (pos 2000)
pause_resume-forfeits_example =
    pause_resume-forfeits runtime (controlling 11 stream)
      (LoadedProtocolConfig.current protocol_config) stream 12 (pos 1030) (pos 2000) 30 970
      opens_stream (refl, refl) subscriber_is_party merchant_is_party half_a_minute (ground arith)
      (ground arith) a_while_later (ground arith)
