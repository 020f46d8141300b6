-- ===== src/Stream/Effects.antt =====
-- Every handler of instructions/streaming/ that succeeds makes a step of Stream/Step.antt, and its
-- invocations move exactly what the step pays.
use vela_protocol.Base.{
  ℕ, Option, none, some, inl, inr, ◌≡◌, refl, arith, Bool-cases, Option-cases, ltb, List, [], ◌∷◌,
}
use vela_protocol.Base.Int.{ℤ, -ℤ_parts}
use vela_protocol.Errors.{ok, Result-cases}
use vela_protocol.State.{StreamMandate, StreamStatus}
use vela_protocol.Runtime.{Runtime, Invocation, Seed, moved}
use vela_protocol.Accounts.{LoadedProtocolConfig, invoke_transfer_checked_with_hook}
use vela_protocol.Stream.Account.{load_stream_mandate, settle_accrued_in_place}
use vela_protocol.Stream.Transfer.{StreamTransferAccounts, invoke_stream_transfer}
use vela_protocol.Stream.Handlers.{
  PauseStream, CancelStream, UpdateStreamRate, ResumeStream, StreamOutcome, open_stream,
  settlement_accounts, settlement_seeds, pay_settlement, settle_before_pause, settle_before_cancel,
  pause_stream, cancel_stream, update_stream_rate, resume_stream, apply_rate,
}
use vela_protocol.Stream.Step.{StreamStep, Steps}

open_stream-loads :
    (rt : Runtime) (c : PauseStream) {config : LoadedProtocolConfig} {m : StreamMandate}
    → open_stream rt c ≡ ok (config, m)
    → load_stream_mandate c.mandate ≡ ok m
unfolding open_stream
open_stream-loads rt c h = ground arith

invoke_stream_transfer-moved :
    (rt : Runtime) (a : StreamTransferAccounts) (amount : ℕ) (seeds : List Seed) {call : Invocation}
    → invoke_stream_transfer rt a amount seeds ≡ ok call
    → moved a.source.key a.destination.key a.authority (call ∷ []) ≡ some amount
unfolding invoke_stream_transfer invoke_transfer_checked_with_hook
invoke_stream_transfer-moved rt a amount seeds h = ground arith

pay_settlement-moved :
    (rt : Runtime) (c : PauseStream) (m : StreamMandate) (amount : ℕ) {calls : List Invocation}
    → pay_settlement rt c m amount ≡ ok calls
    → moved c.subscriber_wrapped_account.key c.merchant_wrapped_account.key c.mandate.key calls
      ≡ some amount
unfolding pay_settlement
pay_settlement-moved rt c m amount h = elim (Bool-cases (ltb 0 amount)) [
  | inr nothing ↦ ground arith
  | inl some_due ↦
      elim (Result-cases
        (invoke_stream_transfer rt (settlement_accounts c m) amount (settlement_seeds m))) [
          | inr bad ↦ absurd (ground arith)
          | inl (call, e) ↦ ground (
            arith,
            invoke_stream_transfer-moved rt (settlement_accounts c m) amount (settlement_seeds m) e,
          )
        ]
]

-- A pause that succeeds is a pause step, by a party, and moves exactly what was settled.
pub pause_stream-Steps :
    (rt : Runtime) (c : PauseStream) (now : ℤ) {o : StreamOutcome}
    → pause_stream rt c now ≡ ok o
    → Steps c.mandate c.subscriber_wrapped_account.key c.merchant_wrapped_account.key now
        c.authority o
unfolding pause_stream
pause_stream-Steps rt c now h = elim (Result-cases (open_stream rt c)) [
  | inr bad ↦ absurd (ground arith)
  | inl ((config, m), opens) ↦ elim (Result-cases (settle_before_pause m now)) [
    | inr bad ↦ absurd (ground arith)
    | inl ((s, a), settles) ↦ record {
      before = m;
      after = record s { paused_at = some now; status = StreamStatus.paused };
      paid = a;
      loaded = open_stream-loads rt c opens;
      step = StreamStep.pause s (ground arith) (ground arith) settles refl;
      writes = ground arith;
      moves = pay_settlement-moved rt c s a (ground arith);
    }
  ]
]

-- A cancellation that succeeds is a cancel step, by a party, and moves exactly what was settled.
pub cancel_stream-Steps :
    (rt : Runtime) (c : CancelStream) (now : ℤ) {o : StreamOutcome}
    → cancel_stream rt c now ≡ ok o
    → Steps c.mandate c.subscriber_wrapped_account.key c.merchant_wrapped_account.key now
        c.authority o
unfolding cancel_stream
cancel_stream-Steps rt c now h = elim (Result-cases (open_stream rt c)) [
  | inr bad ↦ absurd (ground arith)
  | inl ((config, m), opens) ↦ elim (Result-cases (settle_before_cancel m now)) [
    | inr bad ↦ absurd (ground arith)
    | inl ((s, a), settles) ↦ record {
      before = m;
      after = record s { status = StreamStatus.cancelled; paused_at = none };
      paid = a;
      loaded = open_stream-loads rt c opens;
      step = StreamStep.cancel s (ground arith) (ground arith) settles refl;
      writes = ground arith;
      moves = pay_settlement-moved rt c s a (ground arith);
    }
  ]
]

-- A rate change that succeeds is a rate-change step and moves exactly what was settled at the old
-- rate.
pub update_stream_rate-Steps :
    (rt : Runtime) (c : UpdateStreamRate) (new_rate new_max : Option ℕ) (now : ℤ)
    {o : StreamOutcome}
    → update_stream_rate rt c new_rate new_max now ≡ ok o
    → Steps c.mandate c.subscriber_wrapped_account.key c.merchant_wrapped_account.key now
        c.authority o
unfolding update_stream_rate
update_stream_rate-Steps rt c new_rate new_max now h = elim (Result-cases (open_stream rt c)) [
  | inr bad ↦ absurd (ground arith)
  | inl ((config, m), opens) ↦ elim (Result-cases (settle_accrued_in_place m now)) [
    | inr bad ↦ absurd (ground arith)
    | inl ((s, a), settles) ↦ record {
      before = m;
      after = apply_rate s new_rate new_max;
      paid = a;
      loaded = open_stream-loads rt c opens;
      step = StreamStep.change_rate s new_rate new_max (ground arith) settles refl (ground arith);
      writes = ground arith;
      moves = pay_settlement-moved rt c s a (ground arith);
    }
  ]
]

-- A resumption that succeeds is a resume step, by a party, and moves nothing.
pub resume_stream-Steps :
    (rt : Runtime) (c : ResumeStream) (source destination : ℕ) (now : ℤ) {o : StreamOutcome}
    → resume_stream rt c now ≡ ok o
    → Steps c.mandate source destination now c.authority o
unfolding resume_stream
resume_stream-Steps rt c source destination now h =
    elim (Result-cases (load_stream_mandate c.mandate)) [
      | inr bad ↦ absurd (ground arith)
      | inl (m, loads) ↦ elim (Option-cases m.paused_at) [
        | inl never ↦ absurd (ground arith)
        | inr (t, since) ↦ record {
          before = m;
          after = record m {
            last_settled_ts = now;
            paused_at = none;
            status = StreamStatus.active;
          };
          paid = 0;
          loaded = loads;
          step =
              StreamStep.resume t (ground arith) (ground arith) since
                (ground (arith, -ℤ_parts now t)) refl refl;
          writes = ground arith;
          moves = ground arith;
        }
      ]
    ]
