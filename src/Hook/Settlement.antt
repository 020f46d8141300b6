-- ===== src/Hook/Settlement.antt =====
-- The hook and the handlers of streams agree: the amount of a settlement is what the hook allows.
use vela_protocol.Base.{ℕ, ◌≤◌, ◌<◌, some, inl, inr, ◌≡◌, ◌↔◌, arith, Option-cases, Bool}
use vela_protocol.Base.Int.{ℤ}
use vela_protocol.Errors.{ok}
use vela_protocol.State.{StreamMandate, ProtocolConfig}
use vela_protocol.Runtime.{Runtime, AccountData}
use vela_protocol.Stream.Account.{remaining_cap, settle_accrued, settle_accrued_in_place}
use vela_protocol.Stream.Settle.{IsAccruing, settle_accrued_in_place-Settled}
use vela_protocol.Hook.Handler.{
  TransferHook, check_cap, check_stream, check_authority, check_transfer, touches_vault,
  transfer_hook,
}

check_stream-below :
    (m : StreamMandate) (now : ℤ) (m' : StreamMandate) (a amount : ℕ)
    → settle_accrued m now ≡ ok (m', a)
    → check_stream m amount now ≡ ok tt
    → amount ≤ a
unfolding settle_accrued remaining_cap check_stream check_cap
check_stream-below m now m' a amount h k = elim (Option-cases m.max_streamed) [
  | inl e ↦ ground arith
  | inr (cap, e) ↦ ground arith
]

check_stream-accepts :
    (m : StreamMandate) (now : ℤ) (m' : StreamMandate) (a amount : ℕ)
    → IsAccruing m
    → settle_accrued m now ≡ ok (m', a)
    → amount ≤ a
    → check_stream m amount now ≡ ok tt
unfolding settle_accrued remaining_cap check_stream check_cap
check_stream-accepts m now m' a amount on h k = elim (Option-cases m.max_streamed) [
  | inl e ↦ ground arith
  | inr (cap, e) ↦ ground arith
]

settle-accrues :
    (m : StreamMandate) (now : ℤ) (m' : StreamMandate) (a : ℕ)
    → settle_accrued_in_place m now ≡ ok (m', a)
    → 0 < a
    → IsAccruing m × (settle_accrued m now ≡ ok (m', a))
unfolding settle_accrued_in_place
settle-accrues m now m' a h some_due = elim (settle_accrued_in_place-Settled m now h) [
  | inl (off, same, nothing) ↦ absurd (ground arith)
  | inr (on, s) ↦ (on, ground arith)
]

-- At the time of a settlement that pays something, the hook accepts an amount for the stream
-- exactly if it is at most the settled amount.
pub check_stream_iff :
    (m : StreamMandate) (now : ℤ) (m' : StreamMandate) (a amount : ℕ)
    → settle_accrued_in_place m now ≡ ok (m', a)
    → 0 < a
    → (check_stream m amount now ≡ ok tt) ↔ (amount ≤ a)
check_stream_iff m now m' a amount h some_due =
    let s = settle-accrues m now m' a h some_due in
    (check_stream-below m now m' a amount s.1, check_stream-accepts m now m' a amount s.0 s.1)

-- The hook accepts the transfer of the settled amount by a stream authority whose account holds the
-- stream as it was before the settlement.
pub transfer_hook-settlement :
    (rt : Runtime) (c : TransferHook) (config : ProtocolConfig) (vault : Bool)
    (m m' : StreamMandate) (a : ℕ) (now : ℤ)
    → check_transfer rt c ≡ ok config
    → touches_vault rt c config ≡ ok vault
    → c.owner.contents ≡ AccountData.stream_mandate (some m)
    → settle_accrued_in_place m now ≡ ok (m', a)
    → 0 < a
    → transfer_hook rt c a now ≡ ok tt
unfolding transfer_hook check_authority
transfer_hook-settlement rt c config vault m m' a now checked touches holds settles some_due =
    let allowed = (check_stream_iff m now m' a a settles some_due).1 (ground arith) in
    ground (arith, allowed)
