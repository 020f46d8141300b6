-- ===== src/Stream/Settle.antt =====
-- What a settlement is: `settle_accrued_in_place` of accounts/stream_account.rs against the amount that
-- is due.
use vela_protocol.Base.{
  ℕ, ◌+◌, ◌*◌, ◌-◌, ◌^◌, ◌≤◌, ◌<◌, min, none, some, true, ◌≡◌, ◌⊎◌, inl, inr, arith, Bool-cases,
  Option-cases,
}
use vela_protocol.Base.Int.{ℤ, pos, pos_part, ◌+ℤ◌, ◌-ℤ◌, ◌≤ℤ◌, add-sub_nonneg, sub-add_pos}
use vela_protocol.Base.Machine.{u64_mod, u128_mod}
use vela_protocol.Errors.{ok}
use vela_protocol.State.{StreamMandate, is_active}
use vela_protocol.Stream.Account.{settle_accrued, settle_accrued_in_place}

-- The amount due for `elapsed` seconds: the rate times the time, up to what the cap leaves.
abbrev pub due : StreamMandate → ℕ → ℕ
due m elapsed = elim m.max_streamed [
  | none ↦ elapsed * m.rate_per_second
  | some cap ↦ min (elapsed * m.rate_per_second) (cap - m.total_streamed)
]

-- The total does not pass the cap.
abbrev pub WithinCap : StreamMandate → Type 0
WithinCap m = elim m.max_streamed [ none ↦ Unit | some cap ↦ m.total_streamed ≤ cap ]

-- The stream accrues: it is active, and no pause is recorded.
abbrev pub IsAccruing : StreamMandate → Type 0
IsAccruing m = (is_active m.status ≡ true) × (m.paused_at ≡ none)

-- `elapsed` seconds have been settled at `now`.
pub record Settled (m : StreamMandate) (now : ℤ) (m' : StreamMandate) (amount : ℕ) : Type 0 where
  pub elapsed : ℕ
  pub clock : now ≡ m.last_settled_ts +ℤ pos elapsed
  pub interval : m.min_settle_interval ≤ elapsed
  pub exact : amount ≡ due m elapsed
  pub bounded : m.total_streamed + amount < u64_mod
  pub capped : WithinCap m
  pub written : m' ≡ record m { total_streamed = m.total_streamed + amount; last_settled_ts = now }

-- A settlement does not run backwards in time.
settle_accrued-nonneg :
    (m : StreamMandate) (now : ℤ) {m' : StreamMandate} {a : ℕ}
    → settle_accrued m now ≡ ok (m', a)
    → pos 0 ≤ℤ now -ℤ m.last_settled_ts
unfolding settle_accrued
settle_accrued-nonneg m now h = ground arith

settle_accrued-Settled :
    (m : StreamMandate) (now : ℤ) {m' : StreamMandate} {a : ℕ}
    → settle_accrued m now ≡ ok (m', a)
    → Settled m now m' a
unfolding settle_accrued
settle_accrued-Settled m now h = record {
  elapsed = pos_part (now -ℤ m.last_settled_ts);
  clock = add-sub_nonneg now m.last_settled_ts (settle_accrued-nonneg m now h);
  interval = ground arith;
  exact = ground arith;
  bounded = ground arith;
  capped = ground arith;
  written = ground arith;
}

-- A settlement that succeeds leaves a stream that does not accrue alone and pays nothing, or pays
-- exactly rate times time up to the cap, and records it.
pub settle_accrued_in_place-Settled :
    (m : StreamMandate) (now : ℤ) {m' : StreamMandate} {a : ℕ}
    → settle_accrued_in_place m now ≡ ok (m', a)
    → ((¬ IsAccruing m) × (m' ≡ m) × (a ≡ 0)) ⊎ (IsAccruing m × Settled m now m' a)
unfolding settle_accrued_in_place
settle_accrued_in_place-Settled m now h = elim (Bool-cases (is_active m.status)) [
  | inl on ↦ elim (Option-cases m.paused_at) [
    | inl running ↦ inr ((on, running), settle_accrued-Settled m now (ground arith))
    | inr (t, e) ↦ inl ((λ k. cc), ground arith, ground arith)
  ]
  | inr off ↦ inl ((λ k. cc), ground arith, ground arith)
]

-- Where the clock is in range and no machine bound is passed, the settlement of an accruing stream
-- succeeds and pays what is due.
pub settle_accrued_in_place-pays :
    (m : StreamMandate) (now : ℤ) (elapsed : ℕ)
    → IsAccruing m
    → now ≡ m.last_settled_ts +ℤ pos elapsed
    → elapsed < 2 ^ 63
    → m.min_settle_interval ≤ elapsed
    → elapsed * m.rate_per_second < u128_mod
    → WithinCap m
    → m.total_streamed + due m elapsed < u64_mod
    → settle_accrued_in_place m now
      ≡ ok (
        record m { total_streamed = m.total_streamed + due m elapsed; last_settled_ts = now },
        due m elapsed,
      )
unfolding settle_accrued_in_place
settle_accrued_in_place-pays m now elapsed on clock small interval gross cap total =
    let sub : now -ℤ m.last_settled_ts ≡ pos elapsed =
      sub-add_pos now m.last_settled_ts elapsed clock in
    elim (Option-cases m.max_streamed) [ inl free ↦ ground arith | inr (c, e) ↦ ground arith ]
