-- ===== src/Stream/Accrual.antt =====
-- How much a stream pays over its life: the payments of any run of steps, against the time for which
-- the stream was active.
use vela_protocol.Base.{
  ℕ, ◌+◌, ◌*◌, ◌≤◌, inl, inr, true, false, ◌≡◌, arith, Option-cases, Bool, if◌then◌else◌,
}
use vela_protocol.Base.Int.{ℤ, pos, pos_part, ◌≤ℤ◌, ◌+ℤ◌, ◌-ℤ◌, +ℤ_parts, int_laws, add-sub_nonneg}
use vela_protocol.Errors.{ok}
use vela_protocol.State.{StreamMandate, is_active}
use vela_protocol.Stream.Account.{settle_accrued_in_place}
use vela_protocol.Stream.Settle.{due, settle_accrued_in_place-Settled}
use vela_protocol.Stream.Invariant.{
  IsValid, settle_before_pause-cases, settle_before_cancel-cases, StreamStep-IsValid,
}
use vela_protocol.Stream.Step.{StreamStep, execute, pause, resume, cancel, change_rate}

-- `elapsed` seconds lie between the settlements that `m` and `m'` record, and `paid` is within the rate
-- of `m` for them if `m` is active, and nothing if not.
pub record Accrues (m : StreamMandate) (paid : ℕ) (m' : StreamMandate) : Type 0 where
  pub elapsed : ℕ
  pub clock : m'.last_settled_ts ≡ m.last_settled_ts +ℤ pos elapsed
  pub within : paid ≤ (if is_active m.status then elapsed * m.rate_per_second else 0)
  pub total : m'.total_streamed ≡ m.total_streamed + paid

due-le : (m : StreamMandate) (elapsed : ℕ) → due m elapsed ≤ elapsed * m.rate_per_second
due-le m elapsed = elim (Option-cases m.max_streamed) [
  | inl free ↦ ground arith
  | inr (c, e) ↦ ground arith
]

add_zero : (z : ℤ) → z ≡ z +ℤ pos 0
add_zero z = omega int_laws

settle-Accrues :
    (m : StreamMandate) (now : ℤ) (m' : StreamMandate) (a : ℕ)
    → settle_accrued_in_place m now ≡ ok (m', a)
    → Accrues m a m'
settle-Accrues m now m' a h = elim (settle_accrued_in_place-Settled m now h) [
  | inl (off, same, nothing) ↦ record {
    elapsed = 0;
    clock = ground (arith, add_zero m.last_settled_ts);
    within = ground arith;
    total = ground arith;
  }
  | inr (on, s) ↦ record {
    elapsed = s.elapsed;
    clock = ground arith;
    within = ground (arith, due-le m s.elapsed);
    total = ground arith;
  }
]

-- No settlement: no time is recorded and nothing is paid.
idle-Accrues :
    (m m' : StreamMandate) (paid : ℕ)
    → m'.last_settled_ts ≡ m.last_settled_ts
    → m'.total_streamed ≡ m.total_streamed
    → paid ≡ 0
    → Accrues m paid m'
idle-Accrues m m' paid same total nothing = record {
  elapsed = 0;
  clock = ground (arith, add_zero m.last_settled_ts);
  within = ground arith;
  total = ground arith;
}

-- The rest of a step after its settlement changes neither the time nor the total.
after-Accrues :
    (m s m' : StreamMandate) (paid : ℕ)
    → Accrues m paid s
    → m'.last_settled_ts ≡ s.last_settled_ts
    → m'.total_streamed ≡ s.total_streamed
    → Accrues m paid m'
after-Accrues m s m' paid a same total = record {
  elapsed = a.elapsed;
  clock = ground arith;
  within = ground arith;
  total = ground arith;
}

sub_nonneg : (a b : ℤ) → b ≤ℤ a → pos 0 ≤ℤ a -ℤ b
sub_nonneg a b h = omega int_laws

-- Every step pays at most the rate for the active time that it records. In particular a resumption
-- records the time of the pause and pays nothing for it.
pub StreamStep-Accrues :
    {now : ℤ} {signer : ℕ} {m : StreamMandate} {paid : ℕ} {m' : StreamMandate}
    → StreamStep now signer m paid m'
    → IsValid m
    → Accrues m paid m'
StreamStep-Accrues {now} {signer} {m} {paid} {m'} (execute h) v = settle-Accrues m now m' paid h
StreamStep-Accrues {now} {signer} {m} {paid} {m'} (pause s p a h e) v =
    elim (settle_before_pause-cases m now s paid h).1 [
      | inl (same, nothing) ↦ idle-Accrues m m' paid (ground arith) (ground arith) nothing
      | inr settles ↦
          after-Accrues m s m' paid (settle-Accrues m now s paid settles) (ground arith)
            (ground arith)
    ]
StreamStep-Accrues {now} {signer} {m} {paid} {m'} (resume t p b since later nothing e) v = record {
  elapsed = pos_part (now -ℤ m.last_settled_ts);
  clock = ground (
    arith,
    add-sub_nonneg now m.last_settled_ts (sub_nonneg now m.last_settled_ts (ground arith)),
  );
  within = ground arith;
  total = ground arith;
}
StreamStep-Accrues {now} {signer} {m} {paid} {m'} (cancel s p a h e) v =
    elim (settle_before_cancel-cases m now s paid h).1 [
      | inl (same, nothing) ↦ idle-Accrues m m' paid (ground arith) (ground arith) nothing
      | inr settles ↦
          after-Accrues m s m' paid (settle-Accrues m now s paid settles) (ground arith)
            (ground arith)
    ]
StreamStep-Accrues {now} {signer} {m} {paid} {m'} (change_rate s r x c h e le) v =
    after-Accrues m s m' paid (settle-Accrues m now s paid h) (ground arith) (ground arith)

-- A run of steps by any signers at any times, which paid `paid` and for `active` seconds of which the
-- stream was active, where the rate stayed within `limit`.
pub data Run (limit : ℕ) (m : StreamMandate) : ℕ → ℕ → StreamMandate → Type 0 where
  done : Run limit m 0 0 m
  more :
      (paid active q signer : ℕ) (clock : ℤ) (t u : StreamMandate) (elapsed : ℕ)
      → Run limit m paid active t
      → t.rate_per_second ≤ limit
      → StreamStep clock signer t q u
      → u.last_settled_ts ≡ t.last_settled_ts +ℤ pos elapsed
      → Run limit m (paid + q) (active + (if is_active t.status then elapsed else 0)) u

add_pos_inj : (z : ℤ) (a b : ℕ) → z +ℤ pos a ≡ z +ℤ pos b → a ≡ b
add_pos_inj z a b h = ground (arith, +ℤ_parts z (pos a), +ℤ_parts z (pos b))

nat_dist : (a b c : ℕ) → a * (b + c) ≡ a * b + a * c
nat_dist a b c = grind arith

scale_le : (a b c d : ℕ) → a ≤ b * c → c ≤ d → a ≤ d * b
scale_le a b c d h k = grind arith

active_bound :
    (active : Bool) (elapsed rate limit paid : ℕ)
    → rate ≤ limit
    → paid ≤ (if active then elapsed * rate else 0)
    → paid ≤ limit * (if active then elapsed else 0)
active_bound true elapsed rate limit paid h k = scale_le paid elapsed rate limit k h
active_bound false elapsed rate limit paid h k = ground arith

-- Over any run of execute, pause, resume, cancel and rate-change steps, by anyone at any times, a
-- valid stream stays valid, its total grows by exactly what was paid, and no more is paid than the
-- greatest rate times the seconds for which it was active.
pub Run-bounded :
    {limit : ℕ} {m : StreamMandate} {paid active : ℕ} {m' : StreamMandate}
    → Run limit m paid active m'
    → IsValid m
    → IsValid m' × (m'.total_streamed ≡ m.total_streamed + paid) × (paid ≤ limit * active)
Run-bounded done v = (v, ground arith, ground arith)
Run-bounded {limit} {m} {m' = m'}
      (more paid active q signer clock t u elapsed before within step same) v =
    let ih = Run-bounded before v in
    let a = StreamStep-Accrues step ih.0 in
    (
      StreamStep-IsValid step ih.0,
      ground arith,
      ground (
        arith,
        add_pos_inj t.last_settled_ts a.elapsed elapsed (cc),
        active_bound (is_active t.status) a.elapsed t.rate_per_second limit q within a.within,
        nat_dist limit active (if is_active t.status then elapsed else 0),
      ),
    )
