-- ===== src/Agent/Spending.antt =====
-- How much an agent spends over any run of steps.
use vela_protocol.Base.{ℕ, ◌+◌, ◌*◌, ◌≤◌, inl, inr, ◌≡◌, ◌⊎◌, refl, arith}
use vela_protocol.Base.Int.{ℤ, pos, ◌≤ℤ◌, ◌<ℤ◌, ◌+ℤ◌, +ℤ_parts}
use vela_protocol.State.{AgentMandate}
use vela_protocol.Agent.Charge.{DayCharged}
use vela_protocol.Agent.Adjusting.{WithinLimits}
use vela_protocol.Agent.Cases.{AgentStep-cases, Pulled-DayCharged, WindowsReset-keeps}
use vela_protocol.Agent.Invariant.{AgentStep-WithinLimits}
use vela_protocol.Agent.Step.{AgentStep}

-- A run of steps by any signers at any times, which paid `paid`.
pub data AgentRun (m : AgentMandate) : ℕ → AgentMandate → Type 0 where
  done : AgentRun m 0 m
  more :
      (paid q signer : ℕ) (now : ℤ) (t u : AgentMandate)
      → AgentRun m paid t
      → AgentStep now signer t q u
      → AgentRun m (paid + q) u

-- The lifetime counter counts every payment.
AgentStep-total :
    {now : ℤ} {signer : ℕ} {m : AgentMandate} {paid : ℕ} {m' : AgentMandate}
    → AgentStep now signer m paid m'
    → m'.total_spent ≡ m.total_spent + paid
AgentStep-total {now} {signer} {m} {paid} {m'} step = elim (AgentStep-cases step) [
  | inl (s, active, p) ↦
      ground (arith, p.charge.recorded, WindowsReset-keeps m p.index now p.fresh p.windows)
  | inr k ↦ ground (arith, k.total_spent, k.nothing)
]

-- Over any run of steps a mandate within its limits stays so, its counter grows by what was paid,
-- and all payments are within the lifetime cap it ends with.
pub AgentRun-lifetime :
    {m : AgentMandate} {paid : ℕ} {m' : AgentMandate}
    → AgentRun m paid m'
    → WithinLimits m
    → WithinLimits m'
      × (m'.total_spent ≡ m.total_spent + paid)
      × (m.total_spent + paid ≤ m'.lifetime_cap)
AgentRun-lifetime done v = (v, ground arith, ground (arith, v.total))
AgentRun-lifetime {m} (more paid q signer now t u before step) v =
    let ih = AgentRun-lifetime before v in
    let w = AgentStep-WithinLimits step ih.0 in
    (w, ground (arith, AgentStep-total step), ground (arith, AgentStep-total step, w.total))

-- A run of steps at times from `start` on, before a day has passed, in which the daily limit stayed
-- within `limit`.
pub data DayRun (limit : ℕ) (start : ℤ) (m : AgentMandate) : ℕ → AgentMandate → Type 0 where
  begin : m.daily_limit ≤ limit → DayRun limit start m 0 m
  next :
      (paid q signer : ℕ) (now : ℤ) (t u : AgentMandate)
      → DayRun limit start m paid t
      → start ≤ℤ now
      → now <ℤ start +ℤ pos 86400
      → AgentStep now signer t q u
      → u.daily_limit ≤ limit
      → DayRun limit start m (paid + q) u

AgentStep-DayCharged :
    {now : ℤ} {signer : ℕ} {m : AgentMandate} {paid : ℕ} {m' : AgentMandate}
    → AgentStep now signer m paid m'
    → DayCharged now m paid m'
AgentStep-DayCharged {now} {signer} {m} {paid} {m'} step = elim (AgentStep-cases step) [
  | inl (s, active, p) ↦ Pulled-DayCharged m paid now m' p
  | inr k ↦ inr (k.daily_last_reset, ground (arith, k.daily_spent, k.nothing))
]

-- The daily counter of a run of less than a day: its first window still goes on, or a second one
-- began, which cannot end.
DayCounter : ℕ → ℤ → AgentMandate → ℕ → AgentMandate → Type 0
DayCounter limit start m paid t =
    ((t.daily_last_reset ≡ m.daily_last_reset) × (t.daily_spent ≡ m.daily_spent + paid))
    ⊎ ((start ≤ℤ t.daily_last_reset) × (paid ≤ limit + t.daily_spent))

DayCounter-step :
    (limit : ℕ) (start now : ℤ) (m t u : AgentMandate) (paid q : ℕ)
    → DayCounter limit start m paid t
    → t.daily_spent ≤ limit
    → start ≤ℤ now
    → now <ℤ start +ℤ pos 86400
    → DayCharged now t q u
    → DayCounter limit start m (paid + q) u
unfolding DayCounter
DayCounter-step limit start now m t u paid q before within from until charge = elim before [
  | inl (last, spent) ↦ elim charge [
    | inl (over, anew, fresh) ↦ inr (ground arith, ground arith)
    | inr (same, grown) ↦ inl (ground arith, ground arith)
  ]
  | inr (late, spent) ↦ elim charge [
    | inl (over, anew, fresh) ↦
        absurd (ground (arith, +ℤ_parts t.daily_last_reset (pos 86400), +ℤ_parts start (pos 86400)))
    | inr (same, grown) ↦ inr (ground arith, ground arith)
  ]
]

DayRun-DayCounter :
    {limit : ℕ} {start : ℤ} {m : AgentMandate} {paid : ℕ} {m' : AgentMandate}
    → DayRun limit start m paid m'
    → WithinLimits m
    → WithinLimits m' × (m'.daily_limit ≤ limit) × DayCounter limit start m paid m'
unfolding DayCounter
DayRun-DayCounter (begin b) v = (v, b, inl (refl, ground arith))
DayRun-DayCounter {limit} {start} {m} (next paid q signer now t u before from until step b) v =
    let ih = DayRun-DayCounter before v in
    let within : t.daily_spent ≤ limit = ground (arith, ih.0.daily, ih.1) in
    (
      AgentStep-WithinLimits step ih.0,
      b,
      DayCounter-step limit start now m t u paid q ih.2 within from until
          (AgentStep-DayCharged step),
    )

-- Over any run of steps within less than a day, a mandate within its limits pays at most twice the
-- greatest daily limit.
pub DayRun-bounded :
    {limit : ℕ} {start : ℤ} {m : AgentMandate} {paid : ℕ} {m' : AgentMandate}
    → DayRun limit start m paid m'
    → WithinLimits m
    → paid ≤ 2 * limit
unfolding DayCounter
DayRun-bounded {limit} run v =
    let r = DayRun-DayCounter run v in
    elim r.2 [
      | inl first ↦ ground (arith, r.0.daily, r.1)
      | inr second ↦ ground (arith, r.0.daily, r.1)
    ]
