-- ===== src/Stream/Invariant.antt =====
-- The well-formedness of a stream: `create_stream_mandate` establishes it, every step keeps it.
use vela_protocol.Base.{
  ℕ, ◌≤◌, ◌<◌, none, some, inl, inr, true, ◌≡◌, ◌≢◌, refl, arith, Option-cases, Option, ◌⊎◌,
}
use vela_protocol.Base.Int.{ℤ, ◌≤ℤ◌, -ℤ_parts}
use vela_protocol.Base.Machine.{u64_mod}
use vela_protocol.Errors.{ok, Result-cases}
use vela_protocol.State.{StreamMandate, StreamStatus, MerchantState, is_active}
use vela_protocol.Runtime.{Runtime, current_account_version, program_id}
use vela_protocol.Stream.Account.{stream_seeds, settle_accrued_in_place, write_stream_mandate}
use vela_protocol.Stream.Settle.{WithinCap, IsAccruing, Settled, settle_accrued_in_place-Settled}
use vela_protocol.Stream.Handlers.{
  StreamOutcome, CreateStreamMandate, CreateArgs, new_stream, create_stream_mandate,
  check_stream_terms, settle_before_pause, settle_before_cancel, check_rate_change,
}
use vela_protocol.Stream.Step.{StreamStep, execute, pause, resume, cancel, change_rate}

-- A pause is recorded exactly while the stream is paused, and began after the last settlement.
abbrev pub PauseRecorded : StreamMandate → Type 0
PauseRecorded m = elim m.paused_at [
  | none ↦ m.status ≢ StreamStatus.paused
  | some t ↦ (m.status ≡ StreamStatus.paused) × (m.last_settled_ts ≤ℤ t)
]

pub record IsValid (m : StreamMandate) : Type 0 where
  pub positive : 0 < m.rate_per_second
  pub authorized : m.rate_per_second ≤ m.authorized_max_rate
  pub capped : WithinCap m
  pub bounded : m.total_streamed < u64_mod
  pub interval : 60 ≤ m.min_settle_interval
  pub recorded : PauseRecorded m
  pub versioned : m.version ≡ current_account_version

Settled-capped :
    (m : StreamMandate) (now : ℤ) (m' : StreamMandate) (a : ℕ) → Settled m now m' a → WithinCap m'
Settled-capped m now m' a s = elim (Option-cases m.max_streamed) [
  | inl free ↦ ground arith
  | inr (c, e) ↦ ground arith
]

-- A settlement keeps the invariant.
settle-IsValid :
    (m : StreamMandate) (now : ℤ) (m' : StreamMandate) (a : ℕ)
    → settle_accrued_in_place m now ≡ ok (m', a)
    → IsValid m
    → IsValid m'
settle-IsValid m now m' a h v = elim (settle_accrued_in_place-Settled m now h) [
  | inl (off, same, nothing) ↦ rw same v
  | inr (on, s) ↦ ground (arith, Settled-capped m now m' a s)
]

-- The settlement before a pause or a cancellation is none, or the usual one.
pub settle_before_pause-cases :
    (m : StreamMandate) (now : ℤ) (s : StreamMandate) (a : ℕ)
    → settle_before_pause m now ≡ ok (s, a)
    → (m.last_settled_ts ≤ℤ now)
      × (((s ≡ m) × (a ≡ 0)) ⊎ (settle_accrued_in_place m now ≡ ok (s, a)))
unfolding settle_before_pause
settle_before_pause-cases m now s a h = ground (arith, -ℤ_parts now m.last_settled_ts)

pub settle_before_cancel-cases :
    (m : StreamMandate) (now : ℤ) (s : StreamMandate) (a : ℕ)
    → settle_before_cancel m now ≡ ok (s, a)
    → (m.last_settled_ts ≤ℤ now)
      × (((s ≡ m) × (a ≡ 0)) ⊎ (settle_accrued_in_place m now ≡ ok (s, a)))
unfolding settle_before_cancel
settle_before_cancel-cases m now s a h = ground (arith, -ℤ_parts now m.last_settled_ts)

-- What a settlement leaves alone, and the time that it records.
pub settle-keeps :
    (m : StreamMandate) (now : ℤ) (s : StreamMandate) (a : ℕ)
    → settle_accrued_in_place m now ≡ ok (s, a)
    → (s.status ≡ m.status)
      × (s.paused_at ≡ m.paused_at)
      × (s.authorized_max_rate ≡ m.authorized_max_rate)
      × (s.rate_per_second ≡ m.rate_per_second)
      × ((s.last_settled_ts ≡ now) ⊎ (s.last_settled_ts ≡ m.last_settled_ts))
settle-keeps m now s a h = elim (settle_accrued_in_place-Settled m now h) [
  | inl (off, same, nothing) ↦ ground arith
  | inr (on, done) ↦ ground arith
]

-- A change of the rate is made on an active stream, to a rate that is not zero.
check_rate_change-allows :
    (signer : ℕ) (m : StreamMandate) (new_rate new_max : Option ℕ)
    → check_rate_change signer m new_rate new_max ≡ ok tt
    → (is_active m.status ≡ true) × ((r : ℕ) → new_rate ≡ some r → 0 < r)
unfolding check_rate_change
check_rate_change-allows signer m new_rate new_max h = (ground arith, λ r e. ground arith)

check_stream_terms-allows :
    (c : CreateStreamMandate) (a : CreateArgs)
    → check_stream_terms c a ≡ ok tt
    → (60 ≤ a.min_settle_interval)
      × (0 < a.rate_per_second)
      × (a.rate_per_second ≤ a.authorized_max_rate)
unfolding check_stream_terms
check_stream_terms-allows c a h = ground arith

new_stream-IsValid :
    (c : CreateStreamMandate) (a : CreateArgs) (bump : ℕ) (now : ℤ)
    → check_stream_terms c a ≡ ok tt
    → IsValid (new_stream c a bump now)
new_stream-IsValid c a bump now h = elim (Option-cases a.max_streamed) [
  | inl free ↦ ground (arith, check_stream_terms-allows c a h)
  | inr (cap, e) ↦ ground (arith, check_stream_terms-allows c a h)
]

-- Every step that a stream handler makes keeps the well-formedness of the stream.
pub StreamStep-IsValid :
    {now : ℤ} {signer : ℕ} {m : StreamMandate} {paid : ℕ} {m' : StreamMandate}
    → StreamStep now signer m paid m'
    → IsValid m
    → IsValid m'
StreamStep-IsValid {now} {signer} {m} {paid} {m'} (execute h) v = settle-IsValid m now m' paid h v
StreamStep-IsValid {now} {signer} {m} {paid} (pause s p a h e) v =
    elim (settle_before_pause-cases m now s paid h).1 [
      | inl (same, nothing) ↦ ground (arith, settle_before_pause-cases m now s paid h)
      | inr settles ↦ ground (
        arith,
        settle-IsValid m now s paid settles v,
        settle-keeps m now s paid settles,
        settle_before_pause-cases m now s paid h,
      )
    ]
StreamStep-IsValid (resume t p b since later nothing e) v = ground arith
StreamStep-IsValid {now} {signer} {m} {paid} (cancel s p a h e) v =
    elim (settle_before_cancel-cases m now s paid h).1 [
      | inl (same, nothing) ↦ ground arith
      | inr settles ↦ ground (arith, settle-IsValid m now s paid settles v)
    ]
StreamStep-IsValid {now} {signer} {m} {paid} (change_rate s r x c h e le) v =
    let allowed = check_rate_change-allows signer m r x c in
    elim (Option-cases r) [
      | inl same ↦ ground (arith, settle-IsValid m now s paid h v, settle-keeps m now s paid h)
      | inr (rate, new) ↦
          ground (
            arith,
            settle-IsValid m now s paid h v,
            settle-keeps m now s paid h,
            allowed.1 rate new,
          )
    ]

-- A creation that succeeds writes a well-formed, accruing stream that has paid nothing.
pub create_stream_mandate-IsValid :
    (rt : Runtime) (c : CreateStreamMandate) (a : CreateArgs) (now : ℤ) {o : StreamOutcome}
    {merchant_state : MerchantState}
    → create_stream_mandate rt c a now ≡ ok (o, merchant_state)
    → (m : StreamMandate) × (o.mandate
        ≡ write_stream_mandate (record c.mandate { owner = program_id }) m)
      × IsValid m
      × IsAccruing m
      × (m.total_streamed ≡ 0)
      × (m.last_settled_ts ≡ now)
unfolding create_stream_mandate
create_stream_mandate-IsValid rt c a now h =
    let merchant = c.merchant_state.state in
    let seeds = stream_seeds c.subscriber merchant.merchant merchant.stream_mandate_counter in
    let bump = (rt.find_program_address seeds program_id).1 in
    elim (Result-cases (check_stream_terms c a)) [
      | inr bad ↦ absurd (ground arith)
      | inl (u, allowed) ↦ (
        new_stream c a bump now,
        ground arith,
        new_stream-IsValid c a bump now allowed,
        (refl, refl),
        refl,
        refl,
      )
    ]
