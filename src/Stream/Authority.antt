-- ===== src/Stream/Authority.antt =====
-- What the parties of a stream may do, and what nobody may do.
use vela_protocol.Base.{ℕ, none, inl, inr, true, ◌≡◌, arith, Option-cases, Option, ◌⊎◌, ==_iff}
use vela_protocol.Base.Int.{ℤ}
use vela_protocol.Errors.{ok, Result-cases}
use vela_protocol.State.{StreamMandate, StreamStatus, is_active}
use vela_protocol.Runtime.{Runtime}
use vela_protocol.Accounts.{load_keeper_config, keeper_authority, LoadedKeeperConfig}
use vela_protocol.Stream.Account.{settle_accrued_in_place, load_stream_mandate}
use vela_protocol.Stream.Settle.{settle_accrued_in_place-Settled}
use vela_protocol.Stream.Handlers.{
  ExecuteStream, StreamOutcome, check_rate_change, execute_stream, check_execute,
}
use vela_protocol.Stream.Invariant.{settle_before_pause-cases, settle_before_cancel-cases}
use vela_protocol.Stream.Step.{StreamStep, execute, pause, resume, cancel, change_rate}

-- The terms to which the subscriber agreed at the creation.
abbrev pub SameTerms : StreamMandate → StreamMandate → Type 0
SameTerms m m' =
    (m'.subscriber ≡ m.subscriber)
    × (m'.merchant ≡ m.merchant)
    × (m'.mint ≡ m.mint)
    × (m'.max_streamed ≡ m.max_streamed)
    × (m'.min_settle_interval ≡ m.min_settle_interval)
    × (m'.mandate_index ≡ m.mandate_index)

settle-SameTerms :
    (m : StreamMandate) (now : ℤ) (s : StreamMandate) (a : ℕ)
    → settle_accrued_in_place m now ≡ ok (s, a)
    → SameTerms m s × (s.authorized_max_rate ≡ m.authorized_max_rate)
settle-SameTerms m now s a h = elim (settle_accrued_in_place-Settled m now h) [
  | inl (off, same, nothing) ↦ ground arith
  | inr (on, done) ↦ ground arith
]

-- A change of the highest rate is authorised by the subscriber.
check_rate_change-subscriber :
    (signer : ℕ) (m : StreamMandate) (new_rate new_max : Option ℕ)
    → check_rate_change signer m new_rate new_max ≡ ok tt
    → (new_max ≡ none) ⊎ (signer ≡ m.subscriber)
unfolding check_rate_change
check_rate_change-subscriber signer m new_rate new_max h = elim (Option-cases new_max) [
  | inl e ↦ inl e
  | inr (x, e) ↦ inr (ground (arith, ==_iff signer m.subscriber))
]

-- No step changes the parties, the mint, the cap, the interval or the index, and only the signature
-- of the subscriber changes the highest rate.
pub StreamStep-authorized :
    {now : ℤ} {signer : ℕ} {m : StreamMandate} {paid : ℕ} {m' : StreamMandate}
    → StreamStep now signer m paid m'
    → SameTerms m m' × ((m'.authorized_max_rate ≡ m.authorized_max_rate) ⊎ (signer ≡ m.subscriber))
StreamStep-authorized {now} {signer} {m} {paid} {m'} (execute h) =
    ground (arith, settle-SameTerms m now m' paid h)
StreamStep-authorized {now} {signer} {m} {paid} {m'} (pause s p a h e) =
    elim (settle_before_pause-cases m now s paid h).1 [
      | inl (same, nothing) ↦ ground arith
      | inr settles ↦ ground (arith, settle-SameTerms m now s paid settles)
    ]
StreamStep-authorized (resume t p b since later nothing e) = ground arith
StreamStep-authorized {now} {signer} {m} {paid} {m'} (cancel s p a h e) =
    elim (settle_before_cancel-cases m now s paid h).1 [
      | inl (same, nothing) ↦ ground arith
      | inr settles ↦ ground (arith, settle-SameTerms m now s paid settles)
    ]
StreamStep-authorized {now} {signer} {m} {paid} {m'} (change_rate s r x c h e le) =
    elim (check_rate_change-subscriber signer m r x c) [
      | inl kept ↦ ground (arith, settle-SameTerms m now s paid h)
      | inr owner ↦ ground (arith, settle-SameTerms m now s paid h)
    ]

check_rate_change-active :
    (signer : ℕ) (m : StreamMandate) (new_rate new_max : Option ℕ)
    → check_rate_change signer m new_rate new_max ≡ ok tt
    → is_active m.status ≡ true
unfolding check_rate_change
check_rate_change-active signer m new_rate new_max h = ground arith

-- A step on a cancelled stream changes nothing and pays nothing.
pub StreamStep-cancelled :
    {now : ℤ} {signer : ℕ} {m : StreamMandate} {paid : ℕ} {m' : StreamMandate}
    → StreamStep now signer m paid m'
    → m.status ≡ StreamStatus.cancelled
    → (m' ≡ m) × (paid ≡ 0)
StreamStep-cancelled {now} {signer} {m} {paid} {m'} (execute h) c =
    elim (settle_accrued_in_place-Settled m now h) [
      | inl (off, same, nothing) ↦ (same, nothing)
      | inr (on, s) ↦ absurd (ground arith)
    ]
StreamStep-cancelled (pause s p a h e) c = absurd (ground arith)
StreamStep-cancelled (resume t p b since later nothing e) c = absurd (ground arith)
StreamStep-cancelled (cancel s p a h e) c = absurd (ground arith)
StreamStep-cancelled {signer = signer} {m} (change_rate s r x b h e le) c =
    absurd (ground (arith, check_rate_change-active signer m r x b))

-- Only the keeper of the configuration, the subscriber and the merchant settle a stream, and the
-- stream is the account of the program at the address of its own terms.
check_execute-allows :
    (rt : Runtime) (c : ExecuteStream) (m : StreamMandate) (keeper : ℕ)
    → check_execute rt c m keeper ≡ ok tt
    → (c.payer ≡ keeper) ⊎ (c.payer ≡ m.merchant) ⊎ (c.payer ≡ m.subscriber)
unfolding check_execute
check_execute-allows rt c m keeper h =
    ground (arith, ==_iff c.payer keeper, ==_iff c.payer m.merchant, ==_iff c.payer m.subscriber)

-- An execution that succeeds was paid for by the keeper of the loaded configuration, the subscriber
-- or the merchant of the loaded stream.
pub execute_stream-authorized :
    (rt : Runtime) (c : ExecuteStream) (now : ℤ) {o : StreamOutcome}
    → execute_stream rt c now ≡ ok o
    → (keeper : LoadedKeeperConfig) × (m : StreamMandate) × (load_keeper_config rt c.keeper_config
        ≡ ok keeper)
      × (load_stream_mandate c.stream_mandate ≡ ok m)
      × ((c.payer ≡ keeper_authority keeper) ⊎ (c.payer ≡ m.merchant) ⊎ (c.payer ≡ m.subscriber))
unfolding execute_stream
execute_stream-authorized rt c now h = elim (Result-cases (load_keeper_config rt c.keeper_config)) [
  | inr bad ↦ absurd (ground arith)
  | inl (k, ek) ↦ elim (Result-cases (load_stream_mandate c.stream_mandate)) [
    | inr bad ↦ absurd (ground arith)
    | inl (m, em) ↦ elim (Result-cases (check_execute rt c m (keeper_authority k))) [
      | inr bad ↦ absurd (ground arith)
      | inl (u, e) ↦ (k, m, ek, em, check_execute-allows rt c m (keeper_authority k) e)
    ]
  ]
]
