-- ===== src/Hook/Gate.antt =====
-- Which transfers the hook lets through.
use vela_protocol.Base.{
  ℕ, ◌+◌, ◌*◌, ◌≤◌, Option, Bool, none, some, true, false, inl, inr, ◌≡◌, ◌≢◌, ◌⊎◌, refl, arith,
  Bool-cases, Option-cases, ◌==◌, [], ◌∷◌,
}
use vela_protocol.Base.Int.{ℤ, pos, pos_part, ◌+ℤ◌, ◌-ℤ◌, ◌≤ℤ◌, add-sub_nonneg, eq_ℤ-eq}
use vela_protocol.Errors.{ok, Result-cases}
use vela_protocol.State.{
  StreamMandate, VelaMandate, VelaMandateV1, PullApproval, ProtocolConfig, is_active,
}
use vela_protocol.Runtime.{Runtime, Seed, AccountData, Layout, program_id}
use vela_protocol.Accounts.{mandate_billing_period}
use vela_protocol.Hook.Handler.{
  TransferHook, check_cap, check_stream, check_period, check_approval, read_approval,
  check_pull_approval, check_authority, check_transfer, touches_vault, transfer_hook,
}

-- The cap has room for the amount.
abbrev pub HasRoom : StreamMandate → ℕ → Type 0
HasRoom m amount = elim m.max_streamed [ none ↦ Unit | some cap ↦ m.total_streamed + amount ≤ cap ]

-- A stream allows the amount: it is active, its interval has passed, and the amount is within the rate
-- and the cap.
pub record StreamAllows (m : StreamMandate) (amount : ℕ) (now : ℤ) : Type 0 where
  pub elapsed : ℕ
  pub clock : now ≡ m.last_settled_ts +ℤ pos elapsed
  pub active : is_active m.status ≡ true
  pub interval : m.min_settle_interval ≤ elapsed
  pub rate : amount ≤ elapsed * m.rate_per_second
  pub cap : HasRoom m amount

abbrev pub InPeriod : PullApproval → Option (ℤ × ℤ) → Type 0
InPeriod a period = elim period [
  | none ↦ Unit
  | some p ↦ (a.period_start ≡ p.0) × (a.period_end ≡ p.1)
]

-- The approval at the address of the authority grants the amount.
pub record ApprovalAllows (rt : Runtime) (c : TransferHook) (period : Option (ℤ × ℤ)) (amount : ℕ)
    (now : ℤ) : Type 0 where
  pub approval : PullApproval
  pub read : c.pull_approval.contents ≡ AccountData.pull_approval (some approval)
  pub address :
      c.pull_approval.key
      ≡ (rt.find_program_address
          (Seed.literal "approval" ∷ Seed.pubkey c.owner.key ∷ [])
          program_id).0
  pub owned : c.pull_approval.owner ≡ program_id
  pub mandate : approval.mandate ≡ c.owner.key
  pub approved : approval.approved ≡ true
  pub fresh : now ≤ℤ approval.valid_until
  pub in_period : InPeriod approval period
  pub amount_granted : amount ≤ approval.approved_amount

-- The data is neither a stream's nor a mandate's, nor too short to tell.
abbrev pub is_other : AccountData → Bool
is_other AccountData.short = false
is_other (AccountData.stream_mandate s) = false
is_other (AccountData.mandate m) = false
is_other _ = true

-- An authority of the protocol may move the amount.
pub data ProtocolAuthority (rt : Runtime) (c : TransferHook) (amount : ℕ) (now : ℤ) : Type 0 where
  stream :
      (m : StreamMandate)
      → c.owner.contents ≡ AccountData.stream_mandate (some m)
      → StreamAllows m amount now
      → ProtocolAuthority rt c amount now
  subscription :
      (m : VelaMandate) (period : ℤ × ℤ)
      → c.owner.contents ≡ AccountData.mandate (Layout.current m)
      → mandate_billing_period m ≡ ok period
      → ApprovalAllows rt c (some period) amount now
      → ProtocolAuthority rt c amount now
  approved :
      is_other c.owner.contents ≡ true
      → ApprovalAllows rt c none amount now
      → ProtocolAuthority rt c amount now

check_cap-room : (m : StreamMandate) (amount : ℕ) → check_cap m amount ≡ ok tt → HasRoom m amount
unfolding check_cap
check_cap-room m amount h = elim (Option-cases m.max_streamed) [
  | inl e ↦ ground arith
  | inr (cap, e) ↦ ground arith
]

check_stream-allows :
    (m : StreamMandate) (amount : ℕ) (now : ℤ)
    → check_stream m amount now ≡ ok tt
    → StreamAllows m amount now
unfolding check_stream
check_stream-allows m amount now h =
    let nonneg : pos 0 ≤ℤ now -ℤ m.last_settled_ts = ground arith in
    record {
      elapsed = pos_part (now -ℤ m.last_settled_ts);
      clock = add-sub_nonneg now m.last_settled_ts nonneg;
      active = ground arith;
      interval = ground arith;
      rate = ground arith;
      cap = check_cap-room m amount (ground arith);
    }

check_period-in :
    (a : PullApproval) (period : Option (ℤ × ℤ)) → check_period a period ≡ ok tt → InPeriod a period
unfolding check_period
check_period-in a none h = tt
check_period-in a (some (s, e)) h =
    (eq_ℤ-eq a.period_start s (ground arith), eq_ℤ-eq a.period_end e (ground arith))

read_approval-ok :
    (d : AccountData) (a : PullApproval)
    → read_approval d ≡ ok a
    → d ≡ AccountData.pull_approval (some a)
unfolding read_approval
read_approval-ok d a h = ground arith

check_pull_approval-allows :
    (rt : Runtime) (c : TransferHook) (period : Option (ℤ × ℤ)) (amount : ℕ) (now : ℤ)
    → check_pull_approval rt c period amount now ≡ ok tt
    → ApprovalAllows rt c period amount now
unfolding check_pull_approval check_approval
check_pull_approval-allows rt c period amount now h =
    elim (Result-cases (read_approval c.pull_approval.contents)) [
      | inr bad ↦ absurd (ground arith)
      | inl (a, e) ↦ record {
        approval = a;
        read = read_approval-ok c.pull_approval.contents a e;
        address = ground arith;
        owned = ground arith;
        mandate = ground arith;
        approved = ground arith;
        fresh = ground arith;
        in_period = check_period-in a period (ground arith);
        amount_granted = ground arith;
      }
    ]

pub check_authority-other :
    (rt : Runtime) (c : TransferHook) (d : AccountData) (amount : ℕ) (now : ℤ)
    → is_other d ≡ true
    → check_authority rt c d amount now ≡ check_pull_approval rt c none amount now
unfolding check_authority
check_authority-other rt c d amount now h = ground arith

check_authority-mandate :
    (rt : Runtime) (c : TransferHook) (l : Layout VelaMandate VelaMandateV1) (amount : ℕ) (now : ℤ)
    → c.owner.contents ≡ AccountData.mandate l
    → check_authority rt c (AccountData.mandate l) amount now ≡ ok tt
    → ProtocolAuthority rt c amount now
unfolding check_authority
check_authority-mandate rt c (Layout.legacy m b) amount now same h = cc
check_authority-mandate rt c Layout.malformed amount now same h = cc
check_authority-mandate rt c (Layout.current m) amount now same h =
    elim (Result-cases (mandate_billing_period m)) [
      | inr bad ↦ absurd (ground arith)
      | inl (p, e) ↦
          subscription m p same e
            (check_pull_approval-allows rt c (some p) amount now (ground arith))
    ]

check_authority-allows :
    (rt : Runtime) (c : TransferHook) (d : AccountData) (amount : ℕ) (now : ℤ)
    → c.owner.contents ≡ d
    → check_authority rt c d amount now ≡ ok tt
    → ProtocolAuthority rt c amount now
unfolding check_authority
check_authority-allows rt c AccountData.short amount now same h = cc
check_authority-allows rt c (AccountData.stream_mandate none) amount now same h = cc
check_authority-allows rt c (AccountData.stream_mandate (some m)) amount now same h =
    stream m same (check_stream-allows m amount now h)
check_authority-allows rt c (AccountData.mandate l) amount now same h =
    check_authority-mandate rt c l amount now same h
check_authority-allows rt c d amount now same h =
    approved (ground arith) (check_pull_approval-allows rt c none amount now h)

-- The three ways in which a transfer passes.
pub data Passes (rt : Runtime) (c : TransferHook) (amount : ℕ) (now : ℤ) : Type 0 where
  wraps :
      (config : ProtocolConfig)
      → check_transfer rt c ≡ ok config
      → c.mint ≡ config.wrapped_usdc_mint
      → (c.source_token.key ≡ config.wrapping_vault)
        ⊎ (c.destination_token.key ≡ config.wrapping_vault)
      → Passes rt c amount now
  wallet : c.owner.owner ≢ program_id → Passes rt c amount now
  protocol : ProtocolAuthority rt c amount now → Passes rt c amount now

touches_vault-touches :
    (rt : Runtime) (c : TransferHook) (config : ProtocolConfig)
    → touches_vault rt c config ≡ ok true
    → (c.mint ≡ config.wrapped_usdc_mint)
      × ((c.source_token.key ≡ config.wrapping_vault)
          ⊎ (c.destination_token.key ≡ config.wrapping_vault))
unfolding touches_vault
touches_vault-touches rt c config h = ground arith

-- A transfer that the hook accepts touches the wrapping vault of the wrapped mint, or is made by a
-- wallet, or is within what the stream or the approval of the protocol authority allows.
pub transfer_hook-Passes :
    (rt : Runtime) (c : TransferHook) (amount : ℕ) (now : ℤ)
    → transfer_hook rt c amount now ≡ ok tt
    → Passes rt c amount now
unfolding transfer_hook
transfer_hook-Passes rt c amount now h = elim (Result-cases (check_transfer rt c)) [
  | inr bad ↦ absurd (ground arith)
  | inl (config, ec) ↦ elim (Result-cases (touches_vault rt c config)) [
    | inr bad ↦ absurd (ground arith)
    | inl (vault, ev) ↦ elim (Bool-cases vault) [
      | inl at_vault ↦
          let touch = touches_vault-touches rt c config (ground arith) in
          wraps config ec touch.0 touch.1
      | inr elsewhere ↦ elim (Bool-cases (c.owner.owner == program_id)) [
        | inr other ↦ wallet (λ e. ground arith)
        | inl ours ↦
            protocol (check_authority-allows rt c c.owner.contents amount now refl (ground arith))
      ]
    ]
  ]
]
