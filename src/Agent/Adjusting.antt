-- ===== src/Agent/Adjusting.antt =====
-- What an adjustment of a mandate changes, and what it keeps.
use vela_protocol.Base.{ℕ, ◌≤◌, Option, none, some, inl, inr, ◌≡◌, arith, List, length, All, ◌∙◌}
use vela_protocol.Base.Int.{ℤ}
use vela_protocol.Errors.{ok, Result-cases}
use vela_protocol.State.{AgentMandate}
use vela_protocol.Runtime.{current_account_version}
use vela_protocol.Agent.Handlers.{
  ServiceLimitInput, Adjustment, check_services, update_services, adjust_daily_limit,
  adjust_lifetime_cap, adjust_min_amount, adjust_min_interval, adjust_services, apply_adjustment,
}
use vela_protocol.Agent.Services.{
  service_names, input_names, Distinct, WithinLimit, check_duplicates-Distinct,
  update_services-names,
}

-- A mandate within its limits.
pub record WithinLimits (m : AgentMandate) : Type 0 where
  pub daily : m.daily_spent ≤ m.daily_limit
  pub total : m.total_spent ≤ m.lifetime_cap
  pub services : All WithinLimit m.services
  pub count : length m.services ≤ 8
  pub distinct : Distinct (service_names m.services)
  pub versioned : m.version ≡ current_account_version

-- All that is not a limit is kept.
pub record SameCounters (m m' : AgentMandate) : Type 0 where
  pub authority : m'.authority ≡ m.authority
  pub agent : m'.agent ≡ m.agent
  pub daily_spent : m'.daily_spent ≡ m.daily_spent
  pub daily_last_reset : m'.daily_last_reset ≡ m.daily_last_reset
  pub total_spent : m'.total_spent ≡ m.total_spent
  pub last_pull_at : m'.last_pull_at ≡ m.last_pull_at
  pub status : m'.status ≡ m.status
  pub bump : m'.bump ≡ m.bump
  pub version : m'.version ≡ m.version

SameCounters-trans : (a b c : AgentMandate) → SameCounters a b → SameCounters b c → SameCounters a c
SameCounters-trans a b c h k = record {
  authority = k.authority ∙ h.authority;
  agent = k.agent ∙ h.agent;
  daily_spent = k.daily_spent ∙ h.daily_spent;
  daily_last_reset = k.daily_last_reset ∙ h.daily_last_reset;
  total_spent = k.total_spent ∙ h.total_spent;
  last_pull_at = k.last_pull_at ∙ h.last_pull_at;
  status = k.status ∙ h.status;
  bump = k.bump ∙ h.bump;
  version = k.version ∙ h.version;
}

-- One change keeps the counters and the limits.
abbrev Keeps : AgentMandate → AgentMandate → Type 0
Keeps m m' = SameCounters m m' × (WithinLimits m → WithinLimits m')

adjust_daily_limit-Keeps :
    (m : AgentMandate) (limit : Option ℕ) (m' : AgentMandate)
    → adjust_daily_limit m limit ≡ ok m'
    → Keeps m m'
unfolding adjust_daily_limit
adjust_daily_limit-Keeps m none m' h = (ground arith, λ v. ground arith)
adjust_daily_limit-Keeps m (some limit) m' h = (ground arith, λ v. ground arith)

adjust_lifetime_cap-Keeps :
    (m : AgentMandate) (cap : Option ℕ) (m' : AgentMandate)
    → adjust_lifetime_cap m cap ≡ ok m'
    → Keeps m m'
unfolding adjust_lifetime_cap
adjust_lifetime_cap-Keeps m none m' h = (ground arith, λ v. ground arith)
adjust_lifetime_cap-Keeps m (some cap) m' h = (ground arith, λ v. ground arith)

adjust_min_amount-Keeps :
    (m : AgentMandate) (amount : Option ℕ) → Keeps m (adjust_min_amount m amount)
adjust_min_amount-Keeps m none = (ground arith, λ v. ground arith)
adjust_min_amount-Keeps m (some amount) = (ground arith, λ v. ground arith)

adjust_min_interval-Keeps :
    (m : AgentMandate) (interval : Option ℤ) (m' : AgentMandate)
    → adjust_min_interval m interval ≡ ok m'
    → Keeps m m'
unfolding adjust_min_interval
adjust_min_interval-Keeps m none m' h = (ground arith, λ v. ground arith)
adjust_min_interval-Keeps m (some interval) m' h = (ground arith, λ v. ground arith)

-- The entries that an adjustment accepts are few, of different services, and within their limits.
check_services-allows :
    (inputs : List ServiceLimitInput)
    → check_services inputs ≡ ok tt
    → (length inputs ≤ 8) × Distinct (input_names inputs)
unfolding check_services
check_services-allows inputs h = (ground arith, check_duplicates-Distinct inputs (ground arith))

adjust_services-Keeps :
    (m : AgentMandate) (services : Option (List ServiceLimitInput)) (now : ℤ) (m' : AgentMandate)
    → adjust_services m services now ≡ ok m'
    → Keeps m m'
unfolding adjust_services
adjust_services-Keeps m none now m' h = (ground arith, λ v. ground arith)
adjust_services-Keeps m (some inputs) now m' h =
    elim (Result-cases (update_services m.services inputs now)) [
      | inr bad ↦ absurd (ground arith)
      | inl (updated, e) ↦
          let allowed = check_services-allows inputs (ground arith) in
          let names = update_services-names m.services inputs now updated e in
          let written : m' ≡ record m { services = updated } = ground arith in
          (
            ground arith,
            λ v. rw written (record {
              daily = v.daily;
              total = v.total;
              services = names.2;
              count = ground arith;
              distinct = rw names.0 allowed.1;
              versioned = v.versioned;
            }),
          )
    ]

pub apply_adjustment-Keeps :
    (m : AgentMandate) (a : Adjustment) (now : ℤ) (m' : AgentMandate)
    → apply_adjustment m a now ≡ ok m'
    → SameCounters m m' × (WithinLimits m → WithinLimits m')
unfolding apply_adjustment
apply_adjustment-Keeps m a now m' h = elim (Result-cases (adjust_daily_limit m a.daily_limit)) [
  | inr bad ↦ absurd (ground arith)
  | inl (m1, e1) ↦ elim (Result-cases (adjust_lifetime_cap m1 a.lifetime_cap)) [
    | inr bad ↦ absurd (ground arith)
    | inl (m2, e2) ↦
        let m3 = adjust_min_amount m2 a.min_pull_amount in
        elim (Result-cases (adjust_min_interval m3 a.min_pull_interval)) [
          | inr bad ↦ absurd (ground arith)
          | inl (m4, e4) ↦
              let k1 = adjust_daily_limit-Keeps m a.daily_limit m1 e1 in
              let k2 = adjust_lifetime_cap-Keeps m1 a.lifetime_cap m2 e2 in
              let k3 = adjust_min_amount-Keeps m2 a.min_pull_amount in
              let k4 = adjust_min_interval-Keeps m3 a.min_pull_interval m4 e4 in
              let k5 = adjust_services-Keeps m4 a.services now m' (ground arith) in
              let s3 = SameCounters-trans m m2 m3 (SameCounters-trans m m1 m2 k1.0 k2.0) k3.0 in
              let s4 = SameCounters-trans m m3 m4 s3 k4.0 in
              (SameCounters-trans m m4 m' s4 k5.0, λ v. k5.1 (k4.1 (k3.1 (k2.1 (k1.1 v)))))
        ]
  ]
]
