-- ===== src/Agent/Charge.antt =====
-- What one step of a mandate does to its counters.
use vela_protocol.Base.{
  ℕ, ◌+◌, ◌≤◌, some, true, inl, inr, ◌≡◌, ◌⊎◌, arith, get_elem?, set, length, All, Bool-cases,
  Option-cases,
}
use vela_protocol.Base.Int.{
  ℤ, pos, ◌≤ℤ◌, ◌-ℤ◌, ◌+ℤ◌, leb_ℤ, -ℤ_parts, +ℤ_parts, pos_part-or-neg_part,
}
use vela_protocol.Base.Machine.{i64_saturating_sub}
use vela_protocol.Errors.{ok}
use vela_protocol.State.{AgentMandate, ServiceLimit}
use vela_protocol.Runtime.{agent_daily_reset_window_seconds}
use vela_protocol.Agent.Limits.{reset_daily_if_needed, reset_service, reset_service_daily_if_needed}
use vela_protocol.Agent.Handlers.{
  NextSpent, reset_windows, check_limits, check_cooldown, record_pull,
}
use vela_protocol.Agent.Services.{
  All-get_elem?, All-set, length-set, map-set, service_names, WithinLimit,
}

-- A whole window has passed since `last`.
abbrev pub WindowPassed : ℤ → ℤ → Type 0
WindowPassed last now = last +ℤ pos 86400 ≤ℤ now

window_passed :
    (now last : ℤ)
    → leb_ℤ agent_daily_reset_window_seconds (i64_saturating_sub now last) ≡ true
    → WindowPassed last now
window_passed now last h =
    ground (arith, -ℤ_parts now last, +ℤ_parts last (pos 86400), pos_part-or-neg_part (now -ℤ last))

-- The daily counter after a step that pays: a new window begins at the step, or the old one goes on.
abbrev pub DayCharged : ℤ → AgentMandate → ℕ → AgentMandate → Type 0
DayCharged now m paid m' =
    (WindowPassed m.daily_last_reset now × (m'.daily_last_reset ≡ now) × (m'.daily_spent ≡ paid))
    ⊎ ((m'.daily_last_reset ≡ m.daily_last_reset) × (m'.daily_spent ≡ m.daily_spent + paid))

reset_daily-cases :
    (m : AgentMandate) (now : ℤ)
    → (WindowPassed m.daily_last_reset now
        × (reset_daily_if_needed m now ≡ record m { daily_spent = 0; daily_last_reset = now }))
      ⊎ (reset_daily_if_needed m now ≡ m)
unfolding reset_daily_if_needed
reset_daily-cases m now =
    elim (Bool-cases
      (leb_ℤ agent_daily_reset_window_seconds (i64_saturating_sub now m.daily_last_reset))) [
        | inl over ↦ inl (window_passed now m.daily_last_reset over, ground arith)
        | inr going ↦ inr (ground arith)
      ]

-- A charge within the limits, on a mandate whose windows have been reset.
pub record Charged (m : AgentMandate) (index paid : ℕ) (now : ℤ) (m' : AgentMandate) : Type 0 where
  pub entry : ServiceLimit
  pub at : get_elem? m.services index ≡ some entry
  pub service_within : entry.daily_spent + paid ≤ entry.daily_limit
  pub daily_within : m.daily_spent + paid ≤ m.daily_limit
  pub total_within : m.total_spent + paid ≤ m.lifetime_cap
  pub enough : m.min_pull_amount ≤ paid
  pub cooled : check_cooldown m now ≡ ok tt
  pub recorded : m' ≡ record m {
    services = set m.services index (record entry { daily_spent = entry.daily_spent + paid });
    daily_spent = m.daily_spent + paid;
    total_spent = m.total_spent + paid;
    last_pull_at = now;
  }

pub check_limits-Charged :
    (m : AgentMandate) (index paid : ℕ) (now : ℤ) (next : NextSpent) (m' : AgentMandate)
    → check_limits m index paid now ≡ ok next
    → record_pull m index next now ≡ ok m'
    → Charged m index paid now m'
unfolding check_limits record_pull
check_limits-Charged m index paid now next m' h r =
    elim (Option-cases (get_elem? m.services index)) [
      | inl bad ↦ absurd (ground arith)
      | inr (entry, e) ↦ record {
        entry = entry;
        at = e;
        service_within = ground arith;
        daily_within = ground arith;
        total_within = ground arith;
        enough = ground arith;
        cooled = ground arith;
        recorded = ground arith;
      }
    ]

-- The mandate with the window of one entry reset.
reset_service_daily-eq :
    (m : AgentMandate) (index : ℕ) (now : ℤ) (l : ServiceLimit)
    → get_elem? m.services index ≡ some l
    → reset_service_daily_if_needed m index now
      ≡ record m { services = set m.services index (reset_service l now) }
unfolding reset_service_daily_if_needed
reset_service_daily-eq m index now l h = ground arith

-- The windows' reset touches no more than the daily counter and the entries' counters.
pub record WindowsReset (m : AgentMandate) (index : ℕ) (now : ℤ) (f : AgentMandate) : Type 0 where
  pub services : All WithinLimit m.services → All WithinLimit f.services
  pub names : service_names f.services ≡ service_names m.services
  pub count : length f.services ≡ length m.services
  pub daily :
      (WindowPassed m.daily_last_reset now
        × (f ≡ record m { services = f.services; daily_spent = 0; daily_last_reset = now }))
      ⊎ (f ≡ record m { services = f.services })

reset_service-WithinLimit :
    (l : ServiceLimit) (now : ℤ) → WithinLimit l → WithinLimit (reset_service l now)
reset_service-WithinLimit l now h = ground arith

reset_service-service : (l : ServiceLimit) (now : ℤ) → (reset_service l now).service ≡ l.service
reset_service-service l now = ground arith

entries-WindowsReset :
    (m : AgentMandate) (index : ℕ) (now : ℤ) (l : ServiceLimit) (f : AgentMandate)
    → get_elem? m.services index ≡ some l
    → f.services ≡ set m.services index (reset_service l now)
    → (WindowPassed m.daily_last_reset now
        × (f ≡ record m { services = f.services; daily_spent = 0; daily_last_reset = now }))
      ⊎ (f ≡ record m { services = f.services })
    → WindowsReset m index now f
entries-WindowsReset m index now l f h same daily =
    let xs = m.services in
    let v = reset_service l now in
    record {
      services = λ a. rw same (
          All-set WithinLimit xs index v a
            (reset_service-WithinLimit l now (All-get_elem? WithinLimit xs index a h)));
      names = rw same (map-set (λ x. x.service) xs index l v h (reset_service-service l now));
      count = rw same (length-set xs index v);
      daily = daily;
    }

pub reset_windows-WindowsReset :
    (m : AgentMandate) (index : ℕ) (now : ℤ) (l : ServiceLimit)
    → get_elem? m.services index ≡ some l
    → WindowsReset m index now (reset_windows m index now)
reset_windows-WindowsReset m index now l h =
    let g = reset_service_daily_if_needed m index now in
    let entries = reset_service_daily-eq m index now l h in
    elim (reset_daily-cases g now) [
      | inl (over, e) ↦
          entries-WindowsReset m index now l (reset_windows m index now) h
            (ground (arith, entries, e))
            (inl (ground (arith, entries, over), ground (arith, entries, e)))
      | inr e ↦
          entries-WindowsReset m index now l (reset_windows m index now) h
            (ground (arith, entries, e)) (inr (ground (arith, entries, e)))
    ]
