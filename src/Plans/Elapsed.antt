-- ===== src/Plans/Elapsed.antt =====
-- The part of the period that has passed at a change of the plan: update_mandate_plan.rs.
use vela_protocol.Base.{ℕ, ◌+◌, ◌⊎◌, ap, ◌≤◌, inl, inr, ◌≡◌, arith, Bool-cases}
use vela_protocol.Base.Int.{
  ℤ, pos, pos_part, neg_part, leb_ℤ, ◌≤ℤ◌, ◌+ℤ◌, ◌-ℤ◌, int_laws, -ℤ_parts, eq_of_parts,
}
use vela_protocol.Errors.{ok}
use vela_protocol.State.{VelaMandate}
use vela_protocol.Accounts.{mandate_billing_period}
use vela_protocol.Plans.Delta.{elapsed_in_period}

-- `elapsed` is the time since the start of the period, cut off at its two ends.
pub record Clamped (start due now : ℤ) (frequency elapsed : ℕ) : Type 0 where
  pub within : elapsed ≤ frequency
  pub before : now ≤ℤ start → elapsed ≡ 0
  pub after : due ≤ℤ now → elapsed ≡ frequency
  pub between : start ≤ℤ now → now ≤ℤ due → now ≡ start +ℤ pos elapsed

mandate_billing_period-parts :
    (m : VelaMandate) (start due : ℤ)
    → mandate_billing_period m ≡ ok (start, due)
    → (due ≡ m.next_payment_due) × (start ≡ m.next_payment_due -ℤ pos m.frequency)
unfolding mandate_billing_period
mandate_billing_period-parts m start due h = (ground arith, ground arith)

-- The three branches.
elapsed_in_period-cases :
    (m : VelaMandate) (now : ℤ) (elapsed : ℕ)
    → elapsed_in_period m now ≡ ok elapsed
    → ((now ≤ℤ m.next_payment_due -ℤ pos m.frequency) × (elapsed ≡ 0))
      ⊎ ((m.next_payment_due ≤ℤ now) × (elapsed ≡ m.frequency))
      ⊎ ((now ≤ℤ m.next_payment_due)
          × (now -ℤ (m.next_payment_due -ℤ pos m.frequency) ≡ pos elapsed))
unfolding elapsed_in_period
elapsed_in_period-cases m now elapsed h =
    elim (Bool-cases (leb_ℤ now (m.next_payment_due -ℤ pos m.frequency))) [
      | inl early ↦ inl (ground arith)
      | inr begun ↦ elim (Bool-cases (leb_ℤ m.next_payment_due now)) [
        | inl over ↦ inr (inl (ground arith))
        | inr on ↦ inr (inr (ground arith))
      ]
    ]

-- The three cases, on the parts of the integers.
cases-Clamped :
    (start due now : ℤ) (frequency elapsed : ℕ)
    → pos_part start + neg_part due + frequency ≡ neg_part start + pos_part due
    → ((now ≤ℤ start) × (elapsed ≡ 0))
      ⊎ ((due ≤ℤ now) × (elapsed ≡ frequency))
      ⊎ ((now ≤ℤ due) × (now -ℤ start ≡ pos elapsed))
    → Clamped start due now frequency elapsed
cases-Clamped start due now frequency elapsed length (inl (early, none_yet)) = record {
  within = omega arith;
  before = λ x. none_yet;
  after = λ x. omega arith;
  between = λ x y. eq_of_parts now (start +ℤ pos elapsed) (omega int_laws);
}
cases-Clamped start due now frequency elapsed length (inr (inl (over, all))) = record {
  within = omega arith;
  before = λ x. omega arith;
  after = λ x. all;
  between = λ x y. eq_of_parts now (start +ℤ pos elapsed) (omega int_laws);
}
cases-Clamped start due now frequency elapsed length (inr (inr (on, since))) =
    let gone : elapsed + neg_part now + pos_part start ≡ pos_part now + neg_part start =
      omega (arith, -ℤ_parts now start, ap pos_part since, ap neg_part since) in
    record {
      within = omega arith;
      before = λ x. omega arith;
      after = λ x. omega arith;
      between = λ x y. eq_of_parts now (start +ℤ pos elapsed) (omega int_laws);
    }

-- The time that has passed of the period of a mandate's next payment is the time since its start, cut
-- off at zero and at the period's length.
pub elapsed_in_period-Clamped :
    (m : VelaMandate) (now : ℤ) (start due : ℤ) (elapsed : ℕ)
    → mandate_billing_period m ≡ ok (start, due)
    → elapsed_in_period m now ≡ ok elapsed
    → Clamped start due now m.frequency elapsed
elapsed_in_period-Clamped m now start due elapsed bills h =
    let (at_due, at_start) = mandate_billing_period-parts m start due bills in
    rw at_due (
      rw at_start (
        cases-Clamped (m.next_payment_due -ℤ pos m.frequency) m.next_payment_due now m.frequency
          elapsed (omega int_laws) (elapsed_in_period-cases m now elapsed h)))
