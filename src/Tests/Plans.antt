-- ===== src/Tests/Plans.antt =====
-- Changes of a subscription's plan.
use vela_protocol.Base.{ℕ, ◌*◌, ◌/◌, ◌-◌, ◌==◌, leb, if◌then◌else◌, some, none, ◌≡◌, refl, []}
use vela_protocol.Base.Int.{pos, ◌-ℤ◌, ◌+ℤ◌}
use vela_protocol.Errors.{ok}
use vela_protocol.Runtime.{program_id, transfer_hook_program_id}
use vela_protocol.Accounts.{mandate_billing_period}
use vela_protocol.Plans.Change.{SchedulePlanChange, ChangeOutcome, schedule_plan_change}
use vela_protocol.Plans.Proration.{PreciseNumber}
use vela_protocol.Plans.Delta.{UpdateMandatePlan, elapsed_in_period}
use vela_protocol.Plans.Update.{UpdateOutcome, update_mandate_plan}
use vela_protocol.Tests.Fixture.{
  runtime, from_ok, config_account, token_config, token_config_account, wrapped_tokens, meta_list,
}
use vela_protocol.Tests.Billing.{mandate, mandate_account, approval_account, payer}
use vela_protocol.Tests.Grants.{dearer_account}

-- The subscriber schedules a plan that costs 800 instead of 500.
abbrev scheduling : SchedulePlanChange
scheduling = record {
  authority = 11;
  new_plan = dearer_account;
  mandate = mandate_account mandate;
  protocol_config = config_account;
}

abbrev scheduled : ChangeOutcome
scheduled =
    from_ok (record { mandate = payer; events = [] })
      (schedule_plan_change runtime scheduling 9 (pos 8200))

-- Numbers with six decimals.
abbrev decimals : PreciseNumber
decimals = record {
  Number = ℕ;
  new = λ n. some (n * 1_000_000);
  checked_mul = λ a b. some (a * b / 1_000_000);
  checked_div = λ a b. if b == 0 then none else some (a * 1_000_000 / b);
  checked_sub = λ a b. if leb b a then some (a - b) else none;
  floor = λ a. some (a / 1_000_000 * 1_000_000);
  to_imprecise = λ a. some (a / 1_000_000);
  greater_than_or_equal = λ a b. leb b a;
}

-- In the middle of the period the subscriber changes to the plan that costs 800: 150 are due.
abbrev changing : UpdateMandatePlan
changing = record {
  authority = record payer { key = 11 };
  new_plan = dearer_account;
  mandate = mandate_account mandate;
  subscriber_wrapped_account = wrapped_tokens 21 (mandate_account mandate).key;
  merchant_wrapped_account = wrapped_tokens 22 12;
  wrapped_usdc_mint = 14;
  pull_approval = approval_account (mandate_account mandate).key;
  token_config = record { key = token_config_account.key; state = token_config };
  protocol_config = config_account;
  wrapping_vault = 15;
  hook_program = transfer_hook_program_id;
  extra_account_meta_list = meta_list;
  protocol_program = program_id;
  token_2022_program = 101;
  system_program = 103;
}

abbrev changed : UpdateOutcome
changed =
    from_ok (record { mandate = payer; closed = none; invocations = []; events = [] })
      (update_mandate_plan decimals runtime changing (pos 8200))

elapsed_runs :
    (mandate_billing_period mandate ≡ ok (pos 6400, pos 10_000))
    × (elapsed_in_period mandate (pos 8200) ≡ ok 1800)
unfolding mandate_billing_period elapsed_in_period ◌-ℤ◌ ◌+ℤ◌
elapsed_runs = (refl, refl)
