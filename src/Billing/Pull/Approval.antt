-- ===== src/Billing/Pull/Approval.antt =====
-- billing/execute_pull.rs: the approval of a pull and the usage report that it settles.
use vela_protocol.Base.{ℕ, true, Option, none, some, not, ◌==◌, ◌&&◌, [], ◌∷◌}
use vela_protocol.Base.Int.{ℤ, leb_ℤ, eq_ℤ}
use vela_protocol.Errors.{Result, ok, err, vela, VelaError, ◌>>=◌, ◌>>◌, require, require_keys_eq}
use vela_protocol.State.{PullApproval, UsageReport}
use vela_protocol.Runtime.{Runtime, Seed, AccountInfo, AccountData, data_is_empty, program_id}

-- `PullApproval::try_deserialize`
unfoldable pub decode_pull_approval : AccountData → Result PullApproval
decode_pull_approval (AccountData.pull_approval (some a)) = ok a
decode_pull_approval _ = err (vela VelaError.approval_not_granted)

-- The checks of an approval's terms, the same in update_mandate_plan.rs.
unfoldable pub check_approval_terms :
    PullApproval → (mandate : ℕ) (period : ℤ × ℤ) (now : ℤ) → Result (Unit {0})
check_approval_terms approval mandate period now = do
  require approval.approved (vela VelaError.approval_not_granted)
  require_keys_eq approval.mandate mandate (vela VelaError.approval_not_granted)
  require (eq_ℤ approval.period_start period.0 && eq_ℤ approval.period_end period.1)
      (vela VelaError.period_mismatch)
  require (leb_ℤ now approval.valid_until) (vela VelaError.approval_expired)

-- `UsageReport::try_deserialize`
unfoldable pub decode_usage_report : AccountData → Result UsageReport
decode_usage_report (AccountData.usage_report (some r)) = ok r
decode_usage_report _ = err (vela VelaError.period_mismatch)

-- The checks of a report's contents.
unfoldable pub check_usage_report :
    UsageReport → (mandate merchant : ℕ) (period_start period_end : ℤ) → Result (Unit {0})
check_usage_report report mandate merchant period_start period_end = do
  require_keys_eq report.mandate mandate (vela VelaError.billing_type_mismatch)
  require_keys_eq report.merchant merchant (vela VelaError.billing_type_mismatch)
  require (eq_ℤ report.period_start period_start && eq_ℤ report.period_end period_end)
      (vela VelaError.period_mismatch)
  require (not report.settled) (vela VelaError.usage_report_already_settled)

-- The byte that is set is that of `settled`.
unfoldable pub settled_report : UsageReport → UsageReport
settled_report report = record report { settled = true }

unfoldable pub mark_usage_report_settled : AccountInfo → Result AccountInfo
unfolding decode_usage_report settled_report
mark_usage_report_settled info = do
  report ← decode_usage_report info.contents
  ok (record info { contents = AccountData.usage_report (some (settled_report report)) })

module _ (rt : Runtime) where
  -- The approval at the address of the mandate, of the program, with data.
  unfoldable pub load_pull_approval : AccountInfo → (mandate : ℕ) → Result PullApproval
  unfolding decode_pull_approval
  load_pull_approval info mandate = do
    let seeds = Seed.literal "approval" ∷ Seed.pubkey mandate ∷ []
    let expected_approval = (rt.find_program_address seeds program_id).0
    require_keys_eq info.key expected_approval (vela VelaError.approval_not_granted)
    require (info.owner == program_id && not (data_is_empty info.contents))
        (vela VelaError.approval_not_granted)
    decode_pull_approval info.contents

  unfoldable pub validate_usage_report_for_settlement :
      AccountInfo → (mandate merchant : ℕ) (period_start period_end : ℤ) → Result (Unit {0})
  unfolding decode_usage_report check_usage_report
  validate_usage_report_for_settlement info mandate merchant period_start period_end = do
    require_keys_eq info.owner program_id (vela VelaError.billing_type_mismatch)
    let seeds = Seed.literal "usage_report" ∷ Seed.pubkey mandate ∷ Seed.i64_le period_start ∷ []
    let expected_report = (rt.find_program_address seeds program_id).0
    require_keys_eq info.key expected_report (vela VelaError.period_mismatch)
    report ← decode_usage_report info.contents
    check_usage_report report mandate merchant period_start period_end

  -- `if let Some(report_info) = usage_report_info { validate_usage_report_for_settlement(…)? }`
  unfoldable pub check_reported :
      Option AccountInfo → (mandate merchant : ℕ) (period_start period_end : ℤ) → Result (Unit {0})
  check_reported none mandate merchant period_start period_end = ok tt
  check_reported (some info) mandate merchant period_start period_end =
      validate_usage_report_for_settlement info mandate merchant period_start period_end

-- `if let Some(report_info) = usage_report_info { mark_usage_report_settled(report_info)?; }`
unfoldable pub settle_reported : Option AccountInfo → Result (Option AccountInfo)
unfolding mark_usage_report_settled
settle_reported none = ok none
settle_reported (some info) = do settled ← mark_usage_report_settled info; ok (some settled)
