-- ===== src/Hook/Billing.antt =====
-- The hook and the pulls of subscriptions: whether the transfer of a pull passes.
use vela_protocol.Base.{ℕ, ◌≤◌, some, ◌≡◌, arith, Bool, sym, ◌∙◌}
use vela_protocol.Base.Int.{ℤ}
use vela_protocol.Errors.{ok}
use vela_protocol.State.{VelaMandate, ProtocolConfig, PullApproval}
use vela_protocol.Runtime.{Runtime, AccountData, Layout, moved}
use vela_protocol.Accounts.{
  LoadedMandateAccount, decode_mandate, into_current_mandate, mandate_billing_period,
  current_from_legacy_mandate, legacy_mandate,
}
use vela_protocol.Billing.Pull.{ExecutePull, BillingOutcome, execute_pull}
use vela_protocol.Billing.Reload.{load-contents}
use vela_protocol.Billing.Authority.{Valid, Granted, execute_pull-Granted}
use vela_protocol.Hook.Handler.{
  TransferHook, check_period, check_approval, read_approval, check_pull_approval, check_authority,
  check_transfer, touches_vault, transfer_hook,
}

-- The period that the pull takes from the loaded mandate is the one that the hook reads in the data.
decode-period :
    (m : VelaMandate) (l : LoadedMandateAccount)
    → decode_mandate (AccountData.mandate (Layout.current m)) ≡ ok l
    → mandate_billing_period (into_current_mandate l) ≡ mandate_billing_period m
unfolding decode_mandate into_current_mandate current_from_legacy_mandate legacy_mandate
    mandate_billing_period
decode-period m (LoadedMandateAccount.current l) h = ground arith
decode-period m (LoadedMandateAccount.legacy l) h = ground arith

check_pull_approval-Valid :
    (rt : Runtime) (h : TransferHook) (period : ℤ × ℤ) (a : PullApproval) (amount : ℕ) (now : ℤ)
    → Valid rt h.pull_approval h.owner.key period now a
    → amount ≤ a.approved_amount
    → check_pull_approval rt h (some period) amount now ≡ ok tt
unfolding check_pull_approval read_approval check_approval check_period
check_pull_approval-Valid rt h period a amount now v le =
    ground (arith, v.address, v.owned, v.holds, v.approved, v.is_for, v.start, v.end, v.fresh)

check_authority-pull :
    (rt : Runtime) (c : ExecutePull) (h : TransferHook) (m : VelaMandate) (now : ℤ)
    (o : BillingOutcome) (g : Granted rt c now o)
    → h.owner ≡ c.mandate
    → h.pull_approval ≡ c.pull_approval
    → c.mandate.contents ≡ AccountData.mandate (Layout.current m)
    → check_authority rt h h.owner.contents g.paid now ≡ ok tt
unfolding check_authority
check_authority-pull rt c h m now o g owner approval contents =
    let decoded = (load-contents c.mandate g.loaded g.loads).1 in
    let period : mandate_billing_period m ≡ ok g.period =
      sym (decode-period m g.loaded (rw (sym contents) decoded)) ∙ g.bills in
    let valid : Valid rt h.pull_approval h.owner.key g.period now g.approval =
      rw owner (rw approval g.valid) in
    let accepts = check_pull_approval-Valid rt h g.period g.approval g.paid now valid g.within in
    rw owner (rw contents (ground (arith, period, accepts)))

-- The hook accepts the transfer of a pull that succeeds, under the authority and the approval of
-- the pull, if the account of the mandate has room for the current layout and the transfer passes
-- the first checks of the hook.
pub transfer_hook-execute_pull :
    (rt : Runtime) (c : ExecutePull) (h : TransferHook) (config : ProtocolConfig) (vault : Bool)
    (m : VelaMandate) (paid : ℕ) (now : ℤ) (o : BillingOutcome)
    → execute_pull rt c now ≡ ok o
    → moved c.subscriber_wrapped_account.key c.merchant_wrapped_account.key c.mandate.key
        o.invocations
      ≡ some paid
    → c.mandate.contents ≡ AccountData.mandate (Layout.current m)
    → h.owner ≡ c.mandate
    → h.pull_approval ≡ c.pull_approval
    → check_transfer rt h ≡ ok config
    → touches_vault rt h config ≡ ok vault
    → transfer_hook rt h paid now ≡ ok tt
unfolding transfer_hook
transfer_hook-execute_pull rt c h config vault m paid now o pulled moves contents owner approval
      checked touches =
    let g = execute_pull-Granted rt c now o pulled in
    let same : g.paid ≡ paid = cc (g.moves, moves) in
    let accepts : check_authority rt h h.owner.contents paid now ≡ ok tt =
      rw (sym same) (check_authority-pull rt c h m now o g owner approval contents) in
    ground (arith, accepts)
