-- ===== src/Plans/Life.antt =====
-- A subscription from its beginning to its end: subscribe.rs, cancel.rs, admin_cancel.rs,
-- close_mandate.rs and execute_pull.rs.
use vela_protocol.Base.{ℕ, ◌*◌, ◌≤◌, false, inl, inr, ◌≡◌, ◌⊎◌, refl, arith, ap, sym, ◌∙◌, Bool}
use vela_protocol.Base.Int.{ℤ}
use vela_protocol.Errors.{ok, Result-cases}
use vela_protocol.State.{VelaMandate, MandateStatus}
use vela_protocol.Runtime.{Runtime, AccountInfo}
use vela_protocol.Accounts.{
  current_from_legacy_mandate, legacy_mandate, LoadedMandateAccount, LoadedPlanAccount,
  load_plan_account, mandate_amount, plan_max_pulls, plan_merchant, plan_expiry,
  initial_next_payment_due, v2_mandate_seeds, load_mandate_account, decode_mandate,
  validate_loaded_mandate_address, derive_v2_mandate_address, into_current_mandate,
  is_legacy_mandate, write_mandate,
}
use vela_protocol.Arcium.Callback.{find}
use vela_protocol.Arcium.Accounts.{ArciumProgram}
use vela_protocol.Billing.Pull.{ExecutePull, BillingOutcome, execute_pull}
use vela_protocol.Billing.Payment.{execute_pull-Pulled}
use vela_protocol.Billing.Reload.{Holds, Writable, load-write_mandate, load-Writable}
use vela_protocol.Billing.Runs.{Pulls, Bounded, Pulls-Bounded}
use vela_protocol.Plans.Subscribe.{Subscribe, Subscribed, new_mandate, subscribe}
use vela_protocol.Plans.Cancel.{Cancel, AdminCancel, CancelOutcome, cancelled, cancel, admin_cancel}

-- A mandate that is new, on the terms of the plan.
pub record Fresh (rt : Runtime) (c : Subscribe) (o : Subscribed) : Type 0 where
  pub plan : LoadedPlanAccount
  pub mandate : VelaMandate
  pub planned : load_plan_account rt c.plan ≡ ok plan
  pub loads : load_mandate_account o.mandate ≡ ok (LoadedMandateAccount.current mandate)
  pub valid :
      validate_loaded_mandate_address rt o.mandate.key (LoadedMandateAccount.current mandate)
      ≡ ok tt
  pub active : mandate.status ≡ MandateStatus.active
  pub amount : mandate.amount ≡ mandate_amount plan
  pub max_pulls : mandate.max_pulls ≡ plan_max_pulls plan
  pub pulls : mandate.pulls_executed ≡ 0
  pub credit : mandate.credit_balance ≡ 0
  pub unscheduled : mandate.pending_change_type ≡ 0
  pub recorded : mandate.last_billing_recorded_pull ≡ mandate.pulls_executed

pub subscribe-Fresh :
    (rt : Runtime) (c : Subscribe) (now : ℤ) (o : Subscribed)
    → subscribe rt c now ≡ ok o
    → Fresh rt c o
unfolding subscribe new_mandate write_mandate load_mandate_account decode_mandate
    validate_loaded_mandate_address derive_v2_mandate_address
subscribe-Fresh rt c now o h = elim (Result-cases (load_plan_account rt c.plan)) [
  | inr bad ↦ absurd (ground arith)
  | inl (p, ep) ↦ elim (Result-cases (plan_expiry p now)) [
    | inr bad ↦ absurd (ground arith)
    | inl (expiry, ee) ↦ elim (Result-cases (initial_next_payment_due p now)) [
      | inr bad ↦ absurd (ground arith)
      | inl (due, ed) ↦ record {
        plan = p;
        mandate =
            new_mandate c p c.merchant_state.state.mandate_counter
              (find rt (
                v2_mandate_seeds c.subscriber (plan_merchant p)
                  c.merchant_state.state.mandate_counter)).1
              now expiry due;
        planned = ep;
        loads = ground arith;
        valid = ground arith;
        active = refl;
        amount = refl;
        max_pulls = refl;
        pulls = refl;
        credit = refl;
        unscheduled = refl;
        recorded = refl;
      }
    ]
  ]
]

fresh_current : (m : VelaMandate) → into_current_mandate (LoadedMandateAccount.current m) ≡ m
unfolding into_current_mandate
fresh_current m = refl

fresh_layout : (m : VelaMandate) → is_legacy_mandate (LoadedMandateAccount.current m) ≡ false
unfolding is_legacy_mandate
fresh_layout m = refl

room_count :
    (m after : VelaMandate) (count total : ℕ) (until : ℤ)
    → Bounded m after count total until
    → m.pulls_executed ≡ 0
    → count ≤ m.max_pulls
room_count m after count total until b none_yet = elim b.room [
  | inl nothing ↦ omega arith
  | inr (within, time) ↦ omega (arith, b.pulls)
]

cancelled-Writable :
    (info : AccountInfo) (l : LoadedMandateAccount)
    → load_mandate_account info ≡ ok l
    → Writable l (cancelled (into_current_mandate l))
unfolding into_current_mandate current_from_legacy_mandate legacy_mandate cancelled
cancelled-Writable info (LoadedMandateAccount.current m) h =
    load-Writable info (LoadedMandateAccount.current m) h
cancelled-Writable info (LoadedMandateAccount.legacy v) h = refl

-- Any pulls on a new subscription, with any requests of computations and records of pulls between
-- them, each on what the last one wrote, are no more than the largest number of the plan and move
-- no more than the amount of the plan for each pull.
pub subscribe-Pulls :
    (rt rt' : Runtime) (ar : ArciumProgram) (c : Subscribe) (now until : ℤ) (o : Subscribed)
    (plan : LoadedPlanAccount) (count total : ℕ) (left : AccountInfo)
    → subscribe rt c now ≡ ok o
    → load_plan_account rt c.plan ≡ ok plan
    → Pulls rt' ar until o.mandate count total left
    → (total ≤ count * mandate_amount plan) × (count ≤ plan_max_pulls plan)
subscribe-Pulls rt rt' ar c now until o plan count total left h planned pulls =
    let f = subscribe-Fresh rt c now o h in
    let holds : Holds o.mandate f.mandate false = record {
      loaded = LoadedMandateAccount.current f.mandate;
      loads = f.loads;
      current = fresh_current f.mandate;
      layout = fresh_layout f.mandate;
    } in
    let (after, held, bounded) =
      Pulls-Bounded rt' ar until o.mandate left count total f.mandate false pulls holds
        f.unscheduled in
    let same : f.plan ≡ plan = cc (f.planned, planned) in
    let amount : f.mandate.amount ≡ mandate_amount plan = f.amount ∙ ap mandate_amount same in
    let max : f.mandate.max_pulls ≡ plan_max_pulls plan = f.max_pulls ∙ ap plan_max_pulls same in
    (
      rw (sym amount) (omega (arith, bounded.spent, bounded.credit)),
      rw (sym max) (room_count f.mandate after count total until bounded f.pulls),
    )

-- The account loads as a mandate that is cancelled.
pub record Cancelled (info : AccountInfo) : Type 0 where
  pub mandate : VelaMandate
  pub legacy : Bool
  pub holds : Holds info mandate legacy
  pub ended : mandate.status ≡ MandateStatus.cancelled

write_cancelled-Cancelled :
    (info : AccountInfo) (l : LoadedMandateAccount)
    → load_mandate_account info ≡ ok l
    → Cancelled (write_mandate info (cancelled (into_current_mandate l)) (is_legacy_mandate l))
unfolding cancelled
write_cancelled-Cancelled info l h = record {
  mandate = cancelled (into_current_mandate l);
  legacy = is_legacy_mandate l;
  holds =
      load-write_mandate info l (cancelled (into_current_mandate l)) h
        (cancelled-Writable info l h);
  ended = refl;
}

cancel-Cancelled :
    (rt : Runtime) (c : Cancel) (o : CancelOutcome) → cancel rt c ≡ ok o → Cancelled o.mandate
unfolding cancel
cancel-Cancelled rt c o h = elim (Result-cases (load_mandate_account c.mandate)) [
  | inr bad ↦ absurd (ground arith)
  | inl (l, e) ↦
      let writes : o.mandate
          ≡ write_mandate c.mandate (cancelled (into_current_mandate l)) (is_legacy_mandate l) =
        ground arith in
      rw writes (write_cancelled-Cancelled c.mandate l e)
]

admin_cancel-Cancelled :
    (rt : Runtime) (c : AdminCancel) (o : CancelOutcome)
    → admin_cancel rt c ≡ ok o
    → Cancelled o.mandate
unfolding admin_cancel
admin_cancel-Cancelled rt c o h = elim (Result-cases (load_mandate_account c.mandate)) [
  | inr bad ↦ absurd (ground arith)
  | inl (l, e) ↦
      let writes : o.mandate
          ≡ write_mandate c.mandate (cancelled (into_current_mandate l)) (is_legacy_mandate l) =
        ground arith in
      rw writes (write_cancelled-Cancelled c.mandate l e)
]

Cancelled-no_pull :
    (rt : Runtime) (c : ExecutePull) (now : ℤ) (o : BillingOutcome)
    → Cancelled c.mandate
    → execute_pull rt c now ≡ ok o
    → ⊥
Cancelled-no_pull rt c now o k h =
    let r = execute_pull-Pulled rt c now o h in
    let same : r.loaded ≡ k.holds.loaded = cc (r.loads, k.holds.loads) in
    let status : (into_current_mandate r.loaded).status ≡ MandateStatus.cancelled =
      ap (λ l. (into_current_mandate l).status) same
      ∙ ap (λ m. m.status) k.holds.current
      ∙ k.ended in
    absurd (ground (arith, r.pullable.active, status))

-- After the subscriber or the administrator has cancelled a mandate, no pull on what was written
-- succeeds.
pub cancel-no_pull :
    (rt rt' : Runtime) (c : Cancel) (a : AdminCancel) (e : CancelOutcome) (p : ExecutePull)
    (now : ℤ) (o : BillingOutcome)
    → (cancel rt c ≡ ok e) ⊎ (admin_cancel rt a ≡ ok e)
    → p.mandate ≡ e.mandate
    → ¬ (execute_pull rt' p now ≡ ok o)
cancel-no_pull rt rt' c a e p now o (inl h) same pulls =
    Cancelled-no_pull rt' p now o (rw same (cancel-Cancelled rt c e h)) pulls
cancel-no_pull rt rt' c a e p now o (inr h) same pulls =
    Cancelled-no_pull rt' p now o (rw same (admin_cancel-Cancelled rt a e h)) pulls
