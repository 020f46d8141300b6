-- ===== src/Billing/Runs.antt =====
-- What any number of pulls takes from a subscriber: execute_pull.rs, with the requests and records of
-- Billing/Between.antt.
use vela_protocol.Base.{
  ℕ, suc, ◌+◌, ◌*◌, ◌≤◌, some, inl, inr, ◌≡◌, ◌⊎◌, refl, sym, ◌∙◌, ap, arith, Bool,
}
use vela_protocol.Base.Int.{ℤ, pos, ◌+ℤ◌, ◌≤ℤ◌, int_laws, eq_of_parts}
use vela_protocol.Errors.{ok}
use vela_protocol.State.{VelaMandate}
use vela_protocol.Runtime.{Runtime, AccountInfo, moved}
use vela_protocol.Accounts.{
  LoadedMandateAccount, into_current_mandate, is_legacy_mandate, current_from_legacy_mandate,
  legacy_mandate, is_flat,
}
use vela_protocol.Billing.Pull.{ExecutePull, BillingOutcome, Billed, execute_pull}
use vela_protocol.Billing.Payment.{Pullable, Payment, Terms, kept, changed, execute_pull-Pulled}
use vela_protocol.Arcium.Accounts.{ArciumProgram}
use vela_protocol.Billing.Between.{Between, SameTerms, Between-Follows}
use vela_protocol.Billing.Reload.{Writable, Holds, load-write_mandate, load-Writable}

-- Successive pulls on one account, none after `until`, and between them any requests and records, each
-- on what the last one wrote: the number of pulls, and the tokens that they moved under the mandate's
-- authority.
pub data Pulls (rt : Runtime) (ar : ArciumProgram) (until : ℤ)
    : AccountInfo → (count total : ℕ) → AccountInfo → Type 0 where
  none : (a : AccountInfo) → Pulls rt ar until a 0 0 a
  pull :
      (a : AccountInfo) (count total paid : ℕ) (c : ExecutePull) (now : ℤ) (o : BillingOutcome)
      → Pulls rt ar until a count total c.mandate
      → now ≤ℤ until
      → execute_pull rt c now ≡ ok o
      → moved c.subscriber_wrapped_account.key c.merchant_wrapped_account.key c.mandate.key
          o.invocations
        ≡ some paid
      → Pulls rt ar until a (suc count) (total + paid) o.mandate
  between :
      (a at written : AccountInfo) (count total : ℕ)
      → Pulls rt ar until a count total at
      → Between rt ar at written
      → Pulls rt ar until a count total written

-- From `m` to `left` over `count` pulls that moved `total`.
pub record Bounded (m left : VelaMandate) (count total : ℕ) (until : ℤ) : Type 0 where
  pub pulls : left.pulls_executed ≡ m.pulls_executed + count
  pub due : left.next_payment_due ≡ m.next_payment_due +ℤ pos (count * m.frequency)
  pub amount : left.amount ≡ m.amount
  pub frequency : left.frequency ≡ m.frequency
  pub max_pulls : left.max_pulls ≡ m.max_pulls
  pub unscheduled : left.pending_change_type ≡ 0
  pub credit : left.credit_balance ≤ m.credit_balance
  pub spent : total + m.credit_balance ≤ count * m.amount + left.credit_balance
  pub room :
      (count ≡ 0)
      ⊎ ((left.pulls_executed ≤ m.max_pulls) × (left.next_payment_due ≤ℤ until +ℤ pos m.frequency))

Payment-Writable :
    (l : LoadedMandateAccount) (flat : Bool) (now : ℤ) (base paid : ℕ) (next : VelaMandate)
    → Writable l (into_current_mandate l)
    → Payment (into_current_mandate l) flat now base paid next
    → Writable l next
unfolding into_current_mandate current_from_legacy_mandate legacy_mandate
Payment-Writable (LoadedMandateAccount.current m) flat now base paid next w p =
    ap (λ x. x.version) p.after ∙ w
Payment-Writable (LoadedMandateAccount.legacy v) flat now base paid next w p =
    ground (arith, p.after, p.credit)

-- Without a scheduled change a pull charges for the mandate's own terms.
unscheduled-kept :
    (rt : Runtime) (c : ExecutePull) (m : VelaMandate) (now : ℤ) (b : Billed)
    → m.pending_change_type ≡ 0
    → Terms rt c m now b
    → b.mandate ≡ m
unscheduled-kept rt c m now b off (kept never same) = same
unscheduled-kept rt c m now b off (changed info is_due at loads merchant active kind same) =
    absurd (ground arith)

-- What a pull on a mandate with no scheduled change has done.
record Pays (m : VelaMandate) (legacy : Bool) (now : ℤ) (paid : ℕ) (left : AccountInfo)
    : Type 0 where
  pub flat : Bool
  pub base : ℕ
  pub next : VelaMandate
  pub pullable : Pullable m now
  pub payment : Payment m flat now base paid next
  pub holds : Holds left next legacy

pull-Pays :
    (rt : Runtime) (c : ExecutePull) (now : ℤ) (o : BillingOutcome) (m : VelaMandate)
    (legacy : Bool) (paid : ℕ)
    → execute_pull rt c now ≡ ok o
    → moved c.subscriber_wrapped_account.key c.merchant_wrapped_account.key c.mandate.key
        o.invocations
      ≡ some paid
    → Holds c.mandate m legacy
    → m.pending_change_type ≡ 0
    → Pays m legacy now paid o.mandate
pull-Pays rt c now o m legacy paid h moves holds off =
    let r = execute_pull-Pulled rt c now o h in
    let same_loaded : r.loaded ≡ holds.loaded = cc (r.loads, holds.loads) in
    let same : into_current_mandate r.loaded ≡ m =
      ap into_current_mandate same_loaded ∙ holds.current in
    let layout : is_legacy_mandate r.loaded ≡ legacy =
      ap is_legacy_mandate same_loaded ∙ holds.layout in
    let charged : r.billed.mandate ≡ into_current_mandate r.loaded =
      unscheduled-kept rt c (into_current_mandate r.loaded) now r.billed
        (ap (λ x. x.pending_change_type) same ∙ off) r.terms in
    let same_paid : r.paid ≡ paid = cc (r.moves, moves) in
    let payment : Payment (into_current_mandate r.loaded) (is_flat r.billed.active_plan) now r.base
        paid r.next =
      rw (sym charged) (rw (sym same_paid) r.payment) in
    let writable =
      Payment-Writable r.loaded (is_flat r.billed.active_plan) now r.base paid r.next
        (load-Writable c.mandate r.loaded r.loads) payment in
    let written = load-write_mandate c.mandate r.loaded r.next r.loads writable in
    record {
      flat = is_flat r.billed.active_plan;
      base = r.base;
      next = r.next;
      pullable = rw (sym same) r.pullable;
      payment = rw (sym same) payment;
      holds = rw r.writes (rw (sym layout) written);
    }

add_period : (d : ℤ) (n f : ℕ) → (d +ℤ pos (n * f)) +ℤ pos f ≡ d +ℤ pos (suc n * f)
add_period d n f = eq_of_parts (d +ℤ pos (n * f) +ℤ pos f) (d +ℤ pos (suc n * f)) (omega int_laws)

step-Bounded :
    (m at left : VelaMandate) (count total base paid : ℕ) (flat : Bool) (now until : ℤ)
    → Bounded m at count total until
    → now ≤ℤ until
    → Pullable at now
    → Payment at flat now base paid left
    → Bounded m left (suc count) (total + paid) until
step-Bounded m at left count total base paid flat now until b early p pays = record {
  pulls = omega (arith, pays.pulls, b.pulls);
  due = rw pays.due (rw b.due (rw b.frequency (add_period m.next_payment_due count m.frequency)));
  amount = ap (λ x. x.amount) pays.after ∙ b.amount;
  frequency = ap (λ x. x.frequency) pays.after ∙ b.frequency;
  max_pulls = ap (λ x. x.max_pulls) pays.after ∙ b.max_pulls;
  unscheduled = ap (λ x. x.pending_change_type) pays.after ∙ b.unscheduled;
  credit = omega (arith, pays.credit, b.credit);
  spent = omega (arith, pays.charge, pays.credit, pays.within, b.spent, b.amount);
  room = inr (
    omega (arith, pays.pulls, p.room, b.max_pulls),
    rw pays.due (rw b.frequency (omega (int_laws, p.due, early))),
  );
}

-- The counters of requests and records are none of what is bounded.
between-Bounded :
    (m at left : VelaMandate) (count total : ℕ) (until : ℤ)
    → Bounded m at count total until
    → SameTerms at left
    → Bounded m left count total until
between-Bounded m at left count total until b t = rw t.same (record {
  pulls = b.pulls;
  due = b.due;
  amount = b.amount;
  frequency = b.frequency;
  max_pulls = b.max_pulls;
  unscheduled = b.unscheduled;
  credit = b.credit;
  spent = b.spent;
  room = b.room;
})

-- Over any number of pulls on a mandate that has no scheduled change, none after a time, and
-- between them any requests of computations and any records of pulls, each on what the last one
-- wrote: the tokens moved are at most the amount for each pull, less the credit that was used; the
-- amount, the period and the largest number of pulls stay; each pull is counted and moves the due
-- date on by one period; and if there was a pull, their number is within the largest number and the
-- due date at most one period after that time.
pub Pulls-Bounded :
    (rt : Runtime) (ar : ArciumProgram) (until : ℤ) (a left : AccountInfo) (count total : ℕ)
    (m : VelaMandate) (legacy : Bool)
    → Pulls rt ar until a count total left
    → Holds a m legacy
    → m.pending_change_type ≡ 0
    → (after : VelaMandate) × Holds left after legacy × Bounded m after count total until
Pulls-Bounded rt ar until a left count total m legacy (none b) holds off = (
  m,
  holds,
  record {
    pulls = omega arith;
    due =
        eq_of_parts m.next_payment_due (m.next_payment_due +ℤ pos (0 * m.frequency))
          (omega int_laws);
    amount = refl;
    frequency = refl;
    max_pulls = refl;
    unscheduled = off;
    credit = omega arith;
    spent = omega arith;
    room = inl refl;
  },
)
Pulls-Bounded rt ar until a left count total m legacy (pull b n t paid c now o before early h moves)
      holds off =
    let (at, at_holds, bounded) =
      Pulls-Bounded rt ar until a c.mandate n t m legacy before holds off in
    let r = pull-Pays rt c now o at legacy paid h moves at_holds bounded.unscheduled in
    (
      r.next,
      r.holds,
      step-Bounded m at r.next n t r.base paid r.flat now until bounded early r.pullable r.payment,
    )
Pulls-Bounded rt ar until a left count total m legacy (between b at written n t before step) holds
      off =
    let (after, at_holds, bounded) = Pulls-Bounded rt ar until a at n t m legacy before holds off in
    let f = Between-Follows rt ar at written after legacy step at_holds in
    (f.next, f.holds, between-Bounded m after f.next n t until bounded f.terms)
