-- ===== src/Plans/Terms.antt =====
-- plans/update_mandate.rs: the account of a mandate is enlarged, and its terms stay.
use vela_protocol.Base.{
  ℕ, Bool, true, false, Option, none, some, ◌-◌, ltb, ◌==◌, ◌||◌, if◌then◌else◌, is_some, List, [],
  ◌∷◌, ◌≡◌, inl, inr, arith, Bool-cases,
}
use vela_protocol.Errors.{
  Result, ok, vela, VelaError, ◌>>=◌, ◌>>◌, require, require_keys_eq, Result-cases,
}
use vela_protocol.State.{VelaMandate, BillingType, is_plan_active}
use vela_protocol.Runtime.{
  Runtime, AccountInfo, AccountData, Layout, Instruction, Invocation, require_program,
}
use vela_protocol.Accounts.{
  LoadedPlanAccount, load_plan_account, plan_merchant, plan_status, plan_billing_type,
  same_billing_type, LoadedMandateAccount, load_mandate_account, decode_mandate,
  validate_loaded_mandate_address, into_current_mandate, is_legacy_mandate,
  current_from_legacy_mandate, legacy_mandate, write_mandate_account,
}
use vela_protocol.Billing.Pull.{is_mandate_active}
use vela_protocol.Billing.Reload.{
  Holds, load-contents, contents-load, load-write_mandate, load-Writable,
}
use vela_protocol.Plans.Subscribe.{vela_mandate_size}

-- `merchant` has signed; `mandate_data_len` is the length of the data of the mandate.
pub record UpdateMandate : Type 0 where
  pub merchant : ℕ
  pub plan : AccountInfo
  pub mandate : AccountInfo
  pub mandate_data_len : ℕ
  pub system_program : ℕ

pub record MandateTerms : Type 0 where
  pub amount : Option ℕ
  pub frequency : Option ℕ
  pub max_pulls : Option ℕ
  pub billing_type : Option BillingType
  pub plan : Option ℕ

pub record MandateUpdated : Type 0 where
  pub mandate : AccountInfo
  pub invocations : List Invocation

unfoldable pub is_update : MandateTerms → Bool
is_update t =
    is_some t.amount
    || is_some t.frequency
    || is_some t.max_pulls
    || is_some t.billing_type
    || is_some t.plan

-- `if let Some(next) = update { require!(next == old, UnauthorizedUpgrade) }`
unfoldable pub require_same : (old : ℕ) → Option ℕ → Result (Unit {0})
require_same old none = ok tt
require_same old (some next) = require (next == old) (vela VelaError.unauthorized_upgrade)

unfoldable pub require_same_type :
    (old target : BillingType) → Option BillingType → Result (Unit {0})
require_same_type old target none = ok tt
require_same_type old target (some next) = do
  require (same_billing_type next old) (vela VelaError.unauthorized_upgrade)
  require (same_billing_type next target) (vela VelaError.billing_type_mismatch)

-- The checks that nothing changes.
unfoldable pub check_same_terms : VelaMandate → LoadedPlanAccount → MandateTerms → Result (Unit {0})
unfolding require_same require_same_type
check_same_terms m target_plan t = do
  require_same m.amount t.amount
  require_same m.frequency t.frequency
  require_same m.max_pulls t.max_pulls
  require_same m.plan t.plan
  require_same_type m.billing_type (plan_billing_type target_plan) t.billing_type

abbrev pub target_plan_key : VelaMandate → Option ℕ → ℕ
target_plan_key m none = m.plan
target_plan_key m (some key) = key

-- The data after the resizing: behind the legacy fields there is room for the current ones, all zero.
unfoldable pub resized : AccountData → AccountData
unfolding current_from_legacy_mandate
resized (AccountData.mandate (Layout.legacy m true)) =
    AccountData.mandate (Layout.current (record (current_from_legacy_mandate m) { version = 0 }))
resized contents = contents

module _ (rt : Runtime) where
  unfoldable pub ensure_min_mandate_size :
      (payer data_len : ℕ) → AccountInfo → Result (AccountInfo × List Invocation)
  unfolding resized
  ensure_min_mandate_size payer data_len info =
      let required_lamports = rt.minimum_balance vela_mandate_size in
      if ltb data_len vela_mandate_size
      then (if ltb info.lamports required_lamports
          then (do
            let call : Invocation = record {
              instruction = Instruction.transfer payer info.key (required_lamports - info.lamports);
              signer_seeds = [];
            }
            rt.invoke call
            ok (
              record info { lamports = required_lamports; contents = resized info.contents },
              call ∷ [],
            ))
          else ok (record info { contents = resized info.contents }, []))
      else ok (info, [])

  unfoldable pub update_mandate : UpdateMandate → MandateTerms → Result MandateUpdated
  update_mandate c t = do
    require_program c.system_program rt.system_program_id
    require (is_update t) (vela VelaError.no_update_provided)
    loaded ← load_mandate_account c.mandate
    validate_loaded_mandate_address rt c.mandate.key loaded
    let mandate = into_current_mandate loaded
    require_keys_eq mandate.merchant c.merchant (vela VelaError.unauthorized_cancel)
    require (is_mandate_active mandate.status) (vela VelaError.mandate_not_active)
    require_keys_eq c.plan.key (target_plan_key mandate t.plan)
        (vela VelaError.migration_precondition_failed)
    target_plan ← load_plan_account rt c.plan
    require_keys_eq (plan_merchant target_plan) c.merchant (vela VelaError.unauthorized_cancel)
    require (is_plan_active (plan_status target_plan)) (vela VelaError.plan_not_active)
    (enlarged, calls) ← ensure_min_mandate_size c.merchant c.mandate_data_len c.mandate
    check_same_terms mandate target_plan t
    ok (record { mandate = write_mandate_account enlarged loaded; invocations = calls })

decode-resized :
    (d : AccountData) (l : LoadedMandateAccount)
    → decode_mandate d ≡ ok l
    → decode_mandate (resized d) ≡ ok l
unfolding decode_mandate resized legacy_mandate current_from_legacy_mandate
decode-resized (AccountData.mandate (Layout.legacy m true)) l h = h
decode-resized (AccountData.mandate (Layout.legacy m false)) l h = h
decode-resized (AccountData.mandate (Layout.current m)) l h = h
decode-resized d l h = ground arith

-- The enlarged account loads as before.
ensure_min_mandate_size-loads :
    (rt : Runtime) (payer data_len : ℕ) (info left : AccountInfo) (calls : List Invocation)
    (l : LoadedMandateAccount)
    → ensure_min_mandate_size rt payer data_len info ≡ ok (left, calls)
    → load_mandate_account info ≡ ok l
    → load_mandate_account left ≡ ok l
unfolding ensure_min_mandate_size
ensure_min_mandate_size-loads rt payer data_len info left calls l h loads =
    let (own, decodes) = load-contents info l loads in
    let larger = decode-resized info.contents l decodes in
    elim (Bool-cases (ltb data_len vela_mandate_size)) [
      | inl small ↦ contents-load left l (ground (arith, own)) (ground (arith, larger))
      | inr big ↦ contents-load left l (ground (arith, own)) (ground (arith, decodes))
    ]

write_mandate_account-Holds :
    (info : AccountInfo) (l : LoadedMandateAccount)
    → load_mandate_account info ≡ ok l
    → Holds (write_mandate_account info l) (into_current_mandate l) (is_legacy_mandate l)
unfolding write_mandate_account into_current_mandate is_legacy_mandate
write_mandate_account-Holds info (LoadedMandateAccount.current m) h =
    load-write_mandate info (LoadedMandateAccount.current m) m h
      (load-Writable info (LoadedMandateAccount.current m) h)
write_mandate_account-Holds info (LoadedMandateAccount.legacy m) h =
    load-write_mandate info (LoadedMandateAccount.legacy m) (current_from_legacy_mandate m) h
      (load-Writable info (LoadedMandateAccount.legacy m) h)

-- An update that succeeds leaves an account that loads as the mandate that it was, in its layout.
update_mandate-Holds :
    (rt : Runtime) (c : UpdateMandate) (t : MandateTerms) (o : MandateUpdated)
    → update_mandate rt c t ≡ ok o
    → (l : LoadedMandateAccount) × (load_mandate_account c.mandate ≡ ok l)
      × Holds o.mandate (into_current_mandate l) (is_legacy_mandate l)
unfolding update_mandate
update_mandate-Holds rt c t o h = elim (Result-cases (load_mandate_account c.mandate)) [
  | inr bad ↦ absurd (ground arith)
  | inl (l, e) ↦
      elim (Result-cases (ensure_min_mandate_size rt c.merchant c.mandate_data_len c.mandate)) [
        | inr bad ↦ absurd (ground arith)
        | inl ((left, calls), grows) ↦
            let loads =
              ensure_min_mandate_size-loads rt c.merchant c.mandate_data_len c.mandate left calls l
                grows e in
            let writes : o.mandate ≡ write_mandate_account left l = ground arith in
            (l, e, rw writes (write_mandate_account-Holds left l loads))
      ]
]
