-- ===== src/Accounts/Mandate.antt =====
-- accounts/mandate_account.rs: loading and writing a subscription's mandate, in either layout.
use vela_protocol.Base.{ℕ, Bool, true, false, ◌==◌, ◌&&◌, ◌||◌, if◌then◌else◌, List, [], ◌∷◌}
use vela_protocol.Base.Int.{ℤ, pos}
use vela_protocol.Base.Machine.{i64_checked_sub, i64_of_u64}
use vela_protocol.Errors.{
  Result, ok, err, vela, program, anchor, VelaError, ProgramError, AnchorError, ◌>>=◌, ◌>>◌,
  require, require_keys_eq, ok_or,
}
use vela_protocol.State.{VelaMandate, VelaMandateV1}
use vela_protocol.Runtime.{
  Runtime, Seed, AccountInfo, AccountData, Layout, program_id, default_pubkey,
  current_account_version,
}

pub data LoadedMandateAccount : Type 0 where
  current : VelaMandate → LoadedMandateAccount
  legacy : VelaMandateV1 → LoadedMandateAccount

unfoldable pub current_from_legacy_mandate : VelaMandateV1 → VelaMandate
current_from_legacy_mandate m = record {
  subscriber = m.subscriber;
  plan = m.plan;
  merchant = m.merchant;
  amount = m.amount;
  frequency = m.frequency;
  start_date = m.start_date;
  expiry = m.expiry;
  max_pulls = m.max_pulls;
  pulls_executed = m.pulls_executed;
  next_payment_due = m.next_payment_due;
  last_pull_at = m.last_pull_at;
  last_billing_recorded_pull = m.last_billing_recorded_pull;
  validation_request_nonce = m.validation_request_nonce;
  billing_request_nonce = m.billing_request_nonce;
  status = m.status;
  bump = m.bump;
  billing_type = m.billing_type;
  mandate_index = 0;
  version = current_account_version;
  credit_balance = 0;
  pending_new_plan = default_pubkey;
  pending_effective_at = pos 0;
  pending_change_type = 0;
  pending_nonce_short = 0;
}

-- The fields that the legacy layout has.
unfoldable pub legacy_mandate : VelaMandate → VelaMandateV1
legacy_mandate m = record {
  subscriber = m.subscriber;
  plan = m.plan;
  merchant = m.merchant;
  amount = m.amount;
  frequency = m.frequency;
  start_date = m.start_date;
  expiry = m.expiry;
  max_pulls = m.max_pulls;
  pulls_executed = m.pulls_executed;
  next_payment_due = m.next_payment_due;
  last_pull_at = m.last_pull_at;
  last_billing_recorded_pull = m.last_billing_recorded_pull;
  validation_request_nonce = m.validation_request_nonce;
  billing_request_nonce = m.billing_request_nonce;
  status = m.status;
  bump = m.bump;
  billing_type = m.billing_type;
}

unfoldable pub into_current_mandate : LoadedMandateAccount → VelaMandate
unfolding current_from_legacy_mandate
into_current_mandate (LoadedMandateAccount.current m) = m
into_current_mandate (LoadedMandateAccount.legacy m) = current_from_legacy_mandate m

unfoldable pub is_legacy_mandate : LoadedMandateAccount → Bool
is_legacy_mandate (LoadedMandateAccount.current m) = false
is_legacy_mandate (LoadedMandateAccount.legacy m) = true

abbrev zero_time : ℤ → Bool
zero_time (pos n) = n == 0
zero_time _ = false

-- Whether all that stands behind the legacy fields is zero.
abbrev pub has_only_zero_padding : VelaMandate → Bool
has_only_zero_padding m =
    m.mandate_index == 0
    && m.version == 0
    && m.credit_balance == 0
    && m.pending_new_plan == 0
    && zero_time m.pending_effective_at
    && m.pending_change_type == 0
    && m.pending_nonce_short == 0

-- The legacy fields are the first of the current ones: data in the current layout with another
-- version decodes as legacy data too.
unfoldable pub decode_mandate : AccountData → Result LoadedMandateAccount
unfolding legacy_mandate
decode_mandate (AccountData.mandate (Layout.current m)) =
    if m.version == current_account_version
    then ok (LoadedMandateAccount.current m)
    else if has_only_zero_padding m
    then ok (LoadedMandateAccount.legacy (legacy_mandate m))
    else err (program ProgramError.invalid_account_data)
decode_mandate (AccountData.mandate (Layout.legacy m padded)) =
    if padded
    then ok (LoadedMandateAccount.legacy m)
    else err (program ProgramError.invalid_account_data)
decode_mandate _ = err (program ProgramError.invalid_account_data)

unfoldable pub load_mandate_account : AccountInfo → Result LoadedMandateAccount
load_mandate_account info = do
  require (info.owner == program_id) (program ProgramError.incorrect_program_id)
  decode_mandate info.contents

-- The period of a mandate's next payment.
unfoldable pub mandate_billing_period : VelaMandate → Result (ℤ × ℤ)
mandate_billing_period m = do
  frequency ← ok_or (i64_of_u64 m.frequency) (vela VelaError.overflow)
  period_start ← ok_or (i64_checked_sub m.next_payment_due frequency) (vela VelaError.overflow)
  ok (period_start, m.next_payment_due)

-- What a legacy account holds behind the legacy fields is zero: an account that has room for the
-- current layout decodes as that, with zeros, and another as the legacy layout.
abbrev pub written_legacy : AccountData → VelaMandate → AccountData
unfolding legacy_mandate current_from_legacy_mandate
written_legacy (AccountData.mandate (Layout.current old)) m =
    AccountData.mandate
      (Layout.current (record (current_from_legacy_mandate (legacy_mandate m)) { version = 0 }))
written_legacy _ m = AccountData.mandate (Layout.legacy (legacy_mandate m) true)

unfoldable pub write_mandate : AccountInfo → VelaMandate → (legacy_layout : Bool) → AccountInfo
write_mandate info m legacy_layout = record info {
  contents =
      if legacy_layout
      then written_legacy info.contents m
      else AccountData.mandate (Layout.current m);
}

-- The layout is that of the loaded account.
unfoldable pub write_mandate_account : AccountInfo → LoadedMandateAccount → AccountInfo
unfolding write_mandate current_from_legacy_mandate
write_mandate_account info (LoadedMandateAccount.current m) = write_mandate info m false
write_mandate_account info (LoadedMandateAccount.legacy m) =
    write_mandate info (current_from_legacy_mandate m) true

abbrev pub v2_mandate_seeds : (subscriber merchant mandate_index : ℕ) → List Seed
v2_mandate_seeds subscriber merchant mandate_index =
    Seed.literal "mandate"
    ∷ Seed.pubkey subscriber
    ∷ Seed.pubkey merchant
    ∷ Seed.u64_le mandate_index
    ∷ []

abbrev pub legacy_mandate_seeds : (subscriber plan : ℕ) → List Seed
legacy_mandate_seeds subscriber plan =
    Seed.literal "mandate" ∷ Seed.pubkey subscriber ∷ Seed.pubkey plan ∷ []

module _ (rt : Runtime) where
  unfoldable pub derive_v2_mandate_address : (subscriber merchant mandate_index : ℕ) → ℕ
  derive_v2_mandate_address subscriber merchant mandate_index =
      (rt.find_program_address (v2_mandate_seeds subscriber merchant mandate_index) program_id).0

  unfoldable pub derive_legacy_mandate_address : (subscriber plan : ℕ) → ℕ
  derive_legacy_mandate_address subscriber plan =
      (rt.find_program_address (legacy_mandate_seeds subscriber plan) program_id).0

  unfoldable pub validate_loaded_mandate_address : ℕ → LoadedMandateAccount → Result (Unit {0})
  unfolding derive_v2_mandate_address derive_legacy_mandate_address
  validate_loaded_mandate_address key (LoadedMandateAccount.legacy m) =
      require_keys_eq key (derive_legacy_mandate_address m.subscriber m.plan)
        (anchor AnchorError.require_keys_eq_violated)
  validate_loaded_mandate_address key (LoadedMandateAccount.current m) =
      let expected_legacy = derive_legacy_mandate_address m.subscriber m.plan in
      let expected_v2 = derive_v2_mandate_address m.subscriber m.merchant m.mandate_index in
      require (key == expected_v2 || key == expected_legacy) (program ProgramError.invalid_seeds)
