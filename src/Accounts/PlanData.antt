-- ===== src/Accounts/PlanData.antt =====
-- accounts/plan_account.rs: loading and writing plans, in either layout, and the hash of their terms.
use vela_protocol.Base.{ℕ, String, Bool, Option, none, some, ◌==◌, if◌then◌else◌, List, [], ◌∷◌}
use vela_protocol.Errors.{
  Result, ok, err, vela, program, VelaError, ProgramError, ◌>>◌, require, require_keys_eq,
}
use vela_protocol.State.{VelaPlan, VelaPlanV1, UsagePlan, UsagePlanV1, PricingTier}
use vela_protocol.Runtime.{
  Runtime, Seed, AccountInfo, AccountData, Decoded, program_id, current_account_version,
}
use vela_protocol.Accounts.Plan.{LoadedPlanAccount}

-- A plan is written in the current version, for which the legacy decoders are not asked.
unfoldable pub write_plan : AccountInfo → VelaPlan → AccountInfo
write_plan info plan = record info {
  contents = AccountData.flat_plan (record { current = some plan; legacy = none }) none;
}

unfoldable pub write_usage_plan : AccountInfo → UsagePlan → AccountInfo
write_usage_plan info plan = record info {
  contents = AccountData.usage_plan (record { current = some plan; legacy = none });
}

-- The account holds the plan in the layout and version that are current.
abbrev pub of_version {ℓ} : {A : Type ℓ} → (version : A → ℕ) → Option A → Option A
of_version version none = none
of_version version (some plan) = if version plan == current_account_version then some plan else none

module _ (rt : Runtime) where
  -- `validate_flat_plan` and `validate_usage_plan`, in both layouts.
  unfoldable pub validate_plan_address :
      (prefix : String) (key merchant plan_id : ℕ) → Result (Unit {0})
  validate_plan_address prefix key merchant plan_id =
      let seeds = Seed.literal prefix ∷ Seed.pubkey merchant ∷ Seed.u64_le plan_id ∷ [] in
      require_keys_eq key (rt.find_program_address seeds program_id).0
        (vela VelaError.billing_type_mismatch)

  -- The last of the attempts: legacy data of a usage plan.
  unfoldable pub load_legacy_usage : ℕ → Option (UsagePlanV1 × Bool) → Result LoadedPlanAccount
  load_legacy_usage key none = err (vela VelaError.billing_type_mismatch)
  load_legacy_usage key (some (p, padded)) = do
    require padded (program ProgramError.invalid_account_data)
    validate_plan_address "usage_plan" key p.merchant p.plan_id
    ok (LoadedPlanAccount.legacy_usage p)

  unfoldable pub load_usage_plan_inner :
      ℕ → Decoded UsagePlan UsagePlanV1 → Result LoadedPlanAccount
  unfolding load_legacy_usage
  load_usage_plan_inner key decoded =
      elim (of_version (λ (p : UsagePlan). p.version) decoded.current) [
        | some p ↦ (do
          validate_plan_address "usage_plan" key p.merchant p.plan_id
          ok (LoadedPlanAccount.usage p))
        | none ↦ load_legacy_usage key decoded.legacy
      ]

  unfoldable pub load_legacy_flat :
      ℕ → Option (VelaPlanV1 × Bool) → Option (UsagePlanV1 × Bool) → Result LoadedPlanAccount
  unfolding load_legacy_usage
  load_legacy_flat key (some (p, padded)) as_usage = do
    require padded (program ProgramError.invalid_account_data)
    validate_plan_address "plan" key p.merchant p.plan_id
    ok (LoadedPlanAccount.legacy_flat p)
  load_legacy_flat key none as_usage = load_legacy_usage key as_usage

  unfoldable pub load_flat_plan :
      ℕ → Decoded VelaPlan VelaPlanV1 → Option (UsagePlanV1 × Bool) → Result LoadedPlanAccount
  unfolding load_legacy_flat
  load_flat_plan key decoded as_usage =
      elim (of_version (λ (p : VelaPlan). p.version) decoded.current) [
        | some p ↦ (do
          validate_plan_address "plan" key p.merchant p.plan_id
          ok (LoadedPlanAccount.flat p))
        | none ↦ load_legacy_flat key decoded.legacy as_usage
      ]

  -- By the discriminator of the data.
  unfoldable pub decode_plan : ℕ → AccountData → Result LoadedPlanAccount
  unfolding load_usage_plan_inner load_flat_plan
  decode_plan key (AccountData.flat_plan decoded as_usage) = load_flat_plan key decoded as_usage
  decode_plan key (AccountData.usage_plan decoded) = load_usage_plan_inner key decoded
  decode_plan key _ = err (vela VelaError.billing_type_mismatch)

  unfoldable pub load_plan_account : AccountInfo → Result LoadedPlanAccount
  load_plan_account info = do
    require (info.owner == program_id) (vela VelaError.billing_type_mismatch)
    decode_plan info.key info.contents

  abbrev tier_bytes : List PricingTier → List Seed
  tier_bytes [] = []
  tier_bytes (tier ∷ rest) =
      Seed.u64_le tier.up_to ∷ Seed.u64_le tier.rate_per_unit ∷ tier_bytes rest

  unfoldable pub usage_plan_terms_hash_from_parts :
      (plan_key merchant plan_id : ℕ) (tiers : List PricingTier)
      (tier_count max_charge_per_period settlement_frequency : ℕ)
      → ℕ
  usage_plan_terms_hash_from_parts plan_key merchant plan_id tiers tier_count max_charge_per_period
        settlement_frequency =
      rt.hash (
        Seed.literal "vela-usage-plan-terms-v1"
        ∷ Seed.pubkey plan_key
        ∷ Seed.pubkey merchant
        ∷ Seed.u64_le plan_id
        ∷ Seed.u8 tier_count
        ∷ Seed.u64_le max_charge_per_period
        ∷ Seed.u64_le settlement_frequency
        ∷ tier_bytes tiers)

  unfoldable pub usage_terms_hash : LoadedPlanAccount → (plan_key : ℕ) → Result ℕ
  unfolding usage_plan_terms_hash_from_parts
  usage_terms_hash (LoadedPlanAccount.usage p) plan_key = ok (
      usage_plan_terms_hash_from_parts plan_key p.merchant p.plan_id p.tiers p.tier_count
        p.max_charge_per_period p.settlement_frequency)
  usage_terms_hash (LoadedPlanAccount.legacy_usage p) plan_key = ok (
      usage_plan_terms_hash_from_parts plan_key p.merchant p.plan_id p.tiers p.tier_count
        p.max_charge_per_period p.settlement_frequency)
  usage_terms_hash _ plan_key = err (vela VelaError.billing_type_mismatch)
