-- ===== src/Errors.antt =====
-- errors.rs: the protocol's error codes, beside those of the Solana runtime and of Anchor that the
-- handlers return, and the result monad of the instruction handlers.
use vela_protocol.Base.{◌⊎◌, inl, inr, Bool, true, false, Option, none, some, ◌≡◌, refl, ◌==◌, ℕ}

pub data VelaError : Type 0 where
  pull_too_early mandate_not_active max_pulls_exceeded insufficient_balance unauthorized_cancel :
      VelaError
  frequency_too_low overflow plan_not_active mandate_expired amount_exceeds_plan_amount : VelaError
  max_pulls_too_low approval_not_granted approval_expired aborted_computation cluster_not_set :
      VelaError
  unauthorized_admin approval_already_exists arcium_unavailable invalid_ciphertext_input : VelaError
  pending_billing_record billing_event_already_exists invalid_arcium_account : VelaError
  invalid_protocol_config invalid_callback_binding invalid_computation_offset : VelaError
  wrapped_mint_already_initialized transfer_not_authorized vault_mismatch usdc_mint_mismatch :
      VelaError
  wrapped_mint_not_initialized unauthorized_agent unauthorized_service too_many_services : VelaError
  duplicate_service mandate_paused mandate_revoked daily_limit_exceeded : VelaError
  service_daily_limit_exceeded lifetime_cap_exceeded pull_amount_too_small pull_cooldown_active :
      VelaError
  invalid_service_list agent_mandate_already_exists agent_mandate_not_found : VelaError
  insufficient_mandate_balance no_funds_to_drain invalid_agent_mandate_status_transition : VelaError
  unauthorized_agent_mandate_authority endpoint_too_long endpoint_empty : VelaError
  invalid_keeper_authority unauthorized_keeper no_update_provided invalid_tier_count : VelaError
  billing_type_mismatch invalid_period period_mismatch invalid_amount invalid_frequency : VelaError
  invalid_tier_boundary protocol_paused usage_report_already_settled : VelaError
  arcium_request_already_pending invalid_arcium_request_state usage_pricing_overflow_risk :
      VelaError
  mandate_version_unsupported plan_version_unsupported migration_precondition_failed : VelaError
  agent_mandate_version_unsupported token_not_registered token_already_registered : VelaError
  token_disabled invalid_billing_rail meta_list_already_initialized wrong_account_type : VelaError
  stream_not_active stream_already_paused stream_already_cancelled : VelaError
  min_settle_interval_violation amount_exceeds_stream_rate stream_cap_exceeded clock_regression :
      VelaError
  rate_must_be_non_zero min_settle_interval_too_low authorized_max_rate_too_low : VelaError
  unauthorized_stream_signer invalid_stream_address token_change_not_supported : VelaError
  token_config_decimals_mismatch no_pending_change pending_plan_account_missing : VelaError
  unauthorized_upgrade math_div_by_zero math_overflow math_underflow invalid_elapsed : VelaError

pub data ProgramError : Type 0 where
  incorrect_program_id invalid_account_data invalid_seeds : ProgramError
  account_already_initialized invalid_instruction_data borsh_io_error : ProgramError

-- The checks that Anchor makes for `#[account(...)]`, and a `require_keys_eq!` with no code.
pub data AnchorError : Type 0 where
  constraint_seeds constraint_address constraint_owner constraint_token_mint : AnchorError
  constraint_token_owner constraint_token_program constraint_raw : AnchorError
  require_keys_eq_violated invalid_program_id account_did_not_serialize : AnchorError

pub data Error : Type 0 where
  vela : VelaError → Error
  program : ProgramError → Error
  anchor : AnchorError → Error

pub data Result {ℓ} (A : Type ℓ) : Type ℓ where
  err : Error → Result A
  ok : A → Result A

-- `require!(condition, error)`
abbrev pub require : (condition : Bool) → (error : Error) → Result (Unit {0})
require false error = err error
require true error = ok tt

-- `require_keys_eq!(a, b, error)`
abbrev pub require_keys_eq : (key expected : ℕ) → (error : Error) → Result (Unit {0})
require_keys_eq key expected error = require (key == expected) error

-- `option.ok_or(error)?`
abbrev pub ok_or {ℓ} : {A : Type ℓ} → Option A → (error : Error) → Result A
ok_or (some value) error = ok value
ok_or none error = err error

-- The `?` operator: the first error ends the handler. An `abbrev` computes wherever it stands.
infixl 5 ◌>>=◌
abbrev pub ◌>>=◌ {κ ℓ} : {B : Type κ} {A : Type ℓ} → Result B → (B → Result A) → Result A
err error >>= continue = err error
ok value >>= continue = continue value

-- To split on a computation and keep the equation.
pub Result-cases {ℓ} :
    {A : Type ℓ} (r : Result A) → ((a : A) × (r ≡ ok a)) ⊎ ((e : Error) × (r ≡ err e))
Result-cases (ok a) = inl (a, refl)
Result-cases (err e) = inr (e, refl)

infixl 5 ◌>>◌
abbrev pub ◌>>◌ {ℓ} : {A : Type ℓ} → (first : Result (Unit {0})) → (second : Result A) → Result A
first >> second = first >>= λ _. second
