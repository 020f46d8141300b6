-- ===== src/Stream/Handlers/Create.antt =====
-- streaming/create_stream_mandate.rs
use vela_protocol.Base.{ℕ, ltb, leb, ◌==◌, Option, none, [], ◌∷◌, ◌++◌}
use vela_protocol.Base.Int.{ℤ, pos}
use vela_protocol.Base.Machine.{u64_checked_add}
use vela_protocol.Errors.{
  Result, ok, vela, program, anchor, VelaError, ProgramError, AnchorError, ◌>>=◌, ◌>>◌, require,
  require_keys_eq, ok_or,
}
use vela_protocol.State.{StreamMandate, StreamStatus, TokenConfig, MerchantState, is_transfer_hook}
use vela_protocol.Runtime.{
  Runtime, Seed, AccountInfo, Event, Loaded, Instruction, Invocation, program_id, data_is_empty,
  require_created, require_program, current_account_version,
}
use vela_protocol.Stream.Account.{stream_seeds, write_stream_mandate}
use vela_protocol.Stream.Handlers.Control.{StreamOutcome}

pub record CreateStreamMandate : Type 0 where
  pub subscriber : ℕ
  pub merchant_state : Loaded MerchantState
  pub mandate : AccountInfo
  pub mint : ℕ
  pub token_config : Loaded TokenConfig
  pub payer : ℕ
  pub system_program : ℕ

pub record CreateArgs : Type 0 where
  pub rate_per_second : ℕ
  pub authorized_max_rate : ℕ
  pub max_streamed : Option ℕ
  pub min_settle_interval : ℕ

-- `StreamMandate::SIZE`
abbrev stream_mandate_size : ℕ
stream_mandate_size = 225

-- The checks of the arguments and of the token.
unfoldable pub check_stream_terms : CreateStreamMandate → CreateArgs → Result (Unit {0})
check_stream_terms c a = do
  require (leb 60 a.min_settle_interval) (vela VelaError.min_settle_interval_too_low)
  require (ltb 0 a.rate_per_second) (vela VelaError.rate_must_be_non_zero)
  require (leb a.rate_per_second a.authorized_max_rate) (vela VelaError.authorized_max_rate_too_low)
  require c.token_config.state.enabled (vela VelaError.token_disabled)
  require (is_transfer_hook c.token_config.state.billing_rail) (vela VelaError.invalid_billing_rail)
  require_keys_eq c.token_config.state.mint c.mint (vela VelaError.token_not_registered)

-- The stream that is written.
abbrev pub new_stream : CreateStreamMandate → CreateArgs → ℕ → ℤ → StreamMandate
new_stream c a bump clock_now = record {
  version = current_account_version;
  subscriber = c.subscriber;
  merchant = c.merchant_state.state.merchant;
  mint = c.mint;
  rate_per_second = a.rate_per_second;
  authorized_max_rate = a.authorized_max_rate;
  last_settled_ts = clock_now;
  total_streamed = 0;
  max_streamed = a.max_streamed;
  paused_at = none;
  min_settle_interval = a.min_settle_interval;
  status = StreamStatus.active;
  mandate_index = c.merchant_state.state.stream_mandate_counter;
  bump = bump;
  pending_new_rate_per_second = 0;
  pending_new_authorized_max_rate = 0;
  pending_effective_at = pos 0;
  pending_change_type = 0;
  pending_nonce_short = 0;
}

module _ (rt : Runtime) where
  unfoldable pub check_create_accounts : CreateStreamMandate → Result (Unit {0})
  check_create_accounts c = do
    let config = c.token_config.state
    let seeds = Seed.literal "token_config" ∷ Seed.pubkey c.mint ∷ Seed.bump config.bump ∷ []
    require_created (rt.create_program_address seeds program_id) c.token_config.key
    require_program c.system_program rt.system_program_id

  -- accounts/merchant_account.rs
  unfoldable pub validate_merchant_state_address : ℕ → ℕ → Result (Unit {0})
  validate_merchant_state_address key merchant =
      let seeds = Seed.literal "merchant" ∷ Seed.pubkey merchant ∷ [] in
      require (key == (rt.find_program_address seeds program_id).0)
        (program ProgramError.invalid_seeds)

  -- The merchant's state is written too.
  unfoldable pub create_stream_mandate :
      CreateStreamMandate → CreateArgs → ℤ → Result (StreamOutcome × MerchantState)
  create_stream_mandate c a clock_now = do
    check_create_accounts c
    check_stream_terms c a
    let merchant_state = c.merchant_state.state
    validate_merchant_state_address c.merchant_state.key merchant_state.merchant
    let index = merchant_state.stream_mandate_counter
    let seeds = stream_seeds c.subscriber merchant_state.merchant index
    let (expected_mandate, bump) = rt.find_program_address seeds program_id
    require_keys_eq c.mandate.key expected_mandate (anchor AnchorError.require_keys_eq_violated)
    require (data_is_empty c.mandate.contents) (program ProgramError.account_already_initialized)
    let create : Invocation = record {
      instruction =
          Instruction.create_account c.payer c.mandate.key (rt.minimum_balance stream_mandate_size)
            stream_mandate_size program_id;
      signer_seeds = seeds ++ Seed.bump bump ∷ [];
    }
    rt.invoke create
    let mandate = new_stream c a bump clock_now
    counter ← ok_or (u64_checked_add index 1) (vela VelaError.overflow)
    let event = Event.stream_created (record {
      schema_version = 1;
      mandate = c.mandate.key;
      subscriber = mandate.subscriber;
      merchant = mandate.merchant;
      mint = mandate.mint;
      token_symbol = "";
      rate_per_second = mandate.rate_per_second;
      authorized_max_rate = mandate.authorized_max_rate;
      max_streamed = mandate.max_streamed;
      min_settle_interval = mandate.min_settle_interval;
      timestamp = clock_now;
    })
    let outcome : StreamOutcome = record {
      mandate = write_stream_mandate (record c.mandate { owner = program_id }) mandate;
      invocations = create ∷ [];
      events = event ∷ [];
    }
    ok (outcome, record merchant_state { stream_mandate_counter = counter })
