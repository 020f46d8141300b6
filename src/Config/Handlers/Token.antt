-- ===== src/Config/Handlers/Token.antt =====
-- config/init_token_config.rs and config/update_token_config.rs
use vela_protocol.Base.{ℕ, Bool, true, Option, none, some, ◌==◌, ◌||◌, is_some, [], ◌∷◌, List}
use vela_protocol.Base.Int.{ℤ}
use vela_protocol.Errors.{Result, ok, vela, anchor, VelaError, AnchorError, ◌>>◌, require}
use vela_protocol.State.{TokenConfig, BillingRail}
use vela_protocol.Runtime.{
  Runtime, Seed, AccountInfo, Loaded, Event, program_id, default_pubkey, current_account_version,
  require_created,
}
use vela_protocol.Config.Handlers.Pause.{check_config_address, require_admin}

-- `admin` has signed; `token_config` is the account that Anchor has created.
pub record InitTokenConfig : Type 0 where
  pub admin : ℕ
  pub protocol_config : AccountInfo
  pub mint : ℕ
  pub mint_program : ℕ
  pub mint_decimals : ℕ
  pub token_config : ℕ

pub record UpdateTokenConfig : Type 0 where
  pub admin : ℕ
  pub protocol_config : AccountInfo
  pub token_config : Loaded TokenConfig

pub record TokenOutcome : Type 0 where
  pub token_config : Loaded TokenConfig
  pub events : List Event

abbrev pub set_enabled : TokenConfig → Option Bool → TokenConfig
set_enabled config none = config
set_enabled config (some enabled) = record config { enabled = enabled }

abbrev pub set_oracle : TokenConfig → Option ℕ → TokenConfig
set_oracle config none = config
set_oracle config (some key) = record config { oracle_reference = key }

module _ (rt : Runtime) where
  unfoldable pub init_token_config : InitTokenConfig → BillingRail → ℕ → ℤ → Result TokenOutcome
  init_token_config c billing_rail decimals now = do
    check_config_address rt c.protocol_config.key
    let seeds = Seed.literal "token_config" ∷ Seed.pubkey c.mint ∷ []
    let (address, bump) = rt.find_program_address seeds program_id
    require (c.token_config == address) (anchor AnchorError.constraint_seeds)
    require_admin rt c.protocol_config c.admin
    require (c.mint_decimals == decimals) (vela VelaError.token_config_decimals_mismatch)
    let config : TokenConfig = record {
      mint = c.mint;
      token_program = c.mint_program;
      billing_rail = billing_rail;
      decimals = decimals;
      enabled = true;
      oracle_reference = default_pubkey;
      admin = c.admin;
      created_at = now;
      bump = bump;
      version = current_account_version;
    }
    let event = Event.token_config_created (record {
      mint = c.mint;
      billing_rail = billing_rail;
      decimals = decimals;
      admin = c.admin;
    })
    ok (record {
      token_config = record { key = c.token_config; state = config };
      events = event ∷ [];
    })

  unfoldable pub update_token_config :
      UpdateTokenConfig
      → (enabled : Option Bool) → (oracle_reference : Option ℕ) → Result TokenOutcome
  update_token_config c enabled oracle_reference = do
    let config = c.token_config.state
    check_config_address rt c.protocol_config.key
    let seeds = Seed.literal "token_config" ∷ Seed.pubkey config.mint ∷ Seed.bump config.bump ∷ []
    require_created (rt.create_program_address seeds program_id) c.token_config.key
    require (is_some enabled || is_some oracle_reference) (vela VelaError.no_update_provided)
    require_admin rt c.protocol_config c.admin
    let updated = set_oracle (set_enabled config enabled) oracle_reference
    let event =
        Event.token_config_updated
          (record { mint = config.mint; enabled = enabled; oracle_reference = oracle_reference })
    ok (record {
      token_config = record { key = c.token_config.key; state = updated };
      events = event ∷ [];
    })
