-- ===== src/Config/Handlers/Keeper.antt =====
-- config/init_keeper_config.rs, config/update_keeper_config.rs and the initialisation of
-- accounts/keeper_config_account.rs
use vela_protocol.Base.{
  ℕ, suc, not, Option, none, some, ◌-◌, ◌%◌, leb, ◌==◌, ◌||◌, is_some, [], ◌∷◌, ◌++◌, List, length,
  zero, take, min,
}
use vela_protocol.Errors.{
  Result, ok, vela, program, anchor, VelaError, ProgramError, AnchorError, ◌>>=◌, ◌>>◌, require,
}
use vela_protocol.State.{KeeperConfig, KeeperMode}
use vela_protocol.Runtime.{
  Runtime, Seed, AccountInfo, Instruction, Invocation, Event, program_id, default_pubkey,
  data_is_empty, current_account_version,
}
use vela_protocol.Accounts.{
  load_keeper_config, upgrade_keeper_config, write_keeper_config, keeper_config_size,
}
use vela_protocol.Config.Handlers.Pause.{ConfigOutcome, check_config_address, require_admin}

-- The accounts of `InitKeeperConfig` and of `UpdateKeeperConfig`. `admin` has signed.
pub record UpdateKeeperConfig : Type 0 where
  pub admin : ℕ
  pub protocol_config : AccountInfo
  pub keeper_config : AccountInfo

pub record KeeperUpdate : Type 0 where
  pub mode : Option KeeperMode
  pub keeper_endpoint : Option (List ℕ)
  pub keeper_authority : Option ℕ

abbrev pub zeros : ℕ → List ℕ
zeros zero = []
zeros (suc n) = 0 ∷ zeros n

-- `[0u8; 128]` with the bytes copied to its beginning.
unfoldable pub endpoint_bytes : List ℕ → List ℕ
endpoint_bytes bytes = bytes ++ zeros (128 - length bytes)

-- `KeeperConfig::endpoint`
unfoldable pub endpoint : KeeperConfig → List ℕ
endpoint config =
    take (min config.endpoint_len (length config.keeper_endpoint)) config.keeper_endpoint

abbrev pub set_endpoint : KeeperConfig → List ℕ → KeeperConfig
set_endpoint config bytes = record config {
  endpoint_len = length bytes % 256;
  keeper_endpoint = endpoint_bytes bytes;
}

-- `keeper_endpoint.len() <= 128` and `!is_empty()`
unfoldable pub check_endpoint : List ℕ → Result (Unit {0})
check_endpoint bytes = do
  require (leb (length bytes) 128) (vela VelaError.endpoint_too_long)
  require (not (length bytes == 0)) (vela VelaError.endpoint_empty)

unfoldable pub check_keeper_update : KeeperUpdate → Result (Unit {0})
check_keeper_update update = do
  require (is_some update.mode || is_some update.keeper_endpoint || is_some update.keeper_authority)
      (vela VelaError.no_update_provided)
  elim update.keeper_endpoint [ none ↦ ok tt | some bytes ↦ check_endpoint bytes ]
  elim update.keeper_authority [
    | none ↦ ok tt
    | some key ↦ require (not (key == default_pubkey)) (vela VelaError.invalid_keeper_authority)
  ]

-- The three fields that are set where the update has them.
abbrev pub set_mode : KeeperConfig → Option KeeperMode → KeeperConfig
set_mode config none = config
set_mode config (some mode) = record config { mode = mode }

abbrev pub set_some_endpoint : KeeperConfig → Option (List ℕ) → KeeperConfig
set_some_endpoint config none = config
set_some_endpoint config (some bytes) = set_endpoint config bytes

abbrev pub set_authority : KeeperConfig → Option ℕ → KeeperConfig
set_authority config none = config
set_authority config (some key) = record config { keeper_authority = key }

unfoldable pub apply_keeper_update : KeeperConfig → KeeperUpdate → KeeperConfig
apply_keeper_update config update =
    set_authority (set_some_endpoint (set_mode config update.mode) update.keeper_endpoint)
      update.keeper_authority

-- `KeeperConfig::new`
abbrev pub new_keeper_config :
    (admin : ℕ)
    → KeeperMode
    → (keeper_endpoint : List ℕ) → (keeper_authority bump : ℕ) → KeeperConfig
new_keeper_config admin mode keeper_endpoint keeper_authority bump = record {
  admin = admin;
  mode = mode;
  keeper_endpoint = endpoint_bytes keeper_endpoint;
  endpoint_len = length keeper_endpoint % 256;
  keeper_authority = keeper_authority;
  bump = bump;
  version = current_account_version;
}

module _ (rt : Runtime) where
  -- `seeds = [KeeperConfig::SEED_PREFIX], bump`
  abbrev pub keeper_config_address : ℕ × ℕ
  keeper_config_address = rt.find_program_address (Seed.literal "keeper-config" ∷ []) program_id

  unfoldable pub initialize_keeper_config :
      (payer : ℕ) → AccountInfo → KeeperConfig → Result (AccountInfo × Invocation)
  initialize_keeper_config payer info config = do
    require (info.key == keeper_config_address.0) (program ProgramError.invalid_seeds)
    require (data_is_empty info.contents) (program ProgramError.account_already_initialized)
    let lamports = rt.minimum_balance keeper_config_size
    let create : Invocation = record {
      instruction =
          Instruction.create_account payer info.key lamports keeper_config_size program_id;
      signer_seeds = Seed.literal "keeper-config" ∷ Seed.bump config.bump ∷ [];
    }
    rt.invoke create
    let created = record info { owner = program_id; lamports = lamports }
    ok (write_keeper_config created config, create)

  unfoldable pub init_keeper_config :
      UpdateKeeperConfig → KeeperMode → List ℕ → ℕ → Result ConfigOutcome
  init_keeper_config c mode endpoint authority = do
    check_config_address rt c.protocol_config.key
    require (c.keeper_config.key == keeper_config_address.0) (anchor AnchorError.constraint_seeds)
    check_endpoint endpoint
    require (not (authority == default_pubkey)) (vela VelaError.invalid_keeper_authority)
    require_admin rt c.protocol_config c.admin
    let config = new_keeper_config c.admin mode endpoint authority keeper_config_address.1
    (account, create) ← initialize_keeper_config c.admin c.keeper_config config
    let event = Event.keeper_config_initialized (record {
      admin = config.admin;
      mode = config.mode;
      keeper_authority = config.keeper_authority;
    })
    ok (record { account = account; invocations = create ∷ []; events = event ∷ [] })

  unfoldable pub update_keeper_config : UpdateKeeperConfig → KeeperUpdate → Result ConfigOutcome
  update_keeper_config c update = do
    check_config_address rt c.protocol_config.key
    require (c.keeper_config.key == keeper_config_address.0) (anchor AnchorError.constraint_seeds)
    check_keeper_update update
    require_admin rt c.protocol_config c.admin
    existing_keeper ← load_keeper_config rt c.keeper_config
    (config, account, calls) ← upgrade_keeper_config rt c.admin c.keeper_config
    let updated = apply_keeper_update config update
    let event = Event.keeper_config_updated (record {
      admin = c.admin;
      mode = updated.mode;
      keeper_authority = updated.keeper_authority;
    })
    ok (record {
      account = write_keeper_config account updated;
      invocations = calls;
      events = event ∷ [];
    })
