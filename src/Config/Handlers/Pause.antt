-- ===== src/Config/Handlers/Pause.antt =====
-- config/pause_protocol.rs and config/unpause_protocol.rs, and what the handlers share.
use vela_protocol.Base.{ℕ, Bool, true, false, ◌==◌, [], ◌∷◌, List}
use vela_protocol.Base.Int.{ℤ, pos}
use vela_protocol.Errors.{
  Result, ok, vela, anchor, VelaError, AnchorError, ◌>>=◌, ◌>>◌, require, require_keys_eq,
}
use vela_protocol.Runtime.{Runtime, Seed, AccountInfo, Invocation, Event, program_id}
use vela_protocol.Accounts.{
  load_protocol_config, config_admin, upgrade_protocol_config, write_protocol_config,
}

-- What a handler leaves in the account that it writes.
pub record ConfigOutcome : Type 0 where
  pub account : AccountInfo
  pub invocations : List Invocation
  pub events : List Event

-- The accounts of `PauseProtocol` and of `UnpauseProtocol`. `admin` has signed.
pub record PauseProtocol : Type 0 where
  pub admin : ℕ
  pub config : AccountInfo

module _ (rt : Runtime) where
  -- `seeds = [ProtocolConfig::SEED_PREFIX], bump`
  unfoldable pub check_config_address : ℕ → Result (Unit {0})
  check_config_address key =
      require (key == (rt.find_program_address (Seed.literal "config" ∷ []) program_id).0)
        (anchor AnchorError.constraint_seeds)

  -- The administrator of the configuration as it was before.
  unfoldable pub require_admin : AccountInfo → ℕ → Result (Unit {0})
  require_admin config admin = do
    existing ← load_protocol_config rt config
    require_keys_eq admin (config_admin existing) (vela VelaError.unauthorized_admin)

  unfoldable pub set_paused : PauseProtocol → Bool → ℤ → Result ConfigOutcome
  set_paused c paused paused_at = do
    check_config_address c.config.key
    require_admin c.config c.admin
    (config, account, calls) ← upgrade_protocol_config rt c.admin c.config
    let written = record config { paused = paused; paused_at = paused_at }
    ok (record {
      account = write_protocol_config account written;
      invocations = calls;
      events = [];
    })

  unfoldable pub pause_protocol : PauseProtocol → ℤ → Result ConfigOutcome
  pause_protocol c now = set_paused c true now

  unfoldable pub unpause_protocol : PauseProtocol → Result ConfigOutcome
  unpause_protocol c = set_paused c false (pos 0)
