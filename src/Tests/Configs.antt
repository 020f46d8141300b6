-- ===== src/Tests/Configs.antt =====
-- Pausing and unpausing the protocol, and an update of the keeper.
use vela_protocol.Base.{true, none, some, ◌≡◌, ◌≢◌, refl, [], ◌∷◌}
use vela_protocol.Base.Int.{pos}
use vela_protocol.Errors.{ok}
use vela_protocol.State.{ProtocolConfig, KeeperConfig}
use vela_protocol.Accounts.{
  LoadedProtocolConfig, LoadedKeeperConfig, load_protocol_config, load_keeper_config,
  validate_protocol_config_address, decode_protocol_config, decode_keeper_config, config_admin,
  into_current_config, into_current_keeper, upgrade_protocol_config, upgrade_keeper_config,
  write_protocol_config, write_keeper_config, resize_config_account,
}
use vela_protocol.Stream.Handlers.{ExecuteStream, StreamOutcome, execute_stream}
use vela_protocol.Agent.Handlers.{AgentPull, PullOutcome, agent_pull}
use vela_protocol.Config.Handlers.{
  PauseProtocol, ConfigOutcome, UpdateKeeperConfig, KeeperUpdate, check_config_address,
  require_admin, set_paused, pause_protocol, check_endpoint, check_keeper_update,
  apply_keeper_update, endpoint_bytes, update_keeper_config,
}
use vela_protocol.Config.Pausing.{pause_protocol-stops}
use vela_protocol.Config.Endpoint.{Updated, update_keeper_config-Updated}
use vela_protocol.Tests.Fixture.{runtime, from_ok, config_account, protocol_config, keeper_account}
use vela_protocol.Tests.Streams.{executing}
use vela_protocol.Tests.Agents.{pulling}

abbrev pausing : PauseProtocol
pausing = record { admin = 10; config = config_account }

abbrev untouched : ConfigOutcome
untouched = record { account = config_account; invocations = []; events = [] }

abbrev paused : ConfigOutcome
paused = from_ok untouched (pause_protocol runtime pausing (pos 500))

pause_protocol_runs : pause_protocol runtime pausing (pos 500) ≡ ok paused
unfolding pause_protocol set_paused check_config_address require_admin config_admin
    load_protocol_config validate_protocol_config_address decode_protocol_config into_current_config
    upgrade_protocol_config write_protocol_config resize_config_account
pause_protocol_runs = refl

abbrev paused_config : ProtocolConfig
paused_config = record protocol_config { paused = true; paused_at = pos 500 }

paused_loads :
    load_protocol_config runtime paused.account ≡ ok (LoadedProtocolConfig.current paused_config)
unfolding pause_protocol set_paused check_config_address require_admin config_admin
    load_protocol_config validate_protocol_config_address decode_protocol_config into_current_config
    upgrade_protocol_config write_protocol_config resize_config_account
paused_loads = refl

abbrev stopped_execution : ExecuteStream
stopped_execution = record executing { protocol_config = paused.account }

abbrev stopped_pull : AgentPull
stopped_pull = record pulling {
  protocol_config = record pulling.protocol_config { state = paused_config };
}

pause_protocol-stops_example :
    (paused_config.admin ≡ pausing.admin)
    × (paused_config.paused_at ≡ pos 500)
    × ((left : StreamOutcome) → execute_stream runtime stopped_execution (pos 900) ≢ ok left)
    × ((left : PullOutcome) → agent_pull runtime stopped_pull 350 (pos 900) ≢ ok left)
pause_protocol-stops_example =
    pause_protocol-stops runtime pausing (pos 500) paused paused_config stopped_execution
      stopped_pull 350 (pos 900) pause_protocol_runs paused_loads refl refl

-- The administrator gives the keeper another endpoint, of three bytes.
abbrev updating : UpdateKeeperConfig
updating = record { admin = 10; protocol_config = config_account; keeper_config = keeper_account }

abbrev keeper_update : KeeperUpdate
keeper_update = record {
  mode = none;
  keeper_endpoint = some (7 ∷ 8 ∷ 9 ∷ []);
  keeper_authority = none;
}

abbrev updated_keeper : ConfigOutcome
updated_keeper = from_ok untouched (update_keeper_config runtime updating keeper_update)

update_keeper_config_runs : update_keeper_config runtime updating keeper_update ≡ ok updated_keeper
unfolding update_keeper_config check_config_address require_admin config_admin load_protocol_config
    validate_protocol_config_address decode_protocol_config load_keeper_config decode_keeper_config
    into_current_keeper upgrade_keeper_config write_keeper_config resize_config_account
    check_endpoint check_keeper_update apply_keeper_update endpoint_bytes
update_keeper_config_runs = refl

update_keeper_config-Updated_example :
    (l : LoadedKeeperConfig) × (load_keeper_config runtime keeper_account ≡ ok l)
    × (new : KeeperConfig) × (load_keeper_config runtime updated_keeper.account
        ≡ ok (LoadedKeeperConfig.current new))
    × Updated (into_current_keeper l) keeper_update new
update_keeper_config-Updated_example =
    update_keeper_config-Updated runtime updating keeper_update updated_keeper
      update_keeper_config_runs
