-- ===== src/Config/Pausing.antt =====
-- What pausing the protocol stops, and what unpausing it gives back.
use vela_protocol.Base.{ℕ, true, false, ap, inl, inr, ◌≡◌, ◌≢◌, arith, [], List}
use vela_protocol.Base.Int.{ℤ, pos}
use vela_protocol.Errors.{ok, Result-cases}
use vela_protocol.State.{ProtocolConfig}
use vela_protocol.Runtime.{Runtime, AccountInfo, Invocation}
use vela_protocol.Accounts.{
  LoadedProtocolConfig, load_protocol_config, config_admin, config_paused, upgrade_protocol_config,
  write_protocol_config,
}
use vela_protocol.Stream.Transfer.{validate_stream_transfer_accounts}
use vela_protocol.Stream.Handlers.{ExecuteStream, StreamOutcome, execute_stream}
use vela_protocol.Agent.Account.{load_agent_mandate}
use vela_protocol.Agent.Handlers.{AgentPull, PullOutcome, agent_pull, check_pull_protocol}
use vela_protocol.Config.Upgrade.{Upgraded, upgrade-Upgraded, load-write, upgrade-write}
use vela_protocol.Config.Handlers.{
  PauseProtocol, ConfigOutcome, check_config_address, require_admin, set_paused, pause_protocol,
  unpause_protocol,
}

-- A pause that succeeds, taken apart.
record Paused (rt : Runtime) (c : PauseProtocol) (now : ℤ) (o : ConfigOutcome) : Type 0 where
  config : ProtocolConfig
  account : AccountInfo
  calls : List Invocation
  upgrades : upgrade_protocol_config rt c.admin c.config ≡ ok (config, account, calls)
  upgraded : Upgraded rt c.config config account
  authorized : require_admin rt c.config c.admin ≡ ok tt
  addressed : check_config_address rt c.config.key ≡ ok tt
  left :
      o.account ≡ write_protocol_config account (record config { paused = true; paused_at = now })

pause_protocol-Paused :
    (rt : Runtime) (c : PauseProtocol) (now : ℤ) (o : ConfigOutcome)
    → pause_protocol rt c now ≡ ok o
    → Paused rt c now o
unfolding pause_protocol set_paused
pause_protocol-Paused rt c now o h =
    elim (Result-cases (upgrade_protocol_config rt c.admin c.config)) [
      | inr bad ↦ absurd (ground arith)
      | inl ((config, account, calls), e) ↦ record {
        config = config;
        account = account;
        calls = calls;
        upgrades = e;
        upgraded = upgrade-Upgraded rt c.admin c.config config account calls e;
        authorized = ground arith;
        addressed = ground arith;
        left = ground arith;
      }
    ]

paused-stops_execute :
    (rt : Runtime) (s : ExecuteStream) (config : ProtocolConfig) (later : ℤ)
    → load_protocol_config rt s.protocol_config ≡ ok (LoadedProtocolConfig.current config)
    → config.paused ≡ true
    → (left : StreamOutcome) → execute_stream rt s later ≢ ok left
unfolding execute_stream validate_stream_transfer_accounts config_paused
paused-stops_execute rt s config later loads paused left h = ground arith

paused-stops_pull :
    (rt : Runtime) (p : AgentPull) (amount : ℕ) (later : ℤ)
    → p.protocol_config.state.paused ≡ true
    → (left : PullOutcome) → agent_pull rt p amount later ≢ ok left
unfolding agent_pull check_pull_protocol
paused-stops_pull rt p amount later paused left h =
    elim (Result-cases (load_agent_mandate rt p.agent_mandate p.authority p.agent)) [
      | inr bad ↦ absurd (ground arith)
      | inl (l, e) ↦ ground arith
    ]

require_admin-admin :
    (rt : Runtime) (info : AccountInfo) (l : LoadedProtocolConfig) (admin : ℕ)
    → load_protocol_config rt info ≡ ok l
    → require_admin rt info admin ≡ ok tt
    → admin ≡ config_admin l
unfolding require_admin
require_admin-admin rt info l admin loads h = ground arith

-- After a pause that succeeds, the configuration that is then loaded has the signer as its
-- administrator and the time of the pause, and with it no execution of a stream and no agent pull
-- succeeds.
pub pause_protocol-stops :
    (rt : Runtime) (c : PauseProtocol) (now : ℤ) (o : ConfigOutcome) (config : ProtocolConfig)
    (s : ExecuteStream) (p : AgentPull) (amount : ℕ) (later : ℤ)
    → pause_protocol rt c now ≡ ok o
    → load_protocol_config rt o.account ≡ ok (LoadedProtocolConfig.current config)
    → s.protocol_config ≡ o.account
    → p.protocol_config.state ≡ config
    → (config.admin ≡ c.admin)
      × (config.paused_at ≡ now)
      × ((left : StreamOutcome) → execute_stream rt s later ≢ ok left)
      × ((left : PullOutcome) → agent_pull rt p amount later ≢ ok left)
pause_protocol-stops rt c now o config s p amount later h reads same_account same_state =
    let t = pause_protocol-Paused rt c now o h in
    let u = t.upgraded in
    let admin = require_admin-admin rt c.config u.loaded c.admin u.loads t.authorized in
    let loads = load-write rt c.config t.config t.account u c.admin true now in
    let left = t.left in
    let keeps = u.admin in
    let same : config ≡ record t.config { paused = true; paused_at = now } = ground arith in
    let paused : config.paused ≡ true = ap (λ x. x.paused) same in
    let reads_stream : load_protocol_config rt s.protocol_config
        ≡ ok (LoadedProtocolConfig.current config) =
      rw same_account reads in
    (
      ground arith,
      ap (λ x. x.paused_at) same,
      paused-stops_execute rt s config later reads_stream paused,
      paused-stops_pull rt p amount later (rw same_state paused),
    )

unpause_upgraded :
    (rt : Runtime) (c : PauseProtocol) (config : ProtocolConfig) (account : AccountInfo)
    → check_config_address rt c.config.key ≡ ok tt
    → require_admin rt c.config c.admin ≡ ok tt
    → upgrade_protocol_config rt c.admin c.config ≡ ok (config, account, [])
    → unpause_protocol rt c
      ≡ ok (record {
        account =
            write_protocol_config account (record config { paused = false; paused_at = pos 0 });
        invocations = [];
        events = [];
      })
unfolding unpause_protocol set_paused
unpause_upgraded rt c config account addressed authorized upgrades = ground arith

-- After a pause that succeeds, the account loads as the upgraded configuration with the pause, and
-- the same administrator can unpause it, which clears the pause and its time, changes nothing else
-- and makes no further invocation.
pub pause-unpause_protocol :
    (rt : Runtime) (c : PauseProtocol) (now : ℤ) (o : ConfigOutcome)
    → pause_protocol rt c now ≡ ok o
    → (config : ProtocolConfig) × (account : AccountInfo) × (calls : List Invocation)
      × (upgrade_protocol_config rt c.admin c.config ≡ ok (config, account, calls))
      × (load_protocol_config rt o.account
          ≡ ok (LoadedProtocolConfig.current (record config { paused = true; paused_at = now })))
      × (unpause_protocol rt (record c { config = o.account })
          ≡ ok (record {
            account =
                write_protocol_config account (record config { paused = false; paused_at = pos 0 });
            invocations = [];
            events = [];
          }))
unfolding require_admin write_protocol_config config_admin
pause-unpause_protocol rt c now o h =
    let p = pause_protocol-Paused rt c now o h in
    let u = p.upgraded in
    let admin = require_admin-admin rt c.config u.loaded c.admin u.loads p.authorized in
    let keeps = u.admin in
    let key = u.key in
    let addressed = p.addressed in
    let left = p.left in
    let loads = load-write rt c.config p.config p.account u c.admin true now in
    let upgrades = upgrade-write rt c.config p.config p.account u c.admin true now in
    let written = record p.config { paused = true; paused_at = now } in
    let account = write_protocol_config p.account written in
    let authorized : require_admin rt account c.admin ≡ ok tt = ground arith in
    let reset =
      unpause_upgraded rt (record c { config = account }) written account (rw key addressed)
        authorized upgrades in
    (p.config, p.account, p.calls, p.upgrades, rw left loads, rw left reset)
