-- ===== src/Config/Upgrade.antt =====
-- What the upgrade of the protocol configuration leaves.
use vela_protocol.Base.{ℕ, Bool, inl, inr, ◌≡◌, ◌≢◌, ◌≤◌, refl, arith, [], ltb, Bool-cases, List}
use vela_protocol.Base.Int.{ℤ}
use vela_protocol.Errors.{ok, Result-cases}
use vela_protocol.State.{ProtocolConfig}
use vela_protocol.Runtime.{
  Runtime, AccountInfo, Invocation, program_id, default_pubkey, current_account_version,
}
use vela_protocol.Accounts.{
  LoadedProtocolConfig, load_protocol_config, validate_protocol_config_address,
  decode_protocol_config, config_admin, upgrade_protocol_config, write_protocol_config,
  resize_config_account, into_current_config, protocol_config_size,
}

-- What an upgrade leaves: the configuration in an account that loads whatever is written to it,
-- with the rent for its size.
pub record Upgraded (rt : Runtime) (info : AccountInfo) (config : ProtocolConfig)
    (account : AccountInfo) : Type 0 where
  pub key : account.key ≡ info.key
  pub owner : account.owner ≡ program_id
  pub valid : validate_protocol_config_address rt info.key ≡ ok tt
  pub version : config.version ≡ current_account_version
  pub hook : config.transfer_hook_program_id ≢ default_pubkey
  pub rent : rt.minimum_balance protocol_config_size ≤ account.lamports
  pub loaded : LoadedProtocolConfig
  pub loads : load_protocol_config rt info ≡ ok loaded
  pub admin : config.admin ≡ config_admin loaded

pub resize-keeps :
    (rt : Runtime) (payer size : ℕ) (info resized : AccountInfo) (calls : List Invocation)
    → resize_config_account rt payer info size ≡ ok (resized, calls)
    → (resized.key ≡ info.key)
      × (resized.owner ≡ info.owner)
      × (rt.minimum_balance size ≤ resized.lamports)
unfolding resize_config_account
resize-keeps rt payer size info resized calls h =
    elim (Bool-cases (ltb info.lamports (rt.minimum_balance size))) [
      | inl short ↦ (ground arith, ground arith, ground arith)
      | inr enough ↦ (ground arith, ground arith, ground arith)
    ]

load-valid :
    (rt : Runtime) (info : AccountInfo) (l : LoadedProtocolConfig)
    → load_protocol_config rt info ≡ ok l
    → (validate_protocol_config_address rt info.key ≡ ok tt) × (info.owner ≡ program_id)
unfolding load_protocol_config validate_protocol_config_address
load-valid rt info l h = (ground arith, ground arith)

admin-into_current : (l : LoadedProtocolConfig) → (into_current_config l).admin ≡ config_admin l
unfolding into_current_config config_admin
admin-into_current (LoadedProtocolConfig.legacy c) = refl
admin-into_current (LoadedProtocolConfig.current c) = refl

pub upgrade-Upgraded :
    (rt : Runtime) (payer : ℕ) (info : AccountInfo) (config : ProtocolConfig)
    (account : AccountInfo) (calls : List Invocation)
    → upgrade_protocol_config rt payer info ≡ ok (config, account, calls)
    → Upgraded rt info config account
unfolding upgrade_protocol_config write_protocol_config
upgrade-Upgraded rt payer info config account calls h =
    elim (Result-cases (load_protocol_config rt info)) [
      | inr bad ↦ absurd (ground arith)
      | inl (l, e) ↦
          elim (Result-cases (resize_config_account rt payer info protocol_config_size)) [
            | inr bad ↦ absurd (ground arith)
            | inl ((resized, moved), er) ↦
                let (k, o, r) = resize-keeps rt payer protocol_config_size info resized moved er in
                let (valid, owner) = load-valid rt info l e in
                record {
                  key = ground arith;
                  owner = ground arith;
                  valid = valid;
                  version = ground arith;
                  hook = λ e. ground arith;
                  rent = ground arith;
                  loaded = l;
                  loads = e;
                  admin = ground (arith, admin-into_current l);
                }
          ]
    ]

-- The configuration of an upgraded account, written again, loads, and another upgrade changes nothing.
module _ (rt : Runtime) (info : AccountInfo) (config : ProtocolConfig) (account : AccountInfo)
    (u : Upgraded rt info config account) (payer : ℕ) (paused : Bool) (paused_at : ℤ) where
  abbrev pub written : ProtocolConfig
  written = record config { paused = paused; paused_at = paused_at }

  pub load-write :
      load_protocol_config rt (write_protocol_config account written)
      ≡ ok (LoadedProtocolConfig.current written)
  unfolding load_protocol_config decode_protocol_config write_protocol_config
  load-write =
      let owner = u.owner in
      let version = u.version in
      let valid : validate_protocol_config_address rt account.key ≡ ok tt = rw u.key u.valid in
      ground arith

  pub upgrade-write :
      upgrade_protocol_config rt payer (write_protocol_config account written)
      ≡ ok (written, write_protocol_config account written, [])
  unfolding upgrade_protocol_config into_current_config write_protocol_config resize_config_account
  upgrade-write =
      let loads = load-write in
      let hook = u.hook in let version = u.version in let rent = u.rent in ground arith
