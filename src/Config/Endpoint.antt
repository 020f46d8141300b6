-- ===== src/Config/Endpoint.antt =====
-- The keeper's endpoint: what is set is what is read.
use vela_protocol.Base.{
  ℕ, zero, suc, ◌+◌, ◌-◌, ◌%◌, ◌≤◌, min, some, none, inl, inr, ◌≡◌, refl, ap, ◌∙◌, arith, List, [],
  ◌∷◌, ◌++◌, length, take, Option,
}
use vela_protocol.Errors.{ok, Result-cases}
use vela_protocol.State.{KeeperConfig, KeeperMode}
use vela_protocol.Runtime.{Runtime, AccountInfo, Invocation, current_account_version}
use vela_protocol.Accounts.{
  LoadedKeeperConfig, load_keeper_config, decode_keeper_config, upgrade_keeper_config,
  write_keeper_config, resize_config_account, keeper_config_size, into_current_keeper,
}
use vela_protocol.Config.Upgrade.{resize-keeps}
use vela_protocol.Config.Handlers.{
  UpdateKeeperConfig, KeeperUpdate, ConfigOutcome, zeros, endpoint_bytes, endpoint, set_endpoint,
  set_mode, set_authority, check_endpoint, check_keeper_update, apply_keeper_update,
  update_keeper_config,
}

length-zeros : (n : ℕ) → length (zeros n) ≡ n
length-zeros zero = refl
length-zeros (suc n) = ap suc (length-zeros n)

length-append : (xs ys : List ℕ) → length (xs ++ ys) ≡ length xs + length ys
length-append [] ys = ground arith
length-append (x ∷ xs) ys = let later = length-append xs ys in ground arith

take-append : (xs ys : List ℕ) → take (length xs) (xs ++ ys) ≡ xs
take-append [] ys = refl
take-append (x ∷ xs) ys = ap (λ zs. x ∷ zs) (take-append xs ys)

endpoint-set_endpoint :
    (config : KeeperConfig) (bytes : List ℕ)
    → length bytes ≤ 128
    → endpoint (set_endpoint config bytes) ≡ bytes
unfolding endpoint endpoint_bytes
endpoint-set_endpoint config bytes short =
    let pad = zeros (128 - length bytes) in
    let size : length (bytes ++ pad) ≡ 128 =
      omega (arith, length-append bytes pad, length-zeros (128 - length bytes)) in
    let all : min (length bytes % 256) (length (bytes ++ pad)) ≡ length bytes =
      omega (arith, size) in
    rw all (take-append bytes pad)

-- A value, if there is a new one, else the old one.
abbrev pub chosen {ℓ} : {A : Type ℓ} → A → Option A → A
chosen old none = old
chosen old (some new) = new

check_endpoint-short : (bytes : List ℕ) → check_endpoint bytes ≡ ok tt → length bytes ≤ 128
unfolding check_endpoint
check_endpoint-short bytes h = ground arith

-- What an update sets and what it leaves.
pub record Updated (old : KeeperConfig) (update : KeeperUpdate) (new : KeeperConfig) : Type 0 where
  mode : new.mode ≡ chosen old.mode update.mode
  address : endpoint new ≡ chosen (endpoint old) update.keeper_endpoint
  authority : new.keeper_authority ≡ chosen old.keeper_authority update.keeper_authority
  admin : new.admin ≡ old.admin
  bump : new.bump ≡ old.bump

endpoint-same :
    (a b : KeeperConfig)
    → a.endpoint_len ≡ b.endpoint_len
    → a.keeper_endpoint ≡ b.keeper_endpoint
    → endpoint a ≡ endpoint b
unfolding endpoint
endpoint-same a b len bytes = rw len (rw bytes refl)

apply-endpoint :
    (config : KeeperConfig) (mode : Option KeeperMode) (bytes : Option (List ℕ)) (key : Option ℕ)
    → check_keeper_update (record { mode = mode; keeper_endpoint = bytes; keeper_authority = key })
      ≡ ok tt
    → endpoint (
        apply_keeper_update config
          (record { mode = mode; keeper_endpoint = bytes; keeper_authority = key }))
      ≡ chosen (endpoint config) bytes
unfolding apply_keeper_update check_keeper_update
apply-endpoint config mode none key h =
    endpoint-same (set_authority (set_mode config mode) key) config (ground arith) (ground arith)
apply-endpoint config mode (some bytes) key h =
    let checked : check_endpoint bytes ≡ ok tt = ground arith in
    endpoint-same (set_authority (set_endpoint (set_mode config mode) bytes) key)
      (set_endpoint config bytes) (ground arith) (ground arith)
    ∙ endpoint-set_endpoint config bytes (check_endpoint-short bytes checked)

apply-Updated :
    (config : KeeperConfig) (mode : Option KeeperMode) (bytes : Option (List ℕ)) (key : Option ℕ)
    → check_keeper_update (record { mode = mode; keeper_endpoint = bytes; keeper_authority = key })
      ≡ ok tt
    → Updated config
        (record { mode = mode; keeper_endpoint = bytes; keeper_authority = key })
        (apply_keeper_update config
          (record { mode = mode; keeper_endpoint = bytes; keeper_authority = key }))
unfolding apply_keeper_update check_keeper_update
apply-Updated config mode bytes key h = record {
  mode = ground arith;
  address = apply-endpoint config mode bytes key h;
  authority = ground arith;
  admin = ground arith;
  bump = ground arith;
}

-- The version of the old configuration does not count.
Updated-from :
    (old config : KeeperConfig) (update : KeeperUpdate) (new : KeeperConfig)
    → config ≡ record old { version = current_account_version }
    → Updated config update new
    → Updated old update new
unfolding endpoint
Updated-from old config update new same u =
    let v : Updated (record old { version = current_account_version }) update new = rw same at u in
    record {
      mode = v.mode;
      address = v.address;
      authority = v.authority;
      admin = v.admin;
      bump = v.bump;
    }

-- The account of an upgraded configuration stays where it was.
upgrade_keeper-keeps :
    (rt : Runtime) (payer : ℕ) (info : AccountInfo) (l : LoadedKeeperConfig) (config : KeeperConfig)
    (account : AccountInfo) (calls : List Invocation)
    → load_keeper_config rt info ≡ ok l
    → upgrade_keeper_config rt payer info ≡ ok (config, account, calls)
    → (config ≡ record (into_current_keeper l) { version = current_account_version })
      × (account.key ≡ info.key)
      × (account.owner ≡ info.owner)
unfolding upgrade_keeper_config write_keeper_config
upgrade_keeper-keeps rt payer info l config account calls loads h =
    elim (Result-cases (resize_config_account rt payer info keeper_config_size)) [
      | inr bad ↦ absurd (ground arith)
      | inl ((resized, moved), e) ↦
          let (key, owner, rent) = resize-keeps rt payer keeper_config_size info resized moved e in
          (ground arith, ground arith, ground arith)
    ]

load-write_keeper_config :
    (rt : Runtime) (info account : AccountInfo) (l : LoadedKeeperConfig) (new : KeeperConfig)
    → load_keeper_config rt info ≡ ok l
    → account.key ≡ info.key
    → account.owner ≡ info.owner
    → new.version ≡ current_account_version
    → load_keeper_config rt (write_keeper_config account new) ≡ ok (LoadedKeeperConfig.current new)
unfolding load_keeper_config decode_keeper_config write_keeper_config
load-write_keeper_config rt info account l new loads key owner version = ground arith

apply-version :
    (config : KeeperConfig) (update : KeeperUpdate)
    → (apply_keeper_update config update).version ≡ config.version
unfolding apply_keeper_update
apply-version config update = ground arith

-- An update of the keeper that succeeds leaves an account that loads with the new mode, endpoint
-- and authority where the update has them, and with the old ones, the old administrator and the old
-- bump elsewhere.
pub update_keeper_config-Updated :
    (rt : Runtime) (c : UpdateKeeperConfig) (update : KeeperUpdate) (o : ConfigOutcome)
    → update_keeper_config rt c update ≡ ok o
    → (l : LoadedKeeperConfig) × (load_keeper_config rt c.keeper_config ≡ ok l)
      × (new : KeeperConfig) × (load_keeper_config rt o.account
          ≡ ok (LoadedKeeperConfig.current new))
      × Updated (into_current_keeper l) update new
unfolding update_keeper_config
update_keeper_config-Updated rt c update o h =
    elim (Result-cases (load_keeper_config rt c.keeper_config)) [
      | inr bad ↦ absurd (ground arith)
      | inl (l, e) ↦ elim (Result-cases (upgrade_keeper_config rt c.admin c.keeper_config)) [
        | inr bad ↦ absurd (ground arith)
        | inl ((config, account, calls), eu) ↦
            let (same, key, owner) =
              upgrade_keeper-keeps rt c.admin c.keeper_config l config account calls e eu in
            let new = apply_keeper_update config update in
            let version : new.version ≡ current_account_version =
              apply-version config update ∙ ap (λ k. k.version) same in
            let left : o.account ≡ write_keeper_config account new = ground arith in
            let loads =
              load-write_keeper_config rt c.keeper_config account l new e key owner version in
            let checked : check_keeper_update update ≡ ok tt = ground arith in
            let updated =
              apply-Updated config update.mode update.keeper_endpoint update.keeper_authority
                checked in
            (
              l,
              e,
              new,
              rw left loads,
              Updated-from (into_current_keeper l) config update new same updated,
            )
      ]
    ]
