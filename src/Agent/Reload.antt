-- ===== src/Agent/Reload.antt =====
-- accounts/agent_mandate_account.rs: what becomes of a mandate that is written in the layout that was
-- read.
use vela_protocol.Base.{ℕ, ◌≤◌, ◌<◌, ◌≡◌, ◌⊎◌, true, false, inl, inr, arith, refl, length}
use vela_protocol.Errors.{ok, err, program, ProgramError}
use vela_protocol.State.{AgentMandate, AgentMandateV1}
use vela_protocol.Runtime.{Runtime, AccountInfo, current_account_version}
use vela_protocol.Agent.Account.{
  LoadedAgentMandate, into_current_agent, into_legacy_agent, is_legacy, decode_agent_mandate,
  load_agent_mandate, agent_data, agent_data_len, current_agent_size, write_agent_mandate,
  validate_agent_mandate_address,
}

-- The account loads as the mandate, in the layout of `l`.
pub record Reloads (rt : Runtime) (info : AccountInfo) (l : LoadedAgentMandate) (m : AgentMandate)
    : Type 0 where
  pub loaded : LoadedAgentMandate
  pub loads : load_agent_mandate rt info m.authority m.agent ≡ ok loaded
  pub current : into_current_agent loaded ≡ m
  pub layout : is_legacy loaded ≡ is_legacy l

-- What a load finds in the account after the write, where `data_len` bytes are there for it.
pub record Reread (rt : Runtime) (written : AccountInfo) (l : LoadedAgentMandate) (m : AgentMandate)
    (data_len : ℕ) : Type 0 where
  pub kept :
      (is_legacy l ≡ false) ⊎ (data_len < current_agent_size (length m.services))
      → Reloads rt written l m
  pub lost :
      is_legacy l ≡ true
      → current_agent_size (length m.services) ≤ data_len
      → load_agent_mandate rt written m.authority m.agent
        ≡ err (program ProgramError.invalid_account_data)

write_current-Reloads :
    (rt : Runtime) (info written : AccountInfo) (v m : AgentMandate)
    → load_agent_mandate rt info m.authority m.agent ≡ ok (LoadedAgentMandate.current v)
    → m.version ≡ current_account_version
    → write_agent_mandate info m false ≡ ok written
    → Reloads rt written (LoadedAgentMandate.current v) m
unfolding load_agent_mandate decode_agent_mandate write_agent_mandate agent_data is_legacy
    into_current_agent validate_agent_mandate_address
write_current-Reloads rt info written v m h ver w = record {
  loaded = LoadedAgentMandate.current m;
  loads = ground arith;
  current = refl;
  layout = refl;
}

write_legacy-Reloads :
    (rt : Runtime) (info written : AccountInfo) (v : AgentMandateV1) (m : AgentMandate)
    → load_agent_mandate rt info m.authority m.agent ≡ ok (LoadedAgentMandate.legacy v)
    → m.version ≡ current_account_version
    → write_agent_mandate info m true ≡ ok written
    → agent_data_len info.contents < current_agent_size (length m.services)
    → Reloads rt written (LoadedAgentMandate.legacy v) m
unfolding load_agent_mandate decode_agent_mandate write_agent_mandate agent_data is_legacy
    into_current_agent into_legacy_agent validate_agent_mandate_address
write_legacy-Reloads rt info written v m h ver w small = record {
  loaded = LoadedAgentMandate.legacy (into_legacy_agent m);
  loads = ground arith;
  current = ground arith;
  layout = refl;
}

write_agent_mandate-Reloads :
    (rt : Runtime) (info written : AccountInfo) (l : LoadedAgentMandate) (m : AgentMandate)
    → load_agent_mandate rt info m.authority m.agent ≡ ok l
    → m.version ≡ current_account_version
    → write_agent_mandate info m (is_legacy l) ≡ ok written
    → (is_legacy l ≡ false)
      ⊎ (agent_data_len info.contents < current_agent_size (length m.services))
    → Reloads rt written l m
unfolding is_legacy
write_agent_mandate-Reloads rt info written (LoadedAgentMandate.current v) m h ver w fits =
    write_current-Reloads rt info written v m h ver w
write_agent_mandate-Reloads rt info written (LoadedAgentMandate.legacy v) m h ver w (inl e) =
    absurd (cc)
write_agent_mandate-Reloads rt info written (LoadedAgentMandate.legacy v) m h ver w (inr small) =
    write_legacy-Reloads rt info written v m h ver w small

write_agent_mandate-refused :
    (rt : Runtime) (info written : AccountInfo) (l : LoadedAgentMandate) (m : AgentMandate)
    → load_agent_mandate rt info m.authority m.agent ≡ ok l
    → write_agent_mandate info m (is_legacy l) ≡ ok written
    → is_legacy l ≡ true
    → current_agent_size (length m.services) ≤ agent_data_len info.contents
    → load_agent_mandate rt written m.authority m.agent
      ≡ err (program ProgramError.invalid_account_data)
unfolding load_agent_mandate decode_agent_mandate write_agent_mandate agent_data
    validate_agent_mandate_address
write_agent_mandate-refused rt info written l m h w old room = ground arith

-- What is written in the layout that was read loads again as the new mandate and in that layout, if
-- the layout is the current one or the data has no room for the current one with the new services.
-- A legacy account with room for it can no longer be loaded: the load fails with
-- InvalidAccountData.
pub load-write_agent_mandate :
    (rt : Runtime) (info written : AccountInfo) (l : LoadedAgentMandate) (m : AgentMandate)
    → load_agent_mandate rt info m.authority m.agent ≡ ok l
    → m.version ≡ current_account_version
    → write_agent_mandate info m (is_legacy l) ≡ ok written
    → Reread rt written l m (agent_data_len info.contents)
load-write_agent_mandate rt info written l m h v w = record {
  kept = write_agent_mandate-Reloads rt info written l m h v w;
  lost = write_agent_mandate-refused rt info written l m h w;
}
