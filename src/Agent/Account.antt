-- ===== src/Agent/Account.antt =====
-- accounts/agent_mandate_account.rs: loading and writing an agent mandate, in either layout.
use vela_protocol.Base.{
  ℕ, ◌+◌, ◌*◌, Bool, true, false, leb, ◌==◌, ◌&&◌, if◌then◌else◌, List, [], ◌∷◌, ◌++◌, length,
}
use vela_protocol.Errors.{
  Result, ok, err, program, anchor, ProgramError, AnchorError, ◌>>=◌, ◌>>◌, require,
}
use vela_protocol.State.{AgentMandate, AgentMandateV1}
use vela_protocol.Runtime.{
  Runtime, Seed, AccountInfo, AccountData, Layout, Invocation, Instruction, program_id,
  current_account_version,
}

pub data LoadedAgentMandate : Type 0 where
  legacy : AgentMandateV1 → LoadedAgentMandate
  current : AgentMandate → LoadedAgentMandate

unfoldable pub agent_authority : LoadedAgentMandate → ℕ
agent_authority (LoadedAgentMandate.legacy m) = m.authority
agent_authority (LoadedAgentMandate.current m) = m.authority

unfoldable pub is_legacy : LoadedAgentMandate → Bool
is_legacy (LoadedAgentMandate.legacy m) = true
is_legacy (LoadedAgentMandate.current m) = false

unfoldable pub into_current_agent : LoadedAgentMandate → AgentMandate
into_current_agent (LoadedAgentMandate.legacy m) = record {
  authority = m.authority;
  agent = m.agent;
  daily_limit = m.daily_limit;
  daily_spent = m.daily_spent;
  daily_last_reset = m.daily_last_reset;
  lifetime_cap = m.lifetime_cap;
  total_spent = m.total_spent;
  min_pull_amount = m.min_pull_amount;
  min_pull_interval = m.min_pull_interval;
  last_pull_at = m.last_pull_at;
  status = m.status;
  services = m.services;
  bump = m.bump;
  version = current_account_version;
}
into_current_agent (LoadedAgentMandate.current m) = m

unfoldable pub into_legacy_agent : AgentMandate → AgentMandateV1
into_legacy_agent m = record {
  authority = m.authority;
  agent = m.agent;
  daily_limit = m.daily_limit;
  daily_spent = m.daily_spent;
  daily_last_reset = m.daily_last_reset;
  lifetime_cap = m.lifetime_cap;
  total_spent = m.total_spent;
  min_pull_amount = m.min_pull_amount;
  min_pull_interval = m.min_pull_interval;
  last_pull_at = m.last_pull_at;
  status = m.status;
  services = m.services;
  bump = m.bump;
}

-- What the discriminator and the two decoders make of the data.
unfoldable pub decode_agent_mandate : AccountData → ℕ → ℕ → Result LoadedAgentMandate
decode_agent_mandate (AccountData.agent_mandate (Layout.current m) n) authority agent =
    if m.version == current_account_version
    then (if m.authority == authority && m.agent == agent
        then ok (LoadedAgentMandate.current m)
        else err (program ProgramError.invalid_account_data))
    else err (program ProgramError.invalid_account_data)
decode_agent_mandate (AccountData.agent_mandate (Layout.legacy m padded) n) authority agent =
    if padded && m.authority == authority && m.agent == agent
    then ok (LoadedAgentMandate.legacy m)
    else err (program ProgramError.invalid_account_data)
decode_agent_mandate _ authority agent = err (program ProgramError.invalid_account_data)

-- `ServiceLimit::SIZE`
abbrev service_limit_size : ℕ
service_limit_size = 56

-- The bytes of the discriminator and of a mandate with so many services, in each layout. The
-- version and 64 reserved bytes stand behind the legacy fields.
abbrev pub legacy_agent_size : (services : ℕ) → ℕ
legacy_agent_size services = 142 + services * service_limit_size

abbrev pub current_agent_size : (services : ℕ) → ℕ
current_agent_size services = legacy_agent_size services + 65

-- What `data.fill(0)` and the serialisation leave in data of a length. Legacy fields before enough
-- zeros are data in the current layout, with version zero.
unfoldable pub agent_data : (data_len : ℕ) → AgentMandate → Bool → Result AccountData
agent_data data_len m legacy_layout =
    let services = length m.services in
    if legacy_layout
    then (do
      require (leb (legacy_agent_size services) data_len) (program ProgramError.borsh_io_error)
      let layout =
          if leb (current_agent_size services) data_len
          then Layout.current (record m { version = 0 })
          else Layout.legacy (into_legacy_agent m) true
      ok (AccountData.agent_mandate layout data_len))
    else (do
      require (leb (current_agent_size services) data_len)
          (anchor AnchorError.account_did_not_serialize)
      ok (AccountData.agent_mandate (Layout.current m) data_len))

-- `data.len()`, of the data of an agent mandate.
abbrev pub agent_data_len : AccountData → ℕ
agent_data_len (AccountData.agent_mandate l n) = n
agent_data_len _ = 0

-- The account after the write, in the layout that was read.
unfoldable pub write_agent_mandate : AccountInfo → AgentMandate → Bool → Result AccountInfo
write_agent_mandate info m legacy_layout = do
  contents ← agent_data (agent_data_len info.contents) m legacy_layout
  ok (record info { contents = contents })

-- The seeds of a mandate's address, without the bump.
abbrev pub agent_seeds : ℕ → ℕ → List Seed
agent_seeds authority agent =
    Seed.literal "agent-mandate" ∷ Seed.pubkey authority ∷ Seed.pubkey agent ∷ []

-- `AgentMandate::SIZE`
abbrev pub agent_mandate_size : ℕ
agent_mandate_size = 655

module _ (rt : Runtime) where
  unfoldable pub validate_agent_mandate_address : ℕ → ℕ → ℕ → Result (Unit {0})
  validate_agent_mandate_address mandate authority agent =
      require (mandate == (rt.find_program_address (agent_seeds authority agent) program_id).0)
        (program ProgramError.invalid_seeds)

  unfoldable pub load_agent_mandate : AccountInfo → ℕ → ℕ → Result LoadedAgentMandate
  load_agent_mandate info authority agent = do
    validate_agent_mandate_address info.key authority agent
    require (info.owner == program_id) (program ProgramError.incorrect_program_id)
    decode_agent_mandate info.contents authority agent

  -- The account that is created, and the invocation that creates it.
  unfoldable pub initialize_agent_mandate :
      (payer : ℕ)
      → AccountInfo
      → (authority agent : ℕ) → AgentMandate
      → Result (AccountInfo × Invocation)
  initialize_agent_mandate payer info authority agent m = do
    validate_agent_mandate_address info.key authority agent
    let create : Invocation = record {
      instruction =
          Instruction.create_account payer info.key (rt.minimum_balance agent_mandate_size)
            agent_mandate_size program_id;
      signer_seeds = agent_seeds authority agent ++ Seed.bump m.bump ∷ [];
    }
    rt.invoke create
    contents ← agent_data agent_mandate_size m false
    ok (record info { owner = program_id; contents = contents }, create)
