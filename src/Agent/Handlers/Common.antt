-- ===== src/Agent/Handlers/Common.antt =====
-- What the handlers of an agent mandate share: constraints of the accounts, and what they leave.
use vela_protocol.Base.{ℕ, ◌==◌, List, [], ◌∷◌}
use vela_protocol.Errors.{
  Result, ok, anchor, vela, AnchorError, VelaError, ◌>>=◌, ◌>>◌, require, require_keys_eq,
}
use vela_protocol.State.{ProtocolConfig}
use vela_protocol.Runtime.{
  Runtime, Seed, AccountInfo, TokenAccount, Loaded, Invocation, Event, program_id, require_created,
}
use vela_protocol.Agent.Account.{
  LoadedAgentMandate, agent_seeds, load_agent_mandate, agent_authority,
}

-- A token account that Anchor has loaded, with the token program that owns it.
pub record LoadedToken : Type 0 where
  pub key : ℕ
  pub program : ℕ
  pub state : TokenAccount

-- What a handler leaves behind.
pub record AgentOutcome : Type 0 where
  pub mandate : AccountInfo
  pub invocations : List Invocation
  pub events : List Event

-- `token::mint = …, token::token_program = …`
abbrev pub check_token : LoadedToken → ℕ → ℕ → Result (Unit {0})
check_token t mint token_2022 = do
  require (t.state.mint == mint) (anchor AnchorError.constraint_token_mint)
  require (t.program == token_2022) (anchor AnchorError.constraint_token_program)

-- The same with `token::authority = …`.
abbrev pub check_owned_token : LoadedToken → ℕ → ℕ → ℕ → Result (Unit {0})
check_owned_token t mint authority token_2022 = do
  require (t.state.owner == authority) (anchor AnchorError.constraint_token_owner)
  check_token t mint token_2022

module _ (rt : Runtime) where
  -- The address of a mandate, as the constraint derives it.
  abbrev pub agent_mandate_address : ℕ → ℕ → ℕ
  agent_mandate_address authority agent =
      (rt.find_program_address (agent_seeds authority agent) program_id).0

  unfoldable pub check_agent_address : ℕ → ℕ → ℕ → Result (Unit {0})
  check_agent_address mandate authority agent =
      require (mandate == agent_mandate_address authority agent)
        (anchor AnchorError.constraint_seeds)

  -- `seeds = [ProtocolConfig::SEED_PREFIX], bump = protocol_config.bump`
  unfoldable pub check_protocol_config : Loaded ProtocolConfig → Result (Unit {0})
  check_protocol_config config =
      let seeds = Seed.literal "config" ∷ Seed.bump config.state.bump ∷ [] in
      require_created (rt.create_program_address seeds program_id) config.key

  -- The mandate that the handlers of the authority work on.
  unfoldable pub load_own_mandate : AccountInfo → ℕ → ℕ → Result LoadedAgentMandate
  load_own_mandate info authority agent = do
    loaded ← load_agent_mandate rt info authority agent
    require_keys_eq (agent_authority loaded) authority
        (vela VelaError.unauthorized_agent_mandate_authority)
    ok loaded
