-- ===== src/Agent/Backing.antt =====
-- The wrapped tokens stay backed by the vault: what creating, revoking and draining a mandate mint and
-- burn, against what they put into the vault and take out of it.
use vela_protocol.Base.{ℕ, inl, inr, ◌≡◌, ◌≢◌, arith, List, Bool-cases, ltb}
use vela_protocol.Base.Int.{ℤ}
use vela_protocol.Errors.{ok, Result-cases}
use vela_protocol.State.{AgentMandate}
use vela_protocol.Runtime.{Runtime, Invocation, KeepsBacking, minted, burned, deposited, released}
use vela_protocol.Agent.Account.{into_current_agent, initialize_agent_mandate}
use vela_protocol.Agent.Handlers.{
  RevokeAgentMandate, CreateAgentMandate, AgentTerms, DrainAgentMandate, AgentOutcome,
  load_own_mandate, withdraw, revoke_agent_mandate, drain_agent_mandate, create_agent_mandate,
}

-- All that the account holds is burnt, and as much goes from the vault to the authority.
abbrev pub Withdrawn : RevokeAgentMandate → List Invocation → Type 0
Withdrawn c calls =
    (burned c.wrapped_usdc_mint calls ≡ c.mandate_wrapped_account.state.amount)
    × (released c.wrapping_vault.key calls ≡ c.mandate_wrapped_account.state.amount)
    × KeepsBacking c.wrapped_usdc_mint c.wrapping_vault.key calls

withdraw-Withdrawn :
    (rt : Runtime) (c : RevokeAgentMandate) (m : AgentMandate) (calls : List Invocation)
    → withdraw rt c m ≡ ok calls
    → c.authority_usdc_account.key ≢ c.wrapping_vault.key
    → Withdrawn c calls
unfolding withdraw
withdraw-Withdrawn rt c m calls h apart =
    elim (Bool-cases (ltb 0 c.mandate_wrapped_account.state.amount)) [
      | inr nothing ↦ ground arith
      | inl held ↦ ground arith
    ]

-- A revocation burns all that the mandate account holds and releases as much from the vault.
pub revoke_agent_mandate-Withdrawn :
    (rt : Runtime) (c : RevokeAgentMandate) (o : AgentOutcome)
    → revoke_agent_mandate rt c ≡ ok o
    → c.authority_usdc_account.key ≢ c.wrapping_vault.key
    → Withdrawn c o.invocations
unfolding revoke_agent_mandate
revoke_agent_mandate-Withdrawn rt c o h apart =
    elim (Result-cases (load_own_mandate rt c.agent_mandate c.authority c.agent)) [
      | inr bad ↦ absurd (ground arith)
      | inl (l, e) ↦ elim (Result-cases (withdraw rt c (into_current_agent l))) [
        | inr bad ↦ absurd (ground arith)
        | inl (calls, ew) ↦
            let same : o.invocations ≡ calls = ground arith in
            rw same (withdraw-Withdrawn rt c (into_current_agent l) calls ew apart)
      ]
    ]

-- A draining burns all that the mandate account holds, releases as much from the vault, and does
-- not write the mandate.
pub drain_agent_mandate-Withdrawn :
    (rt : Runtime) (c : DrainAgentMandate) (o : AgentOutcome)
    → drain_agent_mandate rt c ≡ ok o
    → c.authority_usdc_account.key ≢ c.wrapping_vault.key
    → (o.mandate ≡ c.agent_mandate) × Withdrawn c o.invocations
unfolding drain_agent_mandate
drain_agent_mandate-Withdrawn rt c o h apart =
    elim (Result-cases (load_own_mandate rt c.agent_mandate c.authority c.agent)) [
      | inr bad ↦ absurd (ground arith)
      | inl (l, e) ↦ elim (Result-cases (withdraw rt c (into_current_agent l))) [
        | inr bad ↦ absurd (ground arith)
        | inl (calls, ew) ↦
            let same : o.invocations ≡ calls = ground arith in
            (ground arith, rw same (withdraw-Withdrawn rt c (into_current_agent l) calls ew apart))
      ]
    ]

-- A creation mints exactly what it puts into the vault.
pub create_agent_mandate-funded :
    (rt : Runtime) (c : CreateAgentMandate) (t : AgentTerms) (funded : ℕ) (now : ℤ)
    (o : AgentOutcome)
    → create_agent_mandate rt c t funded now ≡ ok o
    → c.authority_usdc_account.key ≢ c.wrapping_vault.key
    → (minted c.wrapped_usdc_mint o.invocations ≡ funded)
      × (deposited c.wrapping_vault.key o.invocations ≡ funded)
      × KeepsBacking c.wrapped_usdc_mint c.wrapping_vault.key o.invocations
unfolding create_agent_mandate initialize_agent_mandate
create_agent_mandate-funded rt c t funded now o h apart = ground arith
