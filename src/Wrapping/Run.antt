-- ===== src/Wrapping/Run.antt =====
-- Runs of the handlers that mint or burn wrapped tokens.
use vela_protocol.Base.{ℕ, ◌≡◌, ◌≢◌, refl, ◌+◌, arith, List, [], ◌∷◌, ◌++◌, All}
use vela_protocol.Base.Int.{ℤ}
use vela_protocol.Errors.{ok}
use vela_protocol.Runtime.{Runtime, Invocation, KeepsBacking, minted, burned, deposited, released}
use vela_protocol.Agent.Handlers.{
  CreateAgentMandate, AgentTerms, RevokeAgentMandate, DrainAgentMandate, AgentOutcome,
  create_agent_mandate, revoke_agent_mandate, drain_agent_mandate,
}
use vela_protocol.Agent.Backing.{
  create_agent_mandate-funded, revoke_agent_mandate-Withdrawn, drain_agent_mandate-Withdrawn,
}
use vela_protocol.Wrapping.Handlers.{Wrap, Unwrap, wrap, unwrap}
use vela_protocol.Wrapping.Backing.{wrap-KeepsBacking, unwrap-KeepsBacking}

-- A call that succeeds, by the mint, the vault, the USDC account that pays or is paid, and the
-- invocations.
pub data BackingStep (rt : Runtime) : (mint vault account : ℕ) → List Invocation → Type 0 where
  wrapped :
      (c : Wrap) (amount : ℕ) (calls : List Invocation)
      → wrap rt c amount ≡ ok calls
      → BackingStep rt c.wrapped_usdc_mint c.wrapping_vault.key c.subscriber_usdc_account.key calls
  unwrapped :
      (c : Unwrap) (amount : ℕ) (calls : List Invocation)
      → unwrap rt c amount ≡ ok calls
      → BackingStep rt c.wrapped_usdc_mint c.wrapping_vault.key c.user_usdc_account.key calls
  created :
      (c : CreateAgentMandate) (t : AgentTerms) (funded : ℕ) (now : ℤ) (o : AgentOutcome)
      → create_agent_mandate rt c t funded now ≡ ok o
      → BackingStep rt c.wrapped_usdc_mint c.wrapping_vault.key c.authority_usdc_account.key
          o.invocations
  revoked :
      (c : RevokeAgentMandate) (o : AgentOutcome)
      → revoke_agent_mandate rt c ≡ ok o
      → BackingStep rt c.wrapped_usdc_mint c.wrapping_vault.key c.authority_usdc_account.key
          o.invocations
  drained :
      (c : DrainAgentMandate) (o : AgentOutcome)
      → drain_agent_mandate rt c ≡ ok o
      → BackingStep rt c.wrapped_usdc_mint c.wrapping_vault.key c.authority_usdc_account.key
          o.invocations

-- Such calls at one mint and one vault, with the accounts that they pay or are paid from.
pub data BackingRun (rt : Runtime) (mint vault : ℕ)
    : (accounts : List ℕ) → List Invocation → Type 0 where
  done : BackingRun rt mint vault [] []
  more :
      {account : ℕ} {accounts : List ℕ} {calls later : List Invocation}
      → BackingStep rt mint vault account calls
      → BackingRun rt mint vault accounts later
      → BackingRun rt mint vault (account ∷ accounts) (calls ++ later)

BackingStep-KeepsBacking :
    {rt : Runtime} {mint vault account : ℕ} {calls : List Invocation}
    → BackingStep rt mint vault account calls
    → account ≢ vault
    → KeepsBacking mint vault calls
BackingStep-KeepsBacking {rt} (BackingStep.wrapped c amount calls h) apart =
    (wrap-KeepsBacking rt c amount calls h apart).2
BackingStep-KeepsBacking {rt} (BackingStep.unwrapped c amount calls h) apart =
    (unwrap-KeepsBacking rt c amount calls h apart).2
BackingStep-KeepsBacking {rt} (BackingStep.created c t funded now o h) apart =
    (create_agent_mandate-funded rt c t funded now o h apart).2
BackingStep-KeepsBacking {rt} (BackingStep.revoked c o h) apart =
    (revoke_agent_mandate-Withdrawn rt c o h apart).2
BackingStep-KeepsBacking {rt} (BackingStep.drained c o h) apart =
    (drain_agent_mandate-Withdrawn rt c o h apart).1.2

sums-append :
    (mint vault : ℕ) (calls later : List Invocation)
    → (minted mint (calls ++ later) ≡ minted mint calls + minted mint later)
      × (burned mint (calls ++ later) ≡ burned mint calls + burned mint later)
      × (deposited vault (calls ++ later) ≡ deposited vault calls + deposited vault later)
      × (released vault (calls ++ later) ≡ released vault calls + released vault later)
sums-append mint vault [] later = ground arith
sums-append mint vault (call ∷ rest) later =
    let (m, b, d, r) = sums-append mint vault rest later in ground arith

-- Over any run of wrappings, unwrappings, creations, revocations and drainings at one mint and one
-- vault, in which the vault is not also the USDC account of the user, as much is minted and
-- released as is burnt and deposited, so the wrapped tokens stay backed.
pub BackingRun-KeepsBacking :
    (rt : Runtime) (mint vault : ℕ) (accounts : List ℕ) (calls : List Invocation)
    → BackingRun rt mint vault accounts calls
    → All (λ account. account ≢ vault) accounts
    → KeepsBacking mint vault calls
BackingRun-KeepsBacking rt mint vault accounts calls BackingRun.done h = refl
BackingRun-KeepsBacking rt mint vault accounts calls
      (BackingRun.more {accounts = rest} {calls = first} {later = later} step run) (apart, h) =
    let kept = BackingStep-KeepsBacking step apart in
    let kept_later = BackingRun-KeepsBacking rt mint vault rest later run h in
    let (m, b, d, r) = sums-append mint vault first later in omega arith
