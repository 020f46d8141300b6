-- ===== src/Wrapping/Backing.antt =====
-- What wrapping and unwrapping move into the vault and out of it.
use vela_protocol.Base.{ℕ, inl, inr, ◌≡◌, ◌≢◌, arith, List}
use vela_protocol.Errors.{ok, Result-cases}
use vela_protocol.Runtime.{Runtime, Invocation, KeepsBacking, minted, burned, deposited, released}
use vela_protocol.Accounts.{load_protocol_config}
use vela_protocol.Wrapping.Handlers.{Wrap, Unwrap, wrap, unwrap}

-- A wrapping.
pub wrap-KeepsBacking :
    (rt : Runtime) (c : Wrap) (amount : ℕ) (calls : List Invocation)
    → wrap rt c amount ≡ ok calls
    → c.subscriber_usdc_account.key ≢ c.wrapping_vault.key
    → (minted c.wrapped_usdc_mint calls ≡ amount)
      × (deposited c.wrapping_vault.key calls ≡ amount)
      × KeepsBacking c.wrapped_usdc_mint c.wrapping_vault.key calls
unfolding wrap
wrap-KeepsBacking rt c amount calls h apart =
    elim (Result-cases (load_protocol_config rt c.config)) [
      | inr bad ↦ absurd (ground arith)
      | inl (l, e) ↦ ground arith
    ]

-- An unwrapping.
pub unwrap-KeepsBacking :
    (rt : Runtime) (c : Unwrap) (amount : ℕ) (calls : List Invocation)
    → unwrap rt c amount ≡ ok calls
    → c.user_usdc_account.key ≢ c.wrapping_vault.key
    → (burned c.wrapped_usdc_mint calls ≡ amount)
      × (released c.wrapping_vault.key calls ≡ amount)
      × KeepsBacking c.wrapped_usdc_mint c.wrapping_vault.key calls
unfolding unwrap
unwrap-KeepsBacking rt c amount calls h apart =
    elim (Result-cases (load_protocol_config rt c.config)) [
      | inr bad ↦ absurd (ground arith)
      | inl (l, e) ↦ ground arith
    ]
