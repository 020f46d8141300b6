-- ===== src/Accounts/Merchant.antt =====
-- accounts/merchant_account.rs: loading and writing a merchant's state, in either layout, and the
-- merchant's credential mint.
use vela_protocol.Base.{
  ℕ, ◌-◌, none, some, not, ltb, ◌==◌, ◌||◌, if◌then◌else◌, List, [], ◌∷◌, ◌++◌,
}
use vela_protocol.Errors.{Result, ok, err, program, ProgramError, ◌>>=◌, ◌>>◌, require}
use vela_protocol.State.{MerchantState, MerchantStateV1}
use vela_protocol.Runtime.{
  Runtime, Seed, AccountInfo, AccountData, Instruction, Invocation, data_is_empty, program_id,
  default_pubkey, current_account_version,
}

pub data LoadedMerchantState : Type 0 where
  legacy : MerchantStateV1 → LoadedMerchantState
  current : MerchantState → LoadedMerchantState

unfoldable pub into_current_merchant : LoadedMerchantState → MerchantState
into_current_merchant (LoadedMerchantState.legacy s) = record {
  merchant = s.merchant;
  plan_count = s.plan_count;
  bump = s.bump;
  credential_mint = default_pubkey;
  mandate_counter = 0;
  stream_mandate_counter = 0;
  version = current_account_version;
}
into_current_merchant (LoadedMerchantState.current s) = s

-- The current layout is tried first, in any version; what stands behind the legacy data is not read.
unfoldable pub decode_merchant_state : AccountData → Result LoadedMerchantState
decode_merchant_state (AccountData.merchant_state decoded) = elim decoded.current [
  | some s ↦ ok (LoadedMerchantState.current s)
  | none ↦ elim decoded.legacy [
    | some s ↦ ok (LoadedMerchantState.legacy s.0)
    | none ↦ err (program ProgramError.invalid_account_data)
  ]
]
decode_merchant_state _ = err (program ProgramError.invalid_account_data)

unfoldable pub write_merchant_state : AccountInfo → MerchantState → AccountInfo
write_merchant_state info state = record info {
  contents = AccountData.merchant_state (record { current = some state; legacy = none });
}

abbrev pub merchant_seeds : ℕ → List Seed
merchant_seeds merchant = Seed.literal "merchant" ∷ Seed.pubkey merchant ∷ []

-- `MerchantState::SIZE`
abbrev pub merchant_state_size : ℕ
merchant_state_size = 154

module _ (rt : Runtime) where
  unfoldable pub validate_merchant_state_address : (merchant_state merchant : ℕ) → Result (Unit {0})
  validate_merchant_state_address merchant_state merchant =
      require (merchant_state == (rt.find_program_address (merchant_seeds merchant) program_id).0)
        (program ProgramError.invalid_seeds)

  unfoldable pub load_merchant_state : AccountInfo → (merchant : ℕ) → Result LoadedMerchantState
  unfolding decode_merchant_state validate_merchant_state_address
  load_merchant_state info merchant = do
    validate_merchant_state_address info.key merchant
    require (info.owner == program_id) (program ProgramError.incorrect_program_id)
    decode_merchant_state info.contents

  -- The merchant's own credential mint if there is one, and the plan's otherwise.
  unfoldable pub resolve_merchant_credential_mint :
      AccountInfo → (merchant plan_credential_mint : ℕ) → ℕ
  unfolding load_merchant_state
  resolve_merchant_credential_mint info merchant plan_credential_mint =
      if data_is_empty info.contents || not (info.owner == program_id)
      then plan_credential_mint
      else elim (load_merchant_state info merchant) [
        | err e ↦ plan_credential_mint
        | ok loaded ↦
            let mint = (into_current_merchant loaded).credential_mint in
            if mint == default_pubkey then plan_credential_mint else mint
      ]

  unfoldable pub create_merchant_state_account :
      (payer : ℕ) → AccountInfo → (merchant bump : ℕ) → Result (AccountInfo × List Invocation)
  create_merchant_state_account payer info merchant bump = do
    let lamports = rt.minimum_balance merchant_state_size
    let call : Invocation = record {
      instruction =
          Instruction.create_account payer info.key lamports merchant_state_size program_id;
      signer_seeds = merchant_seeds merchant ++ Seed.bump bump ∷ [];
    }
    rt.invoke call
    ok (record info { owner = program_id; lamports = lamports }, call ∷ [])

  -- The resizing itself shows only in what the account can hold.
  unfoldable pub resize_merchant_state_account :
      (payer : ℕ) → AccountInfo → Result (AccountInfo × List Invocation)
  resize_merchant_state_account payer info = do
    require (info.owner == program_id) (program ProgramError.incorrect_program_id)
    let required_lamports = rt.minimum_balance merchant_state_size
    if ltb info.lamports required_lamports
        then (do
          let call : Invocation = record {
            instruction = Instruction.transfer payer info.key (required_lamports - info.lamports);
            signer_seeds = [];
          }
          rt.invoke call
          ok (record info { lamports = required_lamports }, call ∷ []))
        else ok (info, [])

  -- The state, its account as it was written, and the invocations.
  unfoldable pub ensure_merchant_state :
      (payer : ℕ)
      → AccountInfo
      → (merchant bump : ℕ) → Result (MerchantState × AccountInfo × List Invocation)
  ensure_merchant_state payer info merchant bump = do
    validate_merchant_state_address info.key merchant
    if data_is_empty info.contents
        then (do
          (created, calls) ← create_merchant_state_account payer info merchant bump
          let state : MerchantState = record {
            merchant = merchant;
            plan_count = 0;
            bump = bump;
            credential_mint = default_pubkey;
            mandate_counter = 0;
            stream_mandate_counter = 0;
            version = current_account_version;
          }
          ok (state, write_merchant_state created state, calls))
        else (do
          loaded ← load_merchant_state info merchant
          let old = into_current_merchant loaded
          require (old.merchant == default_pubkey || old.merchant == merchant)
              (program ProgramError.invalid_account_data)
          (resized, calls) ← resize_merchant_state_account payer info
          let state = record old {
            merchant = merchant;
            bump = bump;
            version = current_account_version;
          }
          ok (state, write_merchant_state resized state, calls))
