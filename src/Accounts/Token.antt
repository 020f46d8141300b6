-- ===== src/Accounts/Token.antt =====
-- token/spl_helpers.rs: the checks before a Token-2022 transfer, and the transfer with the accounts
-- of the hook appended.
use vela_protocol.Base.{ℕ, true, false, List, [], ◌∷◌}
use vela_protocol.Errors.{Result, ok, err, vela, VelaError, ◌>>=◌, ◌>>◌, require_keys_eq}
use vela_protocol.Runtime.{
  Runtime, Seed, AccountInfo, AccountData, AccountMeta, TokenAccount, Instruction, Invocation,
}

-- The keys of `TransferCheckedWithHookAccounts`.
pub record TransferCheckedWithHookAccounts : Type 0 where
  pub source : ℕ
  pub mint : ℕ
  pub destination : ℕ
  pub authority : ℕ
  pub protocol_program : ℕ
  pub wrapping_vault : ℕ
  pub protocol_config : ℕ
  pub pull_approval : ℕ
  pub token_config : ℕ
  pub system_program : ℕ
  pub extra_account_meta_list : ℕ
  pub hook_program : ℕ
  pub token_2022_program : ℕ

abbrev readonly : ℕ → AccountMeta
readonly key = record { pubkey = key; is_signer = false; is_writable = false }

unfoldable pub transfer_hook_account_metas : TransferCheckedWithHookAccounts → List AccountMeta
transfer_hook_account_metas a =
    readonly a.protocol_program
    ∷ readonly a.wrapping_vault
    ∷ readonly a.protocol_config
    ∷ record { pubkey = a.pull_approval; is_signer = false; is_writable = true }
    ∷ readonly a.token_config
    ∷ readonly a.system_program
    ∷ readonly a.system_program
    ∷ readonly a.system_program
    ∷ readonly a.extra_account_meta_list
    ∷ readonly a.hook_program
    ∷ []

-- `StateWithExtensions::<Token2022Account>::unpack`
unfoldable pub unpack_token_account : AccountData → Result TokenAccount
unpack_token_account (AccountData.token_account t) = ok t
unpack_token_account _ = err (vela VelaError.transfer_not_authorized)

unfoldable pub validate_token_2022_transfer_accounts :
    (source destination : AccountInfo)
    → (mint token_2022_program expected_source_authority expected_destination_owner : ℕ)
    → Result (Unit {0})
unfolding unpack_token_account
validate_token_2022_transfer_accounts source destination mint token_2022 source_authority
      dest_owner =
    do
      require_keys_eq source.owner token_2022 (vela VelaError.transfer_not_authorized)
      require_keys_eq destination.owner token_2022 (vela VelaError.transfer_not_authorized)
      source_account ← unpack_token_account source.contents
      destination_account ← unpack_token_account destination.contents
      require_keys_eq source_account.mint mint (vela VelaError.usdc_mint_mismatch)
      require_keys_eq destination_account.mint mint (vela VelaError.usdc_mint_mismatch)
      require_keys_eq source_account.owner source_authority (vela VelaError.transfer_not_authorized)
      require_keys_eq destination_account.owner dest_owner (vela VelaError.transfer_not_authorized)

module _ (rt : Runtime) where
  -- The invocation that was made, for the record of what a handler did.
  unfoldable pub invoke_transfer_checked_with_hook :
      TransferCheckedWithHookAccounts → ℕ → ℕ → List Seed → Result Invocation
  unfolding transfer_hook_account_metas
  invoke_transfer_checked_with_hook a amount decimals seeds = do
    let call : Invocation = record {
      instruction =
          Instruction.transfer_checked a.token_2022_program a.source a.mint a.destination
            a.authority amount decimals (transfer_hook_account_metas a);
      signer_seeds = seeds;
    }
    rt.invoke call
    ok call
