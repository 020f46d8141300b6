-- ===== src/Arcium/Accounts.antt =====
-- arcium/arcium_accounts.rs: the addresses of Arcium's accounts, the offsets of computations, and the
-- checks of the accounts of a request and of a callback.
use vela_protocol.Base.{
  ℕ, zero, suc, ◌+◌, ◌-◌, ◌*◌, ◌/◌, ◌%◌, ◌^◌, String, Bool, false, ltb, ◌==◌, if◌then◌else◌, List,
  [], ◌∷◌,
}
use vela_protocol.Base.Int.{ℤ, pos, negsuc}
use vela_protocol.Base.Machine.{u64_mod}
use vela_protocol.Errors.{Result, ok, err, vela, VelaError, ◌>>=◌, ◌>>◌, require_keys_eq}
use vela_protocol.State.{ProtocolConfig}
use vela_protocol.Runtime.{Runtime, Seed, program_id, default_pubkey}

-- An account of a callback.
pub record CallbackAccount : Type 0 where
  pub pubkey : ℕ
  pub is_writable : Bool

pub record CallbackInstruction : Type 0 where
  pub program_id : ℕ
  pub discriminator : List ℕ
  pub accounts : List CallbackAccount

-- One argument of a computation. Ciphertexts and keys are the numbers of their bytes.
pub data Argument : Type 0 where
  x25519_pubkey plaintext_u128 plaintext_u64 plaintext_u8 encrypted_u64 encrypted_i64 : ℕ → Argument
  plaintext_i64 : ℤ → Argument

pub record Queued : Type 0 where
  pub computation_offset : ℕ
  pub args : List Argument
  pub callback : CallbackInstruction

-- What arcium_anchor and arcium_client give: the program's id, the seeds of its addresses, its fixed
-- accounts, the offset of a circuit, and the verdict on a computation that is queued.
pub record ArciumProgram : Type 0 where
  pub id : ℕ
  pub cluster_seed : String
  pub mempool_seed : String
  pub execpool_seed : String
  pub comp_seed : String
  pub comp_def_seed : String
  pub mxe_seed : String
  pub sign_seed : String
  pub fee_pool : ℕ
  pub clock : ℕ
  pub instructions_sysvar : ℕ
  pub comp_def_offset : String → ℕ
  pub queue_computation : Queued → Result (Unit {0})

-- `effective_mxe_program_id` of state/protocol_config.rs
unfoldable pub effective_mxe_program_id : ProtocolConfig → ℕ
effective_mxe_program_id config =
    if config.mxe_program_id == default_pubkey then program_id else config.mxe_program_id

-- `u32::try_from(cluster_offset)`
unfoldable pub cluster_id_from_offset : ℕ → (error : VelaError) → Result ℕ
cluster_id_from_offset cluster_offset error =
    if ltb cluster_offset (2 ^ 32) then ok cluster_offset else err (vela error)

-- The number whose little-endian bytes are the first `n` of the 32 bytes of a key.
abbrev pub leading_le : (n : ℕ) → ℕ → ℕ
leading_le zero key = 0
leading_le (suc n) key = leading_le n key + key / 256 ^ (31 - n) % 256 * 256 ^ n

-- The eight bytes of an i64, as a number.
abbrev pub i64_bits : ℤ → ℕ
i64_bits (pos n) = n
i64_bits (negsuc n) = u64_mod - 1 - n

-- The keys of Arcium's accounts in a request.
pub record QueueAccounts : Type 0 where
  pub mxe_account : ℕ
  pub mempool_account : ℕ
  pub executing_pool : ℕ
  pub computation_account : ℕ
  pub comp_def_account : ℕ
  pub cluster_account : ℕ
  pub pool_account : ℕ
  pub clock_account : ℕ

module _ (rt : Runtime) (ar : ArciumProgram) where
  abbrev arcium_address : List Seed → ℕ
  arcium_address seeds = (rt.find_program_address seeds ar.id).0

  unfoldable pub derive_cluster_pubkey : ℕ → ℕ
  derive_cluster_pubkey cluster_id =
      arcium_address (Seed.literal ar.cluster_seed ∷ Seed.u32_le cluster_id ∷ [])

  unfoldable pub derive_mempool_pubkey : ℕ → ℕ
  derive_mempool_pubkey cluster_id =
      arcium_address (Seed.literal ar.mempool_seed ∷ Seed.u32_le cluster_id ∷ [])

  unfoldable pub derive_execpool_pubkey : ℕ → ℕ
  derive_execpool_pubkey cluster_id =
      arcium_address (Seed.literal ar.execpool_seed ∷ Seed.u32_le cluster_id ∷ [])

  unfoldable pub derive_computation_pubkey : (cluster_id computation_offset : ℕ) → ℕ
  derive_computation_pubkey cluster_id computation_offset =
      arcium_address
        (Seed.literal ar.comp_seed ∷ Seed.u32_le cluster_id ∷ Seed.u64_le computation_offset ∷ [])

  unfoldable pub derive_comp_def_pubkey_for_mxe : (circuit_name : String) (mxe_program_id : ℕ) → ℕ
  derive_comp_def_pubkey_for_mxe circuit_name mxe_program_id =
      let offset = Seed.u32_le (ar.comp_def_offset circuit_name) in
      arcium_address (Seed.literal ar.comp_def_seed ∷ Seed.pubkey mxe_program_id ∷ offset ∷ [])

  unfoldable pub derive_mxe_pubkey : (mxe_program_id : ℕ) → ℕ
  derive_mxe_pubkey mxe_program_id =
      arcium_address (Seed.literal ar.mxe_seed ∷ Seed.pubkey mxe_program_id ∷ [])

  unfoldable pub derive_request_offset :
      (domain : String) (mandate : ℕ) (extra_slices : List Seed) → ℕ
  derive_request_offset domain mandate extra_slices =
      let slices = Seed.literal domain ∷ Seed.pubkey mandate ∷ extra_slices in
      leading_le 8 (rt.find_program_address slices program_id).0

  unfoldable pub derive_validation_computation_offset :
      (mandate : ℕ) (next_payment_due : ℤ) (request_nonce : ℕ) → ℕ
  unfolding derive_request_offset
  derive_validation_computation_offset mandate next_payment_due request_nonce =
      derive_request_offset "validate_mandate" mandate
        (Seed.i64_le next_payment_due ∷ Seed.u64_le request_nonce ∷ [])

  unfoldable pub derive_billing_computation_offset : (mandate pulls_executed request_nonce : ℕ) → ℕ
  unfolding derive_request_offset
  derive_billing_computation_offset mandate pulls_executed request_nonce =
      derive_request_offset "record_billing_event" mandate
        (Seed.u64_le pulls_executed ∷ Seed.u64_le request_nonce ∷ [])

  unfoldable pub derive_usage_computation_offset :
      (mandate : ℕ) (period_start : ℤ) (request_nonce : ℕ) → ℕ
  unfolding derive_request_offset
  derive_usage_computation_offset mandate period_start request_nonce =
      derive_request_offset "usage" mandate
        (Seed.i64_le period_start ∷ Seed.u64_le request_nonce ∷ [])

  unfoldable pub validate_cluster_configuration :
      (cluster_pubkey cluster_offset : ℕ) → Result (Unit {0})
  validate_cluster_configuration cluster_pubkey cluster_offset = do
    cluster_id ← cluster_id_from_offset cluster_offset VelaError.invalid_protocol_config
    require_keys_eq cluster_pubkey (derive_cluster_pubkey cluster_id)
        (vela VelaError.invalid_protocol_config)

  unfoldable pub validate_protocol_config : ProtocolConfig → Result (Unit {0})
  validate_protocol_config config =
      validate_cluster_configuration config.cluster_pubkey config.cluster_offset

  unfoldable pub validate_queue_accounts :
      QueueAccounts
      → (cluster_offset computation_offset : ℕ) (circuit_name : String) (mxe_program_id : ℕ)
      → Result (Unit {0})
  validate_queue_accounts q cluster_offset computation_offset circuit_name mxe_program_id = do
    let bad = vela VelaError.invalid_arcium_account
    cluster_id ← cluster_id_from_offset cluster_offset VelaError.invalid_arcium_account
    require_keys_eq q.mxe_account (derive_mxe_pubkey mxe_program_id) bad
    require_keys_eq q.mempool_account (derive_mempool_pubkey cluster_id) bad
    require_keys_eq q.executing_pool (derive_execpool_pubkey cluster_id) bad
    require_keys_eq q.computation_account (derive_computation_pubkey cluster_id computation_offset)
        bad
    require_keys_eq q.comp_def_account (derive_comp_def_pubkey_for_mxe circuit_name mxe_program_id)
        bad
    require_keys_eq q.cluster_account (derive_cluster_pubkey cluster_id) bad
    require_keys_eq q.pool_account ar.fee_pool bad
    require_keys_eq q.clock_account ar.clock bad

  unfoldable pub validate_static_callback_accounts :
      (mxe_account comp_def_account : ℕ) (circuit_name : String) (mxe_program_id : ℕ)
      → Result (Unit {0})
  validate_static_callback_accounts mxe_account comp_def_account circuit_name mxe_program_id = do
    require_keys_eq mxe_account (derive_mxe_pubkey mxe_program_id)
        (vela VelaError.invalid_arcium_account)
    require_keys_eq comp_def_account (derive_comp_def_pubkey_for_mxe circuit_name mxe_program_id)
        (vela VelaError.invalid_arcium_account)

  unfoldable pub validate_callback_binding :
      ProtocolConfig
      → (cluster_account computation_account computation_offset : ℕ) → Result (Unit {0})
  unfolding validate_protocol_config
  validate_callback_binding config cluster_account computation_account computation_offset = do
    let bad = vela VelaError.invalid_callback_binding
    validate_protocol_config config
    cluster_id ← cluster_id_from_offset config.cluster_offset VelaError.invalid_callback_binding
    require_keys_eq cluster_account config.cluster_pubkey bad
    require_keys_eq cluster_account (derive_cluster_pubkey cluster_id) bad
    require_keys_eq computation_account (derive_computation_pubkey cluster_id computation_offset)
        bad

  abbrev read_only : ℕ → CallbackAccount
  read_only key = record { pubkey = key; is_writable = false }

  unfoldable pub build_callback_instruction :
      (discriminator : List ℕ) (computation_offset cluster_offset : ℕ) (circuit_name : String)
      (mxe_program_id : ℕ) (extra_accs : List CallbackAccount)
      → Result CallbackInstruction
  build_callback_instruction discriminator computation_offset cluster_offset circuit_name
        mxe_program_id extra_accs =
      do
        cluster_id ← cluster_id_from_offset cluster_offset VelaError.invalid_arcium_account
        ok (record {
          program_id = program_id;
          discriminator = discriminator;
          accounts =
              read_only ar.id
              ∷ read_only (derive_comp_def_pubkey_for_mxe circuit_name mxe_program_id)
              ∷ read_only (derive_mxe_pubkey mxe_program_id)
              ∷ read_only (derive_computation_pubkey cluster_id computation_offset)
              ∷ read_only (derive_cluster_pubkey cluster_id)
              ∷ read_only ar.instructions_sysvar
              ∷ extra_accs;
        })
