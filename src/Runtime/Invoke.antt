-- ===== src/Runtime/Invoke.antt =====
-- Cross-program invocations and what the program takes from the runtime and from other programs.
use vela_protocol.Base.{ℕ, Option, none, some, Bool, List, String, ◌==◌}
use vela_protocol.Base.Int.{ℤ}
use vela_protocol.Errors.{Result, err, anchor, AnchorError, require}
use vela_protocol.Runtime.Data.{TokenAccount}

-- One seed of a program-derived address: the bytes that stand in the source.
pub data Seed : Type 0 where
  literal : String → Seed
  pubkey : ℕ → Seed
  u64_le : ℕ → Seed
  i64_le : ℤ → Seed
  bump : ℕ → Seed
  u8 u32_le : ℕ → Seed

pub record AccountMeta : Type 0 where
  pub pubkey : ℕ
  pub is_signer : Bool
  pub is_writable : Bool

-- An instruction of another program. `extra` is what is appended to the accounts of a transfer.
pub data Instruction : Type 0 where
  transfer_checked :
      (token_program source mint destination authority amount decimals : ℕ)
      → (extra : List AccountMeta) → Instruction
  mint_to : (token_program mint to authority amount : ℕ) → Instruction
  burn : (token_program mint from authority amount : ℕ) → Instruction
  create_account : (payer account lamports space owner : ℕ) → Instruction
  transfer : (from to lamports : ℕ) → Instruction
  create_associated_token : (payer account authority mint token_program : ℕ) → Instruction
  revoke : (token_program source authority : ℕ) → Instruction

pub record Invocation : Type 0 where
  pub instruction : Instruction
  pub signer_seeds : List Seed

-- `find_program_address` gives the address and the bump, `create_program_address` the address of seeds
-- that hold a bump, if there is one. `invoke` is the verdict of the invoked
-- program, an error of which ends the transaction. `reload` is a token account as it stands after
-- a list of invocations, the oldest first. `hash` is the hash of the bytes of the list.
pub record Runtime : Type 0 where
  pub find_program_address : List Seed → ℕ → ℕ × ℕ
  pub create_program_address : List Seed → ℕ → Option ℕ
  pub invoke : Invocation → Result (Unit {0})
  pub reload : List Invocation → ℕ → TokenAccount → TokenAccount
  pub minimum_balance : ℕ → ℕ
  pub hash : List Seed → ℕ
  pub associated_token_address : (owner mint token_program : ℕ) → ℕ
  pub associated_token_id : ℕ
  pub token_2022_id : ℕ
  pub spl_token_id : ℕ
  pub system_program_id : ℕ

-- A `Program<'info, P>` account is the program with the id of `P`.
abbrev pub require_program : ℕ → ℕ → Result (Unit {0})
require_program key id = require (key == id) (anchor AnchorError.invalid_program_id)

-- `seeds = [...], bump = b` on an account that exists.
abbrev pub require_created : Option ℕ → ℕ → Result (Unit {0})
require_created none key = err (anchor AnchorError.constraint_seeds)
require_created (some address) key = require (key == address) (anchor AnchorError.constraint_seeds)

-- An `Account<'info, A>`, which Anchor has loaded.
pub record Loaded (A : Type 0) : Type 0 where
  pub key : ℕ
  pub state : A
