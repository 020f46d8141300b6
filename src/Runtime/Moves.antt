-- ===== src/Runtime/Moves.antt =====
-- What lists of invocations do to token balances and supplies.
use vela_protocol.Base.{ℕ, ◌+◌, Option, none, some, ◌==◌, ◌&&◌, if◌then◌else◌, List, [], ◌∷◌, ◌≡◌}
use vela_protocol.Runtime.Invoke.{Invocation, Instruction}

-- What the invocations move from one token account to another under an authority, if they are all
-- transfers of that kind.
abbrev pub moved : (source destination authority : ℕ) → List Invocation → Option ℕ
moved source destination authority [] = some 0
moved source destination authority (call ∷ rest) = elim call.instruction [
  | Instruction.transfer_checked p s m d a amount decimals extra ↦
      if s == source && d == destination && a == authority
      then elim (moved source destination authority rest) [
        | none ↦ none
        | some n ↦ some (amount + n)
      ]
      else none
  | _ ↦ none
]

-- The amounts of all mintings and burnings of the mint, and of all transfers into and out of the vault.
abbrev pub minted : ℕ → List Invocation → ℕ
minted mint [] = 0
minted mint (call ∷ rest) = elim call.instruction [
  | Instruction.mint_to p m to a amount ↦ (if m == mint then amount else 0) + minted mint rest
  | _ ↦ minted mint rest
]

abbrev pub burned : ℕ → List Invocation → ℕ
burned mint [] = 0
burned mint (call ∷ rest) = elim call.instruction [
  | Instruction.burn p m from a amount ↦ (if m == mint then amount else 0) + burned mint rest
  | _ ↦ burned mint rest
]

abbrev pub deposited : ℕ → List Invocation → ℕ
deposited vault [] = 0
deposited vault (call ∷ rest) = elim call.instruction [
  | Instruction.transfer_checked p s m d a amount decimals extra ↦
      (if d == vault then amount else 0) + deposited vault rest
  | _ ↦ deposited vault rest
]

abbrev pub released : ℕ → List Invocation → ℕ
released vault [] = 0
released vault (call ∷ rest) = elim call.instruction [
  | Instruction.transfer_checked p s m d a amount decimals extra ↦
      (if s == vault then amount else 0) + released vault rest
  | _ ↦ released vault rest
]

-- As much is minted and released as is burnt and deposited: the vault backs the mint as it did before.
abbrev pub KeepsBacking : ℕ → ℕ → List Invocation → Type 0
KeepsBacking mint vault calls =
    minted mint calls + released vault calls ≡ burned mint calls + deposited vault calls
