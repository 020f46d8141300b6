-- ===== src/Tests/Fixture.antt =====
-- A runtime, a configuration and accounts for the tests.
use Prim.Native.String.{len}
use vela_protocol.Base.{ℕ, ◌+◌, ◌*◌, some, true, false, List, [], ◌∷◌}
use vela_protocol.Base.Int.{pos}
use vela_protocol.Errors.{Result, ok, err}
use vela_protocol.State.{
  ProtocolConfig, ClusterType, KeeperConfig, KeeperMode, TokenConfig, BillingRail,
}
use vela_protocol.Runtime.{
  Runtime, Seed, AccountInfo, AccountData, Layout, program_id, transfer_hook_program_id,
}

-- Sums of the seeds, each at its own position. The bump counts for nothing, so that an address is
-- found and created alike.
abbrev pub address : List Seed → ℕ
address [] = 0
address (Seed.literal s ∷ rest) = len s + 1_000_000 * address rest
address (Seed.pubkey k ∷ rest) = k + 1_000_000 * address rest
address (Seed.u64_le n ∷ rest) = n + 1 + 1_000_000 * address rest
address (Seed.i64_le z ∷ rest) = 1_000_000 * address rest
address (Seed.bump b ∷ rest) = address rest
address (Seed.u8 n ∷ rest) = n + 1_000_000 * address rest
address (Seed.u32_le n ∷ rest) = n + 1_000_000 * address rest

-- Every invocation succeeds.
abbrev pub runtime : Runtime
runtime = record {
  find_program_address = λ seeds program. (address seeds, 255);
  create_program_address = λ seeds program. some (address seeds);
  invoke = λ call. ok tt;
  reload = λ calls key t. t;
  minimum_balance = λ size. size * 10;
  hash = address;
  associated_token_address = λ owner mint program. owner * 1000 + mint;
  associated_token_id = 104;
  token_2022_id = 101;
  spl_token_id = 102;
  system_program_id = 103;
}

-- The value of a result that is one.
abbrev pub from_ok {ℓ} : {A : Type ℓ} → A → Result A → A
from_ok a (ok b) = b
from_ok a (err e) = a

abbrev pub protocol_config : ProtocolConfig
protocol_config = record {
  admin = 10;
  cluster_pubkey = 7;
  cluster_type = ClusterType.cerberus;
  cluster_offset = 0;
  wrapped_usdc_mint = 14;
  wrapping_vault = 15;
  paused = false;
  paused_at = pos 0;
  transfer_hook_program_id = transfer_hook_program_id;
  bump = 255;
  version = 1;
  mxe_program_id = 0;
}

abbrev pub config_account : AccountInfo
config_account = record {
  key = address (Seed.literal "config" ∷ []);
  owner = program_id;
  lamports = 1000;
  contents = AccountData.protocol_config (Layout.current protocol_config);
}

abbrev pub keeper_config : KeeperConfig
keeper_config = record {
  admin = 10;
  mode = KeeperMode.centralized;
  keeper_endpoint = [];
  endpoint_len = 0;
  keeper_authority = 13;
  bump = 255;
  version = 1;
}

abbrev pub keeper_account : AccountInfo
keeper_account = record {
  key = address (Seed.literal "keeper-config" ∷ []);
  owner = program_id;
  lamports = 1000;
  contents = AccountData.keeper_config (Layout.current keeper_config);
}

abbrev pub token_config : TokenConfig
token_config = record {
  mint = 14;
  token_program = 101;
  billing_rail = BillingRail.transfer_hook;
  decimals = 6;
  enabled = true;
  oracle_reference = 0;
  admin = 10;
  created_at = pos 0;
  bump = 255;
  version = 1;
}

abbrev pub token_config_account : AccountInfo
token_config_account = record {
  key = address (Seed.literal "token_config" ∷ Seed.pubkey 14 ∷ []);
  owner = program_id;
  lamports = 1000;
  contents = AccountData.token_config (some token_config);
}

-- The wrapped tokens of an owner.
abbrev pub wrapped_tokens : ℕ → ℕ → AccountInfo
wrapped_tokens key owner = record {
  key = key;
  owner = 101;
  lamports = 1000;
  contents = AccountData.token_account (record { mint = 14; owner = owner; amount = 1_000_000 });
}

abbrev pub meta_list : ℕ
meta_list = address (Seed.literal "extra-account-metas" ∷ Seed.pubkey 14 ∷ [])

abbrev pub approval_address : ℕ → ℕ
approval_address authority = address (Seed.literal "approval" ∷ Seed.pubkey authority ∷ [])
