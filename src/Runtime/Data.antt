-- ===== src/Runtime/Data.antt =====
-- Accounts. Anchor's codec is not part of the program: an account's data is given as what its
-- discriminator says it is and what its bytes decode to.
use vela_protocol.Base.{ℕ, Bool, true, false, Option}
use vela_protocol.State.{
  StreamMandate, AgentMandate, AgentMandateV1, VelaMandate, VelaMandateV1, PullApproval,
  ProtocolConfig, ProtocolConfigV1, KeeperConfig, KeeperConfigV1, TokenConfig, MerchantState,
  MerchantStateV1, VelaPlan, VelaPlanV1, UsagePlan, UsagePlanV1, UsageReport,
}

-- A type with a legacy layout. `legacy l padded` is data that decodes as the legacy layout only;
-- `padded` says whether the bytes behind it are all zero.
pub data Layout (A L : Type 0) : Type 0 where
  current : A → Layout A L
  legacy : L → Bool → Layout A L
  malformed : Layout A L

-- What the decoders of the current and of the legacy layout make of the same data. The Boolean says
-- whether the bytes behind the legacy data are all zero.
pub record Decoded (A L : Type 0) : Type 0 where
  pub current : Option A
  pub legacy : Option (L × Bool)

-- A token account as Token-2022 unpacks it.
pub record TokenAccount : Type 0 where
  pub mint : ℕ
  pub owner : ℕ
  pub amount : ℕ

-- `empty` has no bytes and `short` too few for a discriminator; `unknown` has a discriminator of
-- no type of the program. `none` is the right discriminator on data that does not decode. Behind the
-- discriminator of a flat plan stands also what the legacy decoder of usage plans makes of the data.
-- The services of an agent mandate are of variable length: with it stands the length of the data.
pub data AccountData : Type 0 where
  empty short unknown : AccountData
  protocol_config : Layout ProtocolConfig ProtocolConfigV1 → AccountData
  keeper_config : Layout KeeperConfig KeeperConfigV1 → AccountData
  token_config : Option TokenConfig → AccountData
  stream_mandate : Option StreamMandate → AccountData
  mandate : Layout VelaMandate VelaMandateV1 → AccountData
  agent_mandate : Layout AgentMandate AgentMandateV1 → (data_len : ℕ) → AccountData
  pull_approval : Option PullApproval → AccountData
  merchant_state : Decoded MerchantState MerchantStateV1 → AccountData
  flat_plan : Decoded VelaPlan VelaPlanV1 → Option (UsagePlanV1 × Bool) → AccountData
  usage_plan : Decoded UsagePlan UsagePlanV1 → AccountData
  usage_report : Option UsageReport → AccountData
  token_account : TokenAccount → AccountData

pub record AccountInfo : Type 0 where
  pub key : ℕ
  pub owner : ℕ
  pub lamports : ℕ
  pub contents : AccountData

-- `data_is_empty()`
abbrev pub data_is_empty : AccountData → Bool
data_is_empty AccountData.empty = true
data_is_empty _ = false
