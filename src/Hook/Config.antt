-- ===== src/Hook/Config.antt =====
-- `load_protocol_config` and `load_token_config` of the hook, which read the current layout only.
use vela_protocol.Base.{ℕ, some, [], ◌∷◌}
use vela_protocol.Errors.{Result, ok, err, vela, VelaError, ◌>>◌, require_keys_eq}
use vela_protocol.State.{ProtocolConfig, TokenConfig}
use vela_protocol.Runtime.{Runtime, Seed, AccountInfo, AccountData, Layout, program_id}

unfoldable pub deserialize_protocol_config : AccountData → Result ProtocolConfig
deserialize_protocol_config (AccountData.protocol_config (Layout.current c)) = ok c
deserialize_protocol_config _ = err (vela VelaError.invalid_protocol_config)

unfoldable pub deserialize_token_config : AccountData → Result TokenConfig
deserialize_token_config (AccountData.token_config (some t)) = ok t
deserialize_token_config _ = err (vela VelaError.token_not_registered)

module _ (rt : Runtime) where
  unfoldable pub load_protocol_config : AccountInfo → Result ProtocolConfig
  unfolding deserialize_protocol_config
  load_protocol_config account = do
    let expected = (rt.find_program_address (Seed.literal "config" ∷ []) program_id).0
    require_keys_eq account.key expected (vela VelaError.invalid_protocol_config)
    require_keys_eq account.owner program_id (vela VelaError.invalid_protocol_config)
    deserialize_protocol_config account.contents

  unfoldable pub load_token_config : AccountInfo → ℕ → Result TokenConfig
  unfolding deserialize_token_config
  load_token_config account mint = do
    let seeds = Seed.literal "token_config" ∷ Seed.pubkey mint ∷ []
    let expected = (rt.find_program_address seeds program_id).0
    require_keys_eq account.key expected (vela VelaError.token_not_registered)
    require_keys_eq account.owner program_id (vela VelaError.token_not_registered)
    deserialize_token_config account.contents
