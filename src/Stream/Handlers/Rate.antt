-- ===== src/Stream/Handlers/Rate.antt =====
-- streaming/update_stream_rate.rs
use vela_protocol.Base.{
  ℕ, ltb, leb, ◌==◌, ◌||◌, Bool, true, false, Option, none, some, is_some, if◌then◌else◌, [], ◌∷◌,
}
use vela_protocol.Base.Int.{ℤ}
use vela_protocol.Base.Machine.{i64_of_u64}
use vela_protocol.Errors.{Result, ok, vela, VelaError, ◌>>=◌, ◌>>◌, require, ok_or}
use vela_protocol.State.{StreamMandate, is_active}
use vela_protocol.Runtime.{Runtime, Event, default_pubkey, event_token_symbol}
use vela_protocol.Accounts.{config_wrapped_usdc_mint}
use vela_protocol.Stream.Account.{write_stream_mandate, settle_accrued_in_place}
use vela_protocol.Stream.Handlers.Control.{
  UpdateStreamRate, StreamOutcome, is_party, open_stream, pay_settlement,
}

abbrev pub get_or_keep : Option ℕ → ℕ → ℕ
get_or_keep none old = old
get_or_keep (some new) old = new

-- `matches!(new_rate, Some(next_rate) if next_rate > mandate.authorized_max_rate)`
abbrev pub raises_above : Option ℕ → ℕ → Bool
raises_above none limit = false
raises_above (some rate) limit = ltb limit rate

-- `if let Some(next_rate) = new_rate { require!(next_rate > 0, …) }`
abbrev pub require_positive : Option ℕ → Result (Unit {0})
require_positive none = ok tt
require_positive (some rate) = require (ltb 0 rate) (vela VelaError.rate_must_be_non_zero)

-- Who may change what, on a stream that is active.
unfoldable pub check_rate_change : ℕ → StreamMandate → Option ℕ → Option ℕ → Result (Unit {0})
check_rate_change authority m new_rate new_max = do
  require (is_active m.status) (vela VelaError.stream_not_active)
  require (is_party authority m) (vela VelaError.unauthorized_stream_signer)
  require (is_some new_rate || is_some new_max) (vela VelaError.no_update_provided)
  let subscriber_required = is_some new_max || raises_above new_rate m.authorized_max_rate
  require (if subscriber_required then authority == m.subscriber else true)
      (vela VelaError.unauthorized_stream_signer)
  require_positive new_rate

-- The new terms, on the settled stream.
abbrev pub apply_rate : StreamMandate → Option ℕ → Option ℕ → StreamMandate
apply_rate m new_rate new_max = record m {
  rate_per_second = get_or_keep new_rate m.rate_per_second;
  authorized_max_rate = get_or_keep new_max m.authorized_max_rate;
}

unfoldable pub update_stream_rate :
    Runtime → UpdateStreamRate → Option ℕ → Option ℕ → ℤ → Result StreamOutcome
update_stream_rate rt c new_rate new_max clock_now = do
  (config, loaded) ← open_stream rt c
  check_rate_change c.authority loaded new_rate new_max
  (settled, settle_amount) ← settle_accrued_in_place loaded clock_now
  calls ← pay_settlement rt c settled settle_amount
  let mandate = apply_rate settled new_rate new_max
  require (leb mandate.rate_per_second mandate.authorized_max_rate)
      (vela VelaError.authorized_max_rate_too_low)
  proration_amount ← ok_or (i64_of_u64 settle_amount) (vela VelaError.overflow)
  let symbol = event_token_symbol mandate.mint (config_wrapped_usdc_mint config)
  let initiated = Event.mandate_upgrade_initiated (record {
    schema_version = 1;
    mandate = c.mandate.key;
    mint = mandate.mint;
    token_symbol = symbol;
    old_plan = default_pubkey;
    new_plan = default_pubkey;
    proration_amount = proration_amount;
    change_type = 1;
    signer = c.authority;
    applied_at = clock_now;
    timestamp = clock_now;
  })
  let updated = Event.stream_rate_updated (record {
    schema_version = 1;
    mandate = c.mandate.key;
    mint = mandate.mint;
    token_symbol = symbol;
    old_rate_per_second = settled.rate_per_second;
    new_rate_per_second = mandate.rate_per_second;
    old_authorized_max_rate = settled.authorized_max_rate;
    new_authorized_max_rate = mandate.authorized_max_rate;
    signer = c.authority;
    final_settle_amount = settle_amount;
    timestamp = clock_now;
  })
  let finalized = Event.mandate_upgrade_finalized (record {
    schema_version = 1;
    mandate = c.mandate.key;
    mint = mandate.mint;
    token_symbol = symbol;
    old_plan = default_pubkey;
    new_plan = default_pubkey;
    proration_amount = proration_amount;
    change_type = 1;
    applied_at = clock_now;
    timestamp = clock_now;
  })
  ok (record {
    mandate = write_stream_mandate c.mandate mandate;
    invocations = calls;
    events = initiated ∷ updated ∷ finalized ∷ [];
  })
