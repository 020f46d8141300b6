-- ===== src/Agent/Limits.antt =====
-- `impl AgentMandate` of state/agent_mandate.rs.
use mathlib.Core.Option
use vela_protocol.Base.{
  ℕ, suc, Option, none, some, ◌==◌, if◌then◌else◌, List, [], ◌∷◌, get_elem?, set,
}
use vela_protocol.Base.Int.{ℤ, leb_ℤ}
use vela_protocol.Base.Machine.{i64_saturating_sub}
use vela_protocol.State.{AgentMandate, ServiceLimit}
use vela_protocol.Runtime.{agent_daily_reset_window_seconds}

unfoldable pub reset_daily_if_needed : AgentMandate → ℤ → AgentMandate
reset_daily_if_needed m now =
    if leb_ℤ agent_daily_reset_window_seconds (i64_saturating_sub now m.daily_last_reset)
    then record m { daily_spent = 0; daily_last_reset = now }
    else m

-- `position`: the index of the first entry of the service.
unfoldable pub find_service_index : List ServiceLimit → ℕ → Option ℕ
find_service_index [] service = none
find_service_index (limit ∷ rest) service =
    let later = find_service_index rest service in
    if limit.service == service then some 0 else Option.map suc later

abbrev pub reset_service : ServiceLimit → ℤ → ServiceLimit
reset_service limit now =
    if leb_ℤ agent_daily_reset_window_seconds (i64_saturating_sub now limit.last_reset)
    then record limit { daily_spent = 0; last_reset = now }
    else limit

unfoldable pub reset_service_daily_if_needed : AgentMandate → ℕ → ℤ → AgentMandate
reset_service_daily_if_needed m index now = elim (get_elem? m.services index) [
  | none ↦ m
  | some limit ↦ record m { services = set m.services index (reset_service limit now) }
]
