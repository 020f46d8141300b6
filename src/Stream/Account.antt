-- ===== src/Stream/Account.antt =====
-- accounts/stream_account.rs: loading, writing and settling a stream.
use vela_protocol.Base.{
  ℕ, ◌-◌, min, none, some, not, is_some, leb, ◌==◌, if◌then◌else◌, [], ◌∷◌, List,
}
use vela_protocol.Base.Int.{ℤ, pos, leb_ℤ}
use vela_protocol.Base.Machine.{
  u128_mod, i64_checked_sub, u64_of_i64, u128_checked_mul, checked_sub, u64_of_u128,
  u64_checked_add,
}
use vela_protocol.Errors.{
  Result, ok, err, vela, program, VelaError, ProgramError, ◌>>=◌, ◌>>◌, require, ok_or,
}
use vela_protocol.State.{StreamMandate, is_active}
use vela_protocol.Runtime.{
  Runtime, Seed, AccountInfo, AccountData, program_id, current_account_version,
}

unfoldable pub decode_stream_mandate : AccountData → Result StreamMandate
decode_stream_mandate (AccountData.stream_mandate (some m)) =
    if m.version == current_account_version
    then ok m
    else err (program ProgramError.invalid_account_data)
decode_stream_mandate (AccountData.stream_mandate none) =
    err (program ProgramError.invalid_account_data)
decode_stream_mandate AccountData.empty = err (program ProgramError.invalid_account_data)
decode_stream_mandate AccountData.short = err (program ProgramError.invalid_account_data)
decode_stream_mandate _ = err (vela VelaError.wrong_account_type)

unfoldable pub load_stream_mandate : AccountInfo → Result StreamMandate
unfolding decode_stream_mandate
load_stream_mandate info = do
  require (info.owner == program_id) (program ProgramError.incorrect_program_id)
  decode_stream_mandate info.contents

-- The seeds of a stream's address, without the bump.
abbrev pub stream_seeds : ℕ → ℕ → ℕ → List Seed
stream_seeds subscriber merchant mandate_index =
    Seed.literal "stream"
    ∷ Seed.pubkey subscriber
    ∷ Seed.pubkey merchant
    ∷ Seed.u64_le mandate_index
    ∷ []

unfoldable pub validate_stream_mandate_address : Runtime → ℕ → StreamMandate → Result (Unit {0})
validate_stream_mandate_address rt key m =
    let seeds = stream_seeds m.subscriber m.merchant m.mandate_index in
    require (key == (rt.find_program_address seeds program_id).0)
      (vela VelaError.invalid_stream_address)

unfoldable pub write_stream_mandate : AccountInfo → StreamMandate → AccountInfo
write_stream_mandate info m = record info { contents = AccountData.stream_mandate (some m) }

-- What the cap leaves, in u128.
unfoldable pub remaining_cap : StreamMandate → Result ℕ
remaining_cap m = elim m.max_streamed [
  | some cap ↦ ok_or (checked_sub cap m.total_streamed) (vela VelaError.stream_cap_exceeded)
  | none ↦ ok (u128_mod - 1)
]

-- The settlement of a stream that accrues.
unfoldable pub settle_accrued : StreamMandate → ℤ → Result (StreamMandate × ℕ)
unfolding remaining_cap
settle_accrued m clock_now = do
  elapsed_i64 ←
      ok_or (i64_checked_sub clock_now m.last_settled_ts) (vela VelaError.clock_regression)
  require (leb_ℤ (pos 0) elapsed_i64) (vela VelaError.clock_regression)
  elapsed ← ok_or (u64_of_i64 elapsed_i64) (vela VelaError.overflow)
  require (leb m.min_settle_interval elapsed) (vela VelaError.min_settle_interval_violation)
  gross ← ok_or (u128_checked_mul elapsed m.rate_per_second) (vela VelaError.overflow)
  remaining ← remaining_cap m
  amount ← ok_or (u64_of_u128 (min gross remaining)) (vela VelaError.overflow)
  total ← ok_or (u64_checked_add m.total_streamed amount) (vela VelaError.overflow)
  ok (record m { total_streamed = total; last_settled_ts = clock_now }, amount)

unfoldable pub settle_accrued_in_place : StreamMandate → ℤ → Result (StreamMandate × ℕ)
unfolding settle_accrued
settle_accrued_in_place m clock_now =
    if not (is_active m.status)
    then ok (m, 0)
    else if is_some m.paused_at
    then ok (m, 0)
    else settle_accrued m clock_now
