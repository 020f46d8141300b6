-- ===== src/Accounts/Close.antt =====
-- accounts/account_close.rs
use vela_protocol.Base.{ltb, if◌then◌else◌, ◌==◌}
use vela_protocol.Base.Machine.{u64_checked_add}
use vela_protocol.Errors.{
  Result, ok, vela, anchor, VelaError, AnchorError, ◌>>=◌, ◌>>◌, require, ok_or,
}
use vela_protocol.Runtime.{Runtime, AccountInfo, AccountData, program_id}

-- The closed account and the account that received its lamports.
unfoldable pub close_program_account :
    Runtime → AccountInfo → AccountInfo → Result (AccountInfo × AccountInfo)
close_program_account rt account refund_destination = do
  require (account.owner == program_id) (anchor AnchorError.require_keys_eq_violated)
  let refund = account.lamports
  refunded ←
      if ltb 0 refund
      then ok_or (u64_checked_add refund_destination.lamports refund) (vela VelaError.overflow)
      else ok refund_destination.lamports
  ok (
    record account { lamports = 0; contents = AccountData.empty; owner = rt.system_program_id },
    record refund_destination { lamports = refunded },
  )
