-- ===== src/Arcium/Request.antt =====
-- state/arcium_request.rs and arcium/arcium_request_state.rs. The eight bytes of a subject are a number.
use vela_protocol.Base.{ℕ, Bool, true, false, not, ◌==◌, ◌&&◌}
use vela_protocol.Base.Int.{ℤ, pos}
use vela_protocol.Errors.{Result, ok, vela, VelaError, ◌>>◌, require, require_keys_eq}
use vela_protocol.Runtime.{current_account_version}

pub data ArciumRequestFlow : Type 0 where
  validation usage_computation billing_record : ArciumRequestFlow

pub data ArciumRequestStatus : Type 0 where
  pending completed aborted : ArciumRequestStatus

pub record ArciumRequestState : Type 0 where
  pub mandate : ℕ
  pub flow : ArciumRequestFlow
  pub subject : ℕ
  pub computation_offset : ℕ
  pub request_nonce : ℕ
  pub status : ArciumRequestStatus
  pub created_at : ℤ
  pub completed_at : ℤ
  pub bump : ℕ
  pub version : ℕ

pub record StartArciumRequestArgs : Type 0 where
  pub mandate : ℕ
  pub flow : ArciumRequestFlow
  pub subject : ℕ
  pub computation_offset : ℕ
  pub request_nonce : ℕ
  pub bump : ℕ
  pub now : ℤ

-- `flow == other`
abbrev pub eq_flow : ArciumRequestFlow → ArciumRequestFlow → Bool
eq_flow ArciumRequestFlow.validation ArciumRequestFlow.validation = true
eq_flow ArciumRequestFlow.usage_computation ArciumRequestFlow.usage_computation = true
eq_flow ArciumRequestFlow.billing_record ArciumRequestFlow.billing_record = true
eq_flow _ _ = false

abbrev pub is_pending : ArciumRequestStatus → Bool
is_pending ArciumRequestStatus.pending = true
is_pending _ = false

abbrev pub is_zero : ℤ → Bool
is_zero (pos n) = n == 0
is_zero _ = false

unfoldable pub start_arcium_request :
    ArciumRequestState → StartArciumRequestArgs → Result ArciumRequestState
start_arcium_request request args = do
  require (not (not (is_zero request.created_at) && is_pending request.status))
      (vela VelaError.arcium_request_already_pending)
  ok (record {
    mandate = args.mandate;
    flow = args.flow;
    subject = args.subject;
    computation_offset = args.computation_offset;
    request_nonce = args.request_nonce;
    status = ArciumRequestStatus.pending;
    created_at = args.now;
    completed_at = pos 0;
    bump = args.bump;
    version = current_account_version;
  })

unfoldable pub validate_pending_arcium_request :
    ArciumRequestState → (mandate : ℕ) → ArciumRequestFlow → (subject : ℕ) → Result ℕ
validate_pending_arcium_request request mandate flow subject = do
  require_keys_eq request.mandate mandate (vela VelaError.invalid_arcium_request_state)
  require (eq_flow request.flow flow && request.subject == subject && is_pending request.status)
      (vela VelaError.invalid_arcium_request_state)
  ok request.computation_offset

unfoldable pub complete_arcium_request : ArciumRequestState → ℤ → Result ArciumRequestState
complete_arcium_request request now = do
  require (is_pending request.status) (vela VelaError.invalid_arcium_request_state)
  ok (record request { status = ArciumRequestStatus.completed; completed_at = now })
