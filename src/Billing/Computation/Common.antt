-- ===== src/Billing/Computation/Common.antt =====
-- What the requests and callbacks of instructions/billing/ share.
use vela_protocol.Base.{ℕ, String, Bool, not, ◌==◌, ◌&&◌, List, [], ◌∷◌}
use vela_protocol.Base.Int.{ℤ, leb_ℤ, eq_ℤ}
use vela_protocol.Errors.{Result, vela, anchor, VelaError, AnchorError, ◌>>◌, require}
use vela_protocol.State.{PullApproval}
use vela_protocol.Runtime.{
  Runtime, Seed, AccountInfo, Loaded, Event, program_id, require_program, require_created,
}
use vela_protocol.Arcium.Request.{ArciumRequestState}
use vela_protocol.Arcium.Accounts.{ArciumProgram, Queued}
use vela_protocol.Arcium.Callback.{CallbackAccounts, approval_seeds, require_found}

-- What a request leaves behind.
pub record RequestOutcome : Type 0 where
  pub mandate : AccountInfo
  pub pull_approval : Loaded PullApproval
  pub request_state : Loaded ArciumRequestState
  pub queued : Queued

-- What a callback leaves behind.
pub record CallbackOutcome : Type 0 where
  pub pull_approval : Loaded PullApproval
  pub request_state : Loaded ArciumRequestState
  pub events : List Event

-- The approval already grants the period.
unfoldable pub check_no_approval :
    PullApproval → (mandate : ℕ) (period : ℤ × ℤ) (now : ℤ) → Result (Unit {0})
check_no_approval a mandate period now =
    require
      (not (
        a.approved
        && a.mandate == mandate
        && eq_ℤ a.period_start period.0
        && eq_ℤ a.period_end period.1
        && leb_ℤ now a.valid_until))
      (vela VelaError.approval_already_exists)

-- The approval of a period.
unfoldable pub period_approval :
    (mandate : ℕ) (period : ℤ × ℤ) (now valid_until : ℤ) (approved : Bool)
    (approved_amount bump : ℕ)
    → PullApproval
period_approval mandate period now valid_until approved approved_amount bump = record {
  mandate = mandate;
  period_start = period.0;
  period_end = period.1;
  valid_until = valid_until;
  approved = approved;
  approved_amount = approved_amount;
  created_at = now;
  bump = bump;
}

module _ (rt : Runtime) (ar : ArciumProgram) where
  unfoldable pub check_request_accounts :
      (config : AccountInfo) (sign_pda system_program arcium_program : ℕ) → Result (Unit {0})
  check_request_accounts config sign_pda system_program arcium_program = do
    require_found rt (Seed.literal "config" ∷ []) config.key
    require_found rt (Seed.literal ar.sign_seed ∷ []) sign_pda
    require_program system_program rt.system_program_id
    require_program arcium_program ar.id

  -- The constraints of the accounts of a callback that has an approval.
  unfoldable pub check_callback_accounts :
      {A : Type 0}
      → CallbackAccounts A
      → (flow_seed : String) (mandate : ℕ) (subject : Seed) (approval : ℕ) → Result (Unit {0})
  check_callback_accounts c flow_seed mandate subject approval = do
    let state_seeds =
        Seed.literal "arcium_request"
        ∷ Seed.literal flow_seed
        ∷ Seed.pubkey mandate
        ∷ subject
        ∷ Seed.bump c.request_state.state.bump
        ∷ []
    require_program c.arcium_program ar.id
    require (c.instructions_sysvar == ar.instructions_sysvar)
        (anchor AnchorError.constraint_address)
    require_created (rt.create_program_address state_seeds program_id) c.request_state.key
    require_found rt (approval_seeds rt mandate) approval
    require_found rt (Seed.literal "config" ∷ []) c.config.key
