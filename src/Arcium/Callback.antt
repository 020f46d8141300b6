-- ===== src/Arcium/Callback.antt =====
-- What the three callbacks of instructions/billing/ and the three requests there have in common: the
-- checks of a callback's accounts, and the accounts of a request.
use vela_protocol.Base.{ℕ, String, Bool, Option, none, some, ◌==◌, List, [], ◌∷◌}
use vela_protocol.Base.Int.{pos}
use vela_protocol.Errors.{
  Result, ok, err, vela, anchor, VelaError, AnchorError, ◌>>=◌, ◌>>◌, require, require_keys_eq,
}
use vela_protocol.State.{ProtocolConfig, PullApproval}
use vela_protocol.Runtime.{Runtime, Seed, AccountInfo, Loaded, program_id, default_pubkey}
use vela_protocol.Accounts.{load_protocol_config, into_current_config}
use vela_protocol.Arcium.Request.{
  ArciumRequestState, ArciumRequestFlow, validate_pending_arcium_request,
}
use vela_protocol.Arcium.Accounts.{
  ArciumProgram, effective_mxe_program_id, validate_protocol_config, validate_callback_binding,
}

-- The accounts of a callback. `cluster_decodes` says whether the data of the cluster decodes, and
-- `verified` is what `verify_output` makes of the output, the cluster and the computation.
pub record CallbackAccounts (A : Type 0) : Type 0 where
  pub arcium_program : ℕ
  pub comp_def_account : ℕ
  pub mxe_account : ℕ
  pub computation_account : ℕ
  pub cluster_account : ℕ
  pub cluster_decodes : Bool
  pub instructions_sysvar : ℕ
  pub config : AccountInfo
  pub request_state : Loaded ArciumRequestState
  pub verified : Option A

-- `verify_output`, an error of which aborts.
unfoldable pub verified_output : {A : Type 0} → CallbackAccounts A → Result A
verified_output c = elim c.verified [
  | none ↦ err (vela VelaError.aborted_computation)
  | some output ↦ ok output
]

-- The seeds of a request's state.
abbrev pub request_seeds : (flow_seed : String) (mandate : ℕ) (subject : Seed) → List Seed
request_seeds flow_seed mandate subject =
    Seed.literal "arcium_request" ∷ Seed.literal flow_seed ∷ Seed.pubkey mandate ∷ subject ∷ []

-- An approval while a computation is on its way.
unfoldable pub reset_approval : (bump : ℕ) → PullApproval
reset_approval bump = record {
  mandate = default_pubkey;
  period_start = pos 0;
  period_end = pos 0;
  valid_until = pos 0;
  approved = Bool.false;
  approved_amount = 0;
  created_at = pos 0;
  bump = bump;
}

module _ (rt : Runtime) where
  abbrev pub find : List Seed → ℕ × ℕ
  find seeds = rt.find_program_address seeds program_id

  abbrev pub approval_seeds : ℕ → List Seed
  approval_seeds mandate = Seed.literal "approval" ∷ Seed.pubkey mandate ∷ []

  -- `seeds = […], bump`
  abbrev pub require_found : (seeds : List Seed) (key : ℕ) → Result (Unit {0})
  require_found seeds key = require (key == (find seeds).0) (anchor AnchorError.constraint_seeds)

module _ (rt : Runtime) (ar : ArciumProgram) where
  -- The configuration and the program of the MXE, for a request and for a callback.
  unfoldable pub load_arcium_config : AccountInfo → Result (ProtocolConfig × ℕ)
  load_arcium_config info = do
    loaded ← load_protocol_config rt info
    let config = into_current_config loaded
    validate_protocol_config rt ar config
    ok (config, effective_mxe_program_id config)

  -- From the configuration to the output. `static_checks` is the check of the circuit's accounts.
  unfoldable pub open_callback :
      {A : Type 0}
      → CallbackAccounts A
      → (static_checks : ℕ → Result (Unit {0}))
      → (mandate : ℕ) (flow : ArciumRequestFlow) (subject : ℕ) → Result A
  unfolding load_arcium_config verified_output
  open_callback c static_checks mandate flow subject = do
    (config, mxe_program_id) ← load_arcium_config c.config
    static_checks mxe_program_id
    computation_offset ← validate_pending_arcium_request c.request_state.state mandate flow subject
    validate_callback_binding rt ar config c.cluster_account c.computation_account
        computation_offset
    require c.cluster_decodes (vela VelaError.aborted_computation)
    verified_output c

-- The checks of a request's offset and of the cluster's key.
unfoldable pub check_offset :
    ProtocolConfig
    → (cluster_account requested_computation_offset computation_offset : ℕ) → Result (Unit {0})
check_offset config cluster_account requested_computation_offset computation_offset = do
  require (requested_computation_offset == computation_offset)
      (vela VelaError.invalid_computation_offset)
  require_keys_eq cluster_account config.cluster_pubkey (vela VelaError.invalid_arcium_account)
