-- ===== src/Billing/Computation/RecordCallback.antt =====
-- billing/billing_callback.rs
use vela_protocol.Base.{ℕ, ◌==◌, List, [], ◌∷◌, ◌++◌}
use vela_protocol.Base.Int.{ℤ}
use vela_protocol.Errors.{
  Result, ok, vela, anchor, VelaError, AnchorError, ◌>>=◌, ◌>>◌, require, require_keys_eq,
}
use vela_protocol.State.{VelaMandate, VelaPlan, BillingEvent}
use vela_protocol.Runtime.{
  Runtime, Seed, Loaded, Event, program_id, require_program, require_created,
}
use vela_protocol.Arcium.Request.{
  ArciumRequestState, ArciumRequestFlow, is_zero, complete_arcium_request,
}
use vela_protocol.Arcium.Accounts.{ArciumProgram, validate_static_callback_accounts}
use vela_protocol.Arcium.Callback.{
  CallbackAccounts, open_callback, request_seeds, require_found, find,
}
use vela_protocol.Billing.Computation.Record.{record_billing_event_circuit, billing_event_seeds}

-- The output of the circuit, as the callback reads it.
pub record EncryptedRecord : Type 0 where
  pub ciphertexts : List ℕ
  pub nonce : ℕ

-- `mandate`, `plan` and `billing_event` are accounts that Anchor has loaded.
pub record RecordBillingEventCallback : Type 0 where
  pub callback : CallbackAccounts EncryptedRecord
  pub billing_event : Loaded BillingEvent
  pub mandate : Loaded VelaMandate
  pub plan : Loaded VelaPlan

pub record Recorded : Type 0 where
  pub mandate : Loaded VelaMandate
  pub billing_event : Loaded BillingEvent
  pub request_state : Loaded ArciumRequestState
  pub events : List Event

module _ (rt : Runtime) (ar : ArciumProgram) where
  -- The constraints that stand at the declarations of the callback's accounts.
  unfoldable pub check_recording_accounts : RecordBillingEventCallback → Result (Unit {0})
  check_recording_accounts c = do
    let mandate = c.mandate.state
    let state_seeds =
        request_seeds "billing" c.mandate.key (Seed.u64_le mandate.pulls_executed)
        ++ Seed.bump c.callback.request_state.state.bump ∷ []
    require_program c.callback.arcium_program ar.id
    require (c.callback.instructions_sysvar == ar.instructions_sysvar)
        (anchor AnchorError.constraint_address)
    require_created (rt.create_program_address state_seeds program_id) c.callback.request_state.key
    require_found rt (billing_event_seeds c.mandate.key mandate.pulls_executed) c.billing_event.key
    require_found rt (Seed.literal "config" ∷ []) c.callback.config.key

  unfoldable pub record_billing_event_callback : RecordBillingEventCallback → ℤ → Result Recorded
  record_billing_event_callback c now = do
    let mandate = c.mandate.state
    check_recording_accounts c
    encrypted ←
        open_callback rt ar c.callback
          (validate_static_callback_accounts rt ar c.callback.mxe_account
            c.callback.comp_def_account record_billing_event_circuit)
          c.mandate.key ArciumRequestFlow.billing_record mandate.pulls_executed
    require_keys_eq c.plan.key mandate.plan (vela VelaError.plan_not_active)
    require (is_zero c.billing_event.state.created_at) (vela VelaError.billing_event_already_exists)
    completed ← complete_arcium_request c.callback.request_state.state now
    let event = Event.billing_event_created (record {
      mandate = c.mandate.key;
      merchant = mandate.merchant;
      subscriber = mandate.subscriber;
      pulls_executed = mandate.pulls_executed;
      timestamp = now;
    })
    ok (record {
      mandate = record {
        key = c.mandate.key;
        state = record mandate { last_billing_recorded_pull = mandate.pulls_executed };
      };
      billing_event = record {
        key = c.billing_event.key;
        state = record {
          mandate = c.mandate.key;
          merchant = mandate.merchant;
          subscriber = mandate.subscriber;
          plan_id = c.plan.state.plan_id;
          encrypted_blob = encrypted.ciphertexts;
          nonce = encrypted.nonce;
          created_at = now;
          bump = (find rt (billing_event_seeds c.mandate.key mandate.pulls_executed)).1;
        };
      };
      request_state = record { key = c.callback.request_state.key; state = completed };
      events = event ∷ [];
    })
