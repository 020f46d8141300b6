-- ===== src/Billing/Between.antt =====
-- What is done to a mandate between two pulls: the requests of instructions/billing/ and the record of
-- a pull, billing_callback.rs.
use vela_protocol.Base.{ℕ, ◌≡◌, refl, arith, ap, ◌∙◌, sym, inl, inr, Bool, List, Option-cases}
use vela_protocol.Base.Int.{ℤ}
use vela_protocol.Base.Machine.{u64_checked_add}
use vela_protocol.Errors.{ok, Result-cases}
use vela_protocol.State.{VelaMandate}
use vela_protocol.Runtime.{Runtime, AccountInfo, AccountData, Layout}
use vela_protocol.Accounts.{
  LoadedMandateAccount, current_from_legacy_mandate, legacy_mandate, into_current_mandate,
  is_legacy_mandate, decode_mandate, load_mandate_account, write_mandate,
}
use vela_protocol.Arcium.Accounts.{ArciumProgram}
use vela_protocol.Billing.Computation.{
  RequestValidation, RequestUsageComputation, RequestBillingRecord, RecordBillingEventCallback,
  RequestOutcome, RecordRequested, Recorded, request_validation, request_usage_computation,
  request_billing_record, record_billing_event_callback,
}
use vela_protocol.Billing.Reload.{
  Writable, Holds, load-write_mandate, load-Writable, load-contents, contents-load,
}

-- Only the counters of requests and records differ.
pub record SameTerms (m next : VelaMandate) : Type 0 where
  pub same : next ≡ record m {
    validation_request_nonce = next.validation_request_nonce;
    billing_request_nonce = next.billing_request_nonce;
    last_billing_recorded_pull = next.last_billing_recorded_pull;
  }

-- `written` is what the handler leaves of `info`.
record Noted (info written : AccountInfo) : Type 0 where
  pub loaded : LoadedMandateAccount
  pub next : VelaMandate
  pub loads : load_mandate_account info ≡ ok loaded
  pub terms : SameTerms (into_current_mandate loaded) next
  pub writes : written ≡ write_mandate info next (is_legacy_mandate loaded)

module _ (rt : Runtime) (ar : ArciumProgram) where
  request_validation-Noted :
      (c : RequestValidation) (offset : ℕ) (due_seed : ℤ) (ciphertext : List ℕ) (pub_key nonce : ℕ)
      (now : ℤ) (o : RequestOutcome)
      → request_validation rt ar c offset due_seed ciphertext pub_key nonce now ≡ ok o
      → Noted c.mandate o.mandate
  unfolding request_validation
  request_validation-Noted c offset due_seed ciphertext pub_key nonce now o h =
      elim (Result-cases (load_mandate_account c.mandate)) [
        | inr bad ↦ absurd (ground arith)
        | inl (l, e) ↦
            elim (Option-cases
              (u64_checked_add (into_current_mandate l).validation_request_nonce 1)) [
                | inl none_left ↦ absurd (ground arith)
                | inr (n, en) ↦ record {
                  loaded = l;
                  next = record (into_current_mandate l) { validation_request_nonce = n };
                  loads = e;
                  terms = record { same = refl };
                  writes = ground arith;
                }
              ]
      ]

  request_usage_computation-Noted :
      (c : RequestUsageComputation) (offset : ℕ) (now : ℤ) (o : RequestOutcome)
      → request_usage_computation rt ar c offset now ≡ ok o
      → Noted c.mandate o.mandate
  unfolding request_usage_computation
  request_usage_computation-Noted c offset now o h =
      elim (Result-cases (load_mandate_account c.mandate)) [
        | inr bad ↦ absurd (ground arith)
        | inl (l, e) ↦
            elim (Option-cases
              (u64_checked_add (into_current_mandate l).validation_request_nonce 1)) [
                | inl none_left ↦ absurd (ground arith)
                | inr (n, en) ↦ record {
                  loaded = l;
                  next = record (into_current_mandate l) { validation_request_nonce = n };
                  loads = e;
                  terms = record { same = refl };
                  writes = ground arith;
                }
              ]
      ]

  request_billing_record-Noted :
      (c : RequestBillingRecord) (offset seed : ℕ) (now : ℤ) (o : RecordRequested)
      → request_billing_record rt ar c offset seed now ≡ ok o
      → Noted c.mandate o.mandate
  unfolding request_billing_record
  request_billing_record-Noted c offset seed now o h =
      elim (Result-cases (load_mandate_account c.mandate)) [
        | inr bad ↦ absurd (ground arith)
        | inl (l, e) ↦
            elim (Option-cases (u64_checked_add (into_current_mandate l).billing_request_nonce 1)) [
              | inl none_left ↦ absurd (ground arith)
              | inr (n, en) ↦ record {
                loaded = l;
                next = record (into_current_mandate l) { billing_request_nonce = n };
                loads = e;
                terms = record { same = refl };
                writes = ground arith;
              }
            ]
      ]

  record_callback-next :
      (c : RecordBillingEventCallback) (now : ℤ) (o : Recorded)
      → record_billing_event_callback rt ar c now ≡ ok o
      → o.mandate.state
        ≡ record c.mandate.state { last_billing_recorded_pull = c.mandate.state.pulls_executed }
  unfolding record_billing_event_callback
  record_callback-next c now o h = ground arith

-- One of these handlers, on the account: `written` is what it leaves of `info`. The callback gets the
-- account as Anchor loads it, and Anchor writes it back.
pub data Between (rt : Runtime) (ar : ArciumProgram) (info written : AccountInfo) : Type 0 where
  validation :
      (c : RequestValidation) (offset : ℕ) (due_seed : ℤ) (ciphertext : List ℕ) (pub_key nonce : ℕ)
      (now : ℤ) (o : RequestOutcome)
      → info ≡ c.mandate
      → request_validation rt ar c offset due_seed ciphertext pub_key nonce now ≡ ok o
      → written ≡ o.mandate
      → Between rt ar info written
  usage :
      (c : RequestUsageComputation) (offset : ℕ) (now : ℤ) (o : RequestOutcome)
      → info ≡ c.mandate
      → request_usage_computation rt ar c offset now ≡ ok o
      → written ≡ o.mandate
      → Between rt ar info written
  billing_record :
      (c : RequestBillingRecord) (offset seed : ℕ) (now : ℤ) (o : RecordRequested)
      → info ≡ c.mandate
      → request_billing_record rt ar c offset seed now ≡ ok o
      → written ≡ o.mandate
      → Between rt ar info written
  recorded :
      (c : RecordBillingEventCallback) (now : ℤ) (o : Recorded)
      → info.key ≡ c.mandate.key
      → info.contents ≡ AccountData.mandate (Layout.current c.mandate.state)
      → record_billing_event_callback rt ar c now ≡ ok o
      → written ≡ record info { contents = AccountData.mandate (Layout.current o.mandate.state) }
      → Between rt ar info written

SameTerms-Writable :
    (l : LoadedMandateAccount) (next : VelaMandate)
    → Writable l (into_current_mandate l)
    → SameTerms (into_current_mandate l) next
    → Writable l next
unfolding into_current_mandate current_from_legacy_mandate legacy_mandate
SameTerms-Writable (LoadedMandateAccount.current m) next w t = ap (λ x. x.version) t.same ∙ w
SameTerms-Writable (LoadedMandateAccount.legacy v) next w t = ground (arith, t.same)

-- The account holds the mandate as it was, but for the counters.
pub record Follows (written : AccountInfo) (m : VelaMandate) (legacy : Bool) : Type 0 where
  pub next : VelaMandate
  pub holds : Holds written next legacy
  pub terms : SameTerms m next

Noted-Follows :
    (info written : AccountInfo) (m : VelaMandate) (legacy : Bool)
    → Noted info written
    → Holds info m legacy
    → Follows written m legacy
Noted-Follows info written m legacy n h =
    let same_loaded : n.loaded ≡ h.loaded = cc (n.loads, h.loads) in
    let same : into_current_mandate n.loaded ≡ m =
      ap into_current_mandate same_loaded ∙ h.current in
    let layout : is_legacy_mandate n.loaded ≡ legacy =
      ap is_legacy_mandate same_loaded ∙ h.layout in
    let writable =
      SameTerms-Writable n.loaded n.next (load-Writable info n.loaded n.loads) n.terms in
    let written_holds = load-write_mandate info n.loaded n.next n.loads writable in
    record {
      next = n.next;
      holds = rw n.writes (rw (sym layout) written_holds);
      terms = rw (sym same) n.terms;
    }

-- Recording a pull in the data of a mandate.
record Redecoded (l : LoadedMandateAccount) (s : VelaMandate) : Type 0 where
  pub again : LoadedMandateAccount
  pub decodes : decode_mandate (AccountData.mandate (Layout.current s)) ≡ ok again
  pub layout : is_legacy_mandate again ≡ is_legacy_mandate l
  pub terms : SameTerms (into_current_mandate l) (into_current_mandate again)

decode-recorded :
    (l : LoadedMandateAccount) (s : VelaMandate) (pull : ℕ)
    → decode_mandate (AccountData.mandate (Layout.current s)) ≡ ok l
    → Redecoded l (record s { last_billing_recorded_pull = pull })
unfolding decode_mandate into_current_mandate current_from_legacy_mandate legacy_mandate
    is_legacy_mandate
decode-recorded (LoadedMandateAccount.current m) s pull h = record {
  again = LoadedMandateAccount.current (record s { last_billing_recorded_pull = pull });
  decodes = ground arith;
  layout = refl;
  terms = record { same = ground arith };
}
decode-recorded (LoadedMandateAccount.legacy v) s pull h = record {
  again =
      LoadedMandateAccount.legacy (legacy_mandate (record s { last_billing_recorded_pull = pull }));
  decodes = ground arith;
  layout = refl;
  terms = record { same = ground arith };
}

recorded-Follows :
    (info : AccountInfo) (s : VelaMandate) (pull : ℕ) (m : VelaMandate) (legacy : Bool)
    → info.contents ≡ AccountData.mandate (Layout.current s)
    → Holds info m legacy
    → Follows
        (record info {
          contents =
              AccountData.mandate (Layout.current (record s { last_billing_recorded_pull = pull }));
        })
        m
        legacy
recorded-Follows info s pull m legacy stored h =
    let next : VelaMandate = record s { last_billing_recorded_pull = pull } in
    let written : AccountInfo = record info {
      contents = AccountData.mandate (Layout.current next);
    } in
    let (owned, decoded) = load-contents info h.loaded h.loads in
    let r = decode-recorded h.loaded s pull (rw (sym stored) decoded) in
    record {
      next = into_current_mandate r.again;
      holds = record {
        loaded = r.again;
        loads = contents-load written r.again owned r.decodes;
        current = refl;
        layout = r.layout ∙ h.layout;
      };
      terms = rw (sym h.current) r.terms;
    }

-- Each of the handlers keeps the terms of the mandate, and its layout.
pub Between-Follows :
    (rt : Runtime) (ar : ArciumProgram) (info written : AccountInfo) (m : VelaMandate)
    (legacy : Bool)
    → Between rt ar info written
    → Holds info m legacy
    → Follows written m legacy
Between-Follows rt ar info written m legacy (validation c offset due text key nonce now o e h w)
      holds =
    rw w (
      Noted-Follows c.mandate o.mandate m legacy
        (request_validation-Noted rt ar c offset due text key nonce now o h) (rw (sym e) holds))
Between-Follows rt ar info written m legacy (usage c offset now o e h w) holds = rw w (
    Noted-Follows c.mandate o.mandate m legacy
      (request_usage_computation-Noted rt ar c offset now o h) (rw (sym e) holds))
Between-Follows rt ar info written m legacy (billing_record c offset seed now o e h w) holds =
    rw w (
      Noted-Follows c.mandate o.mandate m legacy
        (request_billing_record-Noted rt ar c offset seed now o h) (rw (sym e) holds))
Between-Follows rt ar info written m legacy (recorded c now o at stored h w) holds = rw w (
    rw (record_callback-next rt ar c now o h)
      (recorded-Follows info c.mandate.state c.mandate.state.pulls_executed m legacy stored holds))
