-- ===== src/Billing/Reload.antt =====
-- accounts/mandate_account.rs: a mandate that is written is read back as it is.
use vela_protocol.Base.{true, false, ◌≡◌, refl, arith, Bool, sym}
use vela_protocol.Errors.{ok}
use vela_protocol.State.{VelaMandate, VelaMandateV1}
use vela_protocol.Runtime.{AccountInfo, AccountData, Layout, program_id, current_account_version}
use vela_protocol.Accounts.{
  LoadedMandateAccount, current_from_legacy_mandate, legacy_mandate, into_current_mandate,
  is_legacy_mandate, decode_mandate, load_mandate_account, written_legacy, write_mandate,
}

-- What the layout can hold: the current version, or nothing behind the legacy fields.
abbrev pub Writable : LoadedMandateAccount → VelaMandate → Type 0
Writable (LoadedMandateAccount.current m) next = next.version ≡ current_account_version
Writable (LoadedMandateAccount.legacy m) next =
    next ≡ current_from_legacy_mandate (legacy_mandate next)

-- The account loads as the mandate, in the layout.
pub record Holds (info : AccountInfo) (m : VelaMandate) (legacy : Bool) : Type 0 where
  pub loaded : LoadedMandateAccount
  pub loads : load_mandate_account info ≡ ok loaded
  pub current : into_current_mandate loaded ≡ m
  pub layout : is_legacy_mandate loaded ≡ legacy

decode-written_legacy :
    (d : AccountData) (v : VelaMandateV1) (next : VelaMandate)
    → decode_mandate d ≡ ok (LoadedMandateAccount.legacy v)
    → decode_mandate (written_legacy d next)
      ≡ ok (LoadedMandateAccount.legacy (legacy_mandate next))
unfolding decode_mandate legacy_mandate current_from_legacy_mandate
decode-written_legacy (AccountData.mandate (Layout.current m)) v next h = refl
decode-written_legacy (AccountData.mandate (Layout.legacy m p)) v next h = refl
decode-written_legacy d v next h = ground arith

decode-written_current :
    (next : VelaMandate)
    → next.version ≡ current_account_version
    → decode_mandate (AccountData.mandate (Layout.current next))
      ≡ ok (LoadedMandateAccount.current next)
unfolding decode_mandate
decode-written_current next h = ground arith

pub load-contents :
    (info : AccountInfo) (l : LoadedMandateAccount)
    → load_mandate_account info ≡ ok l
    → (info.owner ≡ program_id) × (decode_mandate info.contents ≡ ok l)
unfolding load_mandate_account
load-contents info l h = (ground arith, ground arith)

pub contents-load :
    (info : AccountInfo) (l : LoadedMandateAccount)
    → info.owner ≡ program_id
    → decode_mandate info.contents ≡ ok l
    → load_mandate_account info ≡ ok l
unfolding load_mandate_account
contents-load info l own h = ground arith

-- An account from which a mandate was loaded, written in the layout that it has with a mandate that
-- the layout can hold, loads as that mandate and in that layout.
pub load-write_mandate :
    (info : AccountInfo) (l : LoadedMandateAccount) (next : VelaMandate)
    → load_mandate_account info ≡ ok l
    → Writable l next
    → Holds (write_mandate info next (is_legacy_mandate l)) next (is_legacy_mandate l)
unfolding write_mandate into_current_mandate is_legacy_mandate
load-write_mandate info (LoadedMandateAccount.current m) next h w = record {
  loaded = LoadedMandateAccount.current next;
  loads =
      contents-load (write_mandate info next false) (LoadedMandateAccount.current next)
        (load-contents info (LoadedMandateAccount.current m) h).0 (decode-written_current next w);
  current = refl;
  layout = refl;
}
load-write_mandate info (LoadedMandateAccount.legacy v) next h w = record {
  loaded = LoadedMandateAccount.legacy (legacy_mandate next);
  loads =
      let (own, decoded) = load-contents info (LoadedMandateAccount.legacy v) h in
      contents-load (write_mandate info next true)
        (LoadedMandateAccount.legacy (legacy_mandate next)) own
        (decode-written_legacy info.contents v next decoded);
  current = sym w;
  layout = refl;
}

decode-version :
    (d : AccountData) (m : VelaMandate)
    → decode_mandate d ≡ ok (LoadedMandateAccount.current m)
    → m.version ≡ current_account_version
unfolding decode_mandate
decode-version d m h = ground arith

-- What was loaded can be written.
pub load-Writable :
    (info : AccountInfo) (l : LoadedMandateAccount)
    → load_mandate_account info ≡ ok l
    → Writable l (into_current_mandate l)
unfolding into_current_mandate current_from_legacy_mandate legacy_mandate
load-Writable info (LoadedMandateAccount.current m) h =
    decode-version info.contents m (load-contents info (LoadedMandateAccount.current m) h).1
load-Writable info (LoadedMandateAccount.legacy v) h = refl
