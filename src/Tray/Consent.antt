-- ===== src/Tray/Consent.antt =====
-- internal/tray/consent.go: the consent record, its signature, and who may capture. encoding/json,
-- SHA-256 and HMAC are arguments; the dialog of the platform and the file system answer in arguments.
mod Dialog
pub mod Laws
pub mod Tests
use digital_ghost.Prelude.{
  ℕ, Text, Bool, true, false, List, [], ◌∷◌, Option, none, some, is_empty, not, ◌&&◌, text_eq,
  if◌then◌else◌,
}
use digital_ghost.Prelude.Result.{Result, ok, err}
use digital_ghost.Storage.Time.{Time}
use digital_ghost.Storage.Hex.{hex_encode}
use digital_ghost.Tray.Consent.Dialog.{consent_dialog_text}

pub record ConsentRecord : Type 0 where
  pub granted_at : Time
  pub dg_version : Text
  pub platform : Text
  pub dialog_text_hash : Text
  pub explicit_grant : Bool
  pub hmac_signature : Text

-- The packages that the consent uses: json.Marshal, json.MarshalIndent, json.Unmarshal and the hashes.
pub record Packages : Type 0 where
  pub marshal : ConsentRecord → Option Text
  pub marshal_indent : ConsentRecord → Option Text
  pub unmarshal : Text → Option ConsentRecord
  pub sha256 : Text → Text
  pub hmac : Text → Text → Text

-- The key is `none` where signing is off.
pub record Manager : Type 0 where
  pub version : Text
  pub key : Option Text

-- consent.json
pub data ConsentFile : Type 0 where
  missing unreadable : ConsentFile
  present : Text → ConsentFile

pub data ConsentError : Type 0 where
  no_record corrupt_record no_explicit_grant hmac_failed hmac_mismatch : ConsentError
  no_data_dir dialog_failed denied not_signed not_marshalled not_written : ConsentError

-- What the user and the dialog of the platform answer.
pub data Answer : Type 0 where
  dialog_error no yes : Answer

pub record RequestEnv : Type 0 where
  pub dir_made : Bool
  -- DG_HEADLESS_CONSENT=1
  pub headless : Bool
  pub answer : Answer
  pub now : Time
  pub platform : Text
  -- the temporary file is written and renamed
  pub written : Bool

-- `r.HMACSignature = sig`
abbrev pub with_signature : Text → ConsentRecord → ConsentRecord
with_signature sig r = record {
  granted_at = r.granted_at;
  dg_version = r.dg_version;
  platform = r.platform;
  dialog_text_hash = r.dialog_text_hash;
  explicit_grant = r.explicit_grant;
  hmac_signature = sig;
}

abbrev pub show_consent_dialog : RequestEnv → Answer
show_consent_dialog env = if env.headless then yes else env.answer

module _ (P : Packages) where
  unfoldable pub dialog_hash : Text
  dialog_hash = hex_encode (P.sha256 consent_dialog_text)

  unfoldable pub sign_record : Text → ConsentRecord → Option Text
  sign_record key r = elim (P.marshal (with_signature [] r)) [
    | none ↦ none
    | some payload ↦ some (hex_encode (P.hmac key payload))
  ]

  -- The file after a write of the record, where the write works.
  abbrev pub rewrite : (written : Bool) → ConsentRecord → ConsentFile → ConsentFile
  rewrite written r file = elim (P.marshal_indent r) [
    | none ↦ file
    | some text ↦ if written then present text else file
  ]

  -- A record without a signature is signed and rewritten.
  unfoldable pub upgrade :
      Text
      → (written : Bool) → ConsentRecord
      → ConsentFile
      → ConsentFile × Result ConsentError ConsentRecord
  upgrade key written r file = elim (sign_record key r) [
    | none ↦ (file, ok r)
    | some sig ↦ (rewrite written (with_signature sig r) file, ok (with_signature sig r))
  ]

  -- A record with a signature is checked.
  unfoldable pub verify : Text → ConsentRecord → Result ConsentError ConsentRecord
  verify key r = elim (sign_record key r) [
    | none ↦ err hmac_failed
    | some expected ↦ if text_eq r.hmac_signature expected then ok r else err hmac_mismatch
  ]

  unfoldable pub check_record :
      Option Text
      → (written : Bool) → ConsentRecord
      → ConsentFile
      → ConsentFile × Result ConsentError ConsentRecord
  check_record none written r file = (file, ok r)
  check_record (some key) written r file =
      if is_empty r.hmac_signature then upgrade key written r file else (file, verify key r)

  unfoldable pub load_consent_record :
      Manager → (written : Bool) → ConsentFile → ConsentFile × Result ConsentError ConsentRecord
  load_consent_record m written missing = (missing, err no_record)
  load_consent_record m written unreadable = (unreadable, err no_record)
  load_consent_record m written (present text) = elim (P.unmarshal text) [
    | none ↦ (present text, err corrupt_record)
    | some r ↦
        if not r.explicit_grant
        then (present text, err no_explicit_grant)
        else check_record m.key written r (present text)
  ]

  abbrev pub granted : ConsentFile × Result ConsentError ConsentRecord → ConsentFile × Bool
  granted (file, err e) = (file, false)
  granted (file, ok r) = (file, r.explicit_grant && text_eq r.dialog_text_hash dialog_hash)

  unfoldable pub is_consent_granted : Manager → (written : Bool) → ConsentFile → ConsentFile × Bool
  is_consent_granted m written file = granted (load_consent_record m written file)

  abbrev pub new_record : Manager → RequestEnv → ConsentRecord
  new_record m env = record {
    granted_at = env.now;
    dg_version = m.version;
    platform = env.platform;
    dialog_text_hash = dialog_hash;
    explicit_grant = true;
    hmac_signature = [];
  }

  -- The record to write, signed if there is a key.
  unfoldable pub signed : Option Text → ConsentRecord → Option ConsentRecord
  signed none r = some r
  signed (some key) r = elim (sign_record key r) [
    | none ↦ none
    | some sig ↦ some (with_signature sig r)
  ]

  unfoldable pub commit :
      (written : Bool) → Option ConsentRecord → ConsentFile → ConsentFile × Option ConsentError
  commit written none file = (file, some not_signed)
  commit written (some r) file = elim (P.marshal_indent r) [
    | none ↦ (file, some not_marshalled)
    | some text ↦ if written then (present text, none) else (file, some not_written)
  ]

  unfoldable pub request_consent :
      Manager → RequestEnv → ConsentFile → ConsentFile × Option ConsentError
  request_consent m env file =
      if not env.dir_made then (file, some no_data_dir) else elim (show_consent_dialog env) [
        | dialog_error ↦ (file, some dialog_failed)
        | no ↦ (file, some denied)
        | yes ↦ commit env.written (signed m.key (new_record m env)) file
      ]

-- The file after RevokeConsent, and whether it returns an error.
unfoldable pub revoke_consent : (removed : Bool) → ConsentFile → ConsentFile × Bool
revoke_consent removed missing = (missing, false)
revoke_consent removed unreadable = if removed then (missing, false) else (unreadable, true)
revoke_consent removed (present text) = if removed then (missing, false) else (present text, true)
