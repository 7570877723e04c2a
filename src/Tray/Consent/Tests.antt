-- ===== src/Tray/Consent/Tests.antt =====
-- The theorems of Tray.Consent with packages in which a record is its signature alone.
use digital_ghost.Prelude.{◌+◌, ◌≡◌, refl, ◌↔◌, Text, true, false, [], ◌∷◌, none, some}
use digital_ghost.Storage.Hex.{hex_encode}
use digital_ghost.Storage.Time.{unix_epoch}
use digital_ghost.Tray.Consent.{
  ConsentRecord, Packages, Manager, missing, present, RequestEnv, yes, dialog_hash, sign_record,
  is_consent_granted, request_consent,
}
use digital_ghost.Tray.Consent.Laws.{HasConsent, is_consent_granted_iff, request_consent-granted}

abbrev manager : Manager
manager = record { version = 1 ∷ []; key = some (7 ∷ []) }

abbrev pub env : RequestEnv
env = record {
  dir_made = true;
  headless = false;
  answer = yes;
  now = unix_epoch + 9;
  platform = 2 ∷ [];
  written = true;
}

-- The hash of each text is empty, and a text stands for the record of the test with that signature.
abbrev test_record : Text → ConsentRecord
test_record sig = record {
  granted_at = unix_epoch + 9;
  dg_version = 1 ∷ [];
  platform = 2 ∷ [];
  dialog_text_hash = [];
  explicit_grant = true;
  hmac_signature = sig;
}

abbrev pub packages : Packages
packages = record {
  marshal = λ r. some r.hmac_signature;
  marshal_indent = λ r. some r.hmac_signature;
  unmarshal = λ t. some (test_record t);
  sha256 = λ t. [];
  hmac = λ key t. 16 ∷ [];
}

is_consent_granted_iff_example :
    ((is_consent_granted packages manager true (present [])).1 ≡ true)
    ↔ HasConsent packages (7 ∷ []) (present [])
is_consent_granted_iff_example =
    is_consent_granted_iff packages manager (7 ∷ []) true (present []) refl

request_consent-granted_example :
    (request_consent packages manager env missing ≡ (present (b'1' ∷ b'0' ∷ []), none))
    × ((is_consent_granted packages manager true (request_consent packages manager env missing).0).1
        ≡ true)
unfolding dialog_hash hex_encode sign_record
request_consent-granted_example =
    request_consent-granted packages manager (7 ∷ []) (b'1' ∷ b'0' ∷ []) env true missing
      (b'1' ∷ b'0' ∷ []) refl refl refl refl refl refl refl
