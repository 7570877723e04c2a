-- ===== src/Storage/Encrypt.antt =====
-- internal/storage/encrypt.go: sealing and opening of records. AES-GCM and HMAC-SHA256 are
-- arguments; the random nonce is an argument too, `none` where the random source fails.
pub mod Laws
pub mod Tests
use digital_ghost.Prelude.{
  ℕ, ◌+◌, ◌≡◌, Text, Bool, true, false, List, [], ◌∷◌, ◌++◌, map, Option, none, some, length, take,
  drop, ltb, not, ◌==◌, text_eq, if◌then◌else◌,
}
use digital_ghost.Prelude.Result.{Result, ok, err, ◌>>=◌}
use digital_ghost.Storage.Time.{Time, unix_nano, big_endian}

pub record Crypto : Type 0 where
  pub hmac : Text → Text → Text
  pub gcm_seal : Text → Text → Text → Text
  pub gcm_open : Text → Text → Text → Option Text

-- The documented behaviour of the two: an HMAC-SHA256 has 32 bytes, and AES-GCM opens what it has
-- sealed under the same key and nonce.
pub record IsCrypto (C : Crypto) : Type 0 where
  pub length-hmac : (key message : Text) → length (C.hmac key message) ≡ 32
  pub open-seal :
      (key nonce plaintext : Text)
      → C.gcm_open key nonce (C.gcm_seal key nonce plaintext) ≡ some plaintext

abbrev pub key_len : ℕ
key_len = 32

abbrev pub gcm_nonce_size : ℕ
gcm_nonce_size = 12

abbrev pub hmac_size : ℕ
hmac_size = 32

pub data CryptError : Type 0 where
  bad_key_length no_random too_short tampered : CryptError

pub record EncryptedRecord : Type 0 where
  pub node_id : Text
  pub timestamp : Time
  pub content : Text

pub record Encryptor : Type 0 where
  pub key : Text

unfoldable pub new_encryptor : Text → Result CryptError Encryptor
new_encryptor key =
    if not (length key == key_len) then err bad_key_length else ok (record { key = key })

-- The key slice is zeroed in place.
unfoldable pub close : Encryptor → Encryptor
close e = record { key = map (λ _. 0) e.key }

-- The bytes that the HMAC covers.
abbrev pub message : Text → Time → Text → Text → Text
message node_id ts nonce ciphertext =
    node_id ++ (big_endian (unix_nano ts) ++ (nonce ++ ciphertext))

module _ (C : Crypto) where
  unfoldable pub compute_hmac : Encryptor → Text → Time → Text → Text → Text
  compute_hmac e node_id ts nonce ciphertext = C.hmac e.key (message node_id ts nonce ciphertext)

  unfoldable pub seal :
      Encryptor → Text → Time → Option Text → Text → Result CryptError EncryptedRecord
  seal e node_id ts random plaintext = elim random [
    | none ↦ err no_random
    | some nonce ↦
        let ciphertext = C.gcm_seal e.key nonce plaintext in
        ok (record {
          node_id = node_id;
          timestamp = ts;
          content = compute_hmac e node_id ts nonce ciphertext ++ (nonce ++ ciphertext);
        })
  ]

  -- The checks of `Open` on the three parts of the data.
  unfoldable pub open_parts : Encryptor → Text → Time → Text → Text → Text → Result CryptError Text
  open_parts e node_id ts stored_mac nonce ciphertext =
      if not (text_eq stored_mac (compute_hmac e node_id ts nonce ciphertext))
      then err tampered
      else elim (C.gcm_open e.key nonce ciphertext) [ none ↦ err tampered | some p ↦ ok p ]

  unfoldable pub open_record : Encryptor → EncryptedRecord → Result CryptError Text
  open_record e r =
      if ltb (length r.content) (hmac_size + gcm_nonce_size)
      then err too_short
      else open_parts e r.node_id r.timestamp (take hmac_size r.content)
          (take gcm_nonce_size (drop hmac_size r.content))
          (drop gcm_nonce_size (drop hmac_size r.content))
