-- ===== src/Storage/Encrypt/Tests.antt =====
-- The theorems of Storage.Encrypt on a toy cipher: the tag is 32 copies of the length of the text
-- plus the sum of the key, and the ciphertext is the plaintext.
use digital_ghost.Prelude.{◌+◌, ◌≡◌, refl, [], ◌∷◌, ◌++◌, some, replicate, length, length-replicate}
use digital_ghost.Prelude.Result.{ok}
use digital_ghost.Storage.Time.{unix_epoch}
use digital_ghost.Storage.Encrypt.{Crypto, IsCrypto, EncryptedRecord, Encryptor, seal, compute_hmac}

abbrev pub toy : Crypto
toy = record {
  hmac = λ key text. replicate 32 (length key + length text);
  gcm_seal = λ key nonce p. p;
  gcm_open = λ key nonce c. some c;
}

pub toy-IsCrypto : IsCrypto toy
toy-IsCrypto = record {
  length-hmac = λ key text. length-replicate 32 (length key + length text);
  open-seal = λ key nonce p. refl;
}

abbrev pub enc : Encryptor
enc = record { key = replicate 32 7 }

abbrev sealed : EncryptedRecord
sealed = record {
  node_id = replicate 16 1;
  timestamp = unix_epoch + 5;
  content = replicate 32 71 ++ (replicate 12 9 ++ (1 ∷ 2 ∷ 3 ∷ []));
}

sealed_by_seal :
    seal toy enc (replicate 16 1) (unix_epoch + 5) (some (replicate 12 9)) (1 ∷ 2 ∷ 3 ∷ [])
    ≡ ok sealed
unfolding seal compute_hmac
sealed_by_seal = refl
