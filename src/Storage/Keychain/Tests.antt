-- ===== src/Storage/Keychain/Tests.antt =====
-- The theorem on the start with the keychain, on a first start and a second.
use digital_ghost.Prelude.{◌≡◌, refl, Text, true, false, none, some, replicate, arith}
use digital_ghost.Prelude.Result.{ok}
use digital_ghost.Storage.Hex.{hex_encode}
use digital_ghost.Storage.Keychain.{no_entry, entry, KeyEnv, new_key_manager, generate_key}
use digital_ghost.Storage.Keychain.Laws.{IsPbkdf2, new_key_manager_restart}

abbrev weak_pbkdf2 : Text → Text → Text
weak_pbkdf2 password salt = replicate 32 7

weak_pbkdf2-IsPbkdf2 : IsPbkdf2 weak_pbkdf2
weak_pbkdf2-IsPbkdf2 = record { length = λ p s. refl; bytes = λ p s. ground arith }

abbrev good_env : KeyEnv
good_env = record { entropy = some (replicate 64 3); stored = true }

abbrev bad_env : KeyEnv
bad_env = record { entropy = none; stored = false }

first_start :
    new_key_manager weak_pbkdf2 good_env no_entry
    ≡ (entry (hex_encode (replicate 32 7)), ok (record { key = replicate 32 7 }))
unfolding new_key_manager generate_key
first_start = refl

new_key_manager_restart_example :
    new_key_manager weak_pbkdf2 bad_env (entry (hex_encode (replicate 32 7)))
    ≡ (entry (hex_encode (replicate 32 7)), ok (record { key = replicate 32 7 }))
new_key_manager_restart_example =
    new_key_manager_restart weak_pbkdf2 weak_pbkdf2-IsPbkdf2 good_env bad_env no_entry
      (entry (hex_encode (replicate 32 7))) (record { key = replicate 32 7 }) first_start
