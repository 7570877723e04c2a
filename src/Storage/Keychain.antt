-- ===== src/Storage/Keychain.antt =====
-- internal/storage/keychain.go: the encryption key in the keychain of the system. The keychain, the
-- random source and PBKDF2 are not under this repository: the state of the keychain is a value, and
-- the other two are arguments.
pub mod Laws
pub mod Tests
use digital_ghost.Prelude.{
  ℕ, ◌*◌, ◌==◌, Text, Bool, true, false, List, [], ◌∷◌, Option, none, some, not, length, map, take,
  drop, if◌then◌else◌,
}
use digital_ghost.Prelude.Result.{Result, ok, err}
use digital_ghost.Storage.Hex.{hex_encode, hex_decode}
use digital_ghost.Storage.Encrypt.{key_len}

-- The entry of the program in the keychain. `locked` is a keychain that cannot be used.
pub data Keychain : Type 0 where
  locked no_entry : Keychain
  entry : Text → Keychain

pub data KeyError : Type 0 where
  keychain_unavailable corrupt_entry wrong_length no_entropy delete_failed : KeyError

pub record KeyManager : Type 0 where
  pub key : Text

-- What the system does: the 64 random bytes, if the source gives them, and whether the keychain takes
-- the new entry.
pub record KeyEnv : Type 0 where
  pub entropy : Option Text
  pub stored : Bool

abbrev pub salt_len : ℕ
salt_len = 32

abbrev pub zero_bytes : Text → Text
zero_bytes s = map (λ b. 0) s

unfoldable pub generate_key : (pbkdf2 : Text → Text → Text) → Option Text → Option Text
generate_key pbkdf2 none = none
generate_key pbkdf2 (some entropy) = some (pbkdf2 (take salt_len entropy) (drop salt_len entropy))

-- A key that was found in the keychain.
abbrev pub decode_key : Text → Result KeyError KeyManager
decode_key raw = elim (hex_decode raw) [
  | none ↦ err corrupt_entry
  | some key ↦ if not (length key == key_len) then err wrong_length else ok (record { key = key })
]

-- The keychain after the start, and the manager.
unfoldable pub new_key_manager :
    (pbkdf2 : Text → Text → Text) → KeyEnv → Keychain → Keychain × Result KeyError KeyManager
new_key_manager pbkdf2 env locked = (locked, err keychain_unavailable)
new_key_manager pbkdf2 env (entry raw) = (entry raw, decode_key raw)
new_key_manager pbkdf2 env no_entry = elim (generate_key pbkdf2 env.entropy) [
  | none ↦ (no_entry, err no_entropy)
  | some key ↦
      if env.stored
      then (entry (hex_encode key), ok (record { key = key }))
      else (no_entry, err keychain_unavailable)
]

-- DeleteKey: the copy in memory is zeroed whatever the keychain does.
unfoldable pub delete_key :
    (deleted : Bool) → Keychain → KeyManager → Keychain × KeyManager × Option KeyError
delete_key deleted locked km = (locked, record { key = zero_bytes km.key }, some delete_failed)
delete_key deleted no_entry km = (no_entry, record { key = zero_bytes km.key }, none)
delete_key deleted (entry raw) km =
    if deleted
    then (no_entry, record { key = zero_bytes km.key }, none)
    else (entry raw, record { key = zero_bytes km.key }, some delete_failed)
