-- ===== src/Storage/Keychain/Laws.antt =====
-- What the start with the keychain guarantees.
use digital_ghost.Prelude.{
  ◌<◌, ◌≡◌, refl, ap, ◌∙◌, Bool-cases, inl, inr, Text, length, All, take, drop, Option-cases,
}
use digital_ghost.Prelude.Result.{ok, err}
use digital_ghost.Storage.Hex.{hex_encode, hex_decode-hex_encode}
use digital_ghost.Storage.Encrypt.{key_len}
use digital_ghost.Storage.Keychain.{
  Keychain, locked, no_entry, entry, KeyError, KeyManager, KeyEnv, generate_key, new_key_manager,
  decode_key,
}

-- crypto/pbkdf2: a derived key has the length that was asked for, in bytes.
pub record IsPbkdf2 (pbkdf2 : Text → Text → Text) : Type 0 where
  pub length : (password salt : Text) → length (pbkdf2 password salt) ≡ key_len
  pub bytes : (password salt : Text) → All (λ b. b < 256) (pbkdf2 password salt)

not_ok : {A : Type 0} {x : KeyError} {a : A} → ¬ (err x ≡ ok a)
not_ok h = cc

module _ (pbkdf2 : Text → Text → Text) (laws : IsPbkdf2 pbkdf2) where
  stored_key :
      (key : Text)
      → length key ≡ key_len
      → All (λ b. b < 256) key
      → decode_key (hex_encode key) ≡ ok (record { key = key })
  stored_key key hl hb = rw (decode_key, hex_decode-hex_encode key hb) (rw hl refl)

  -- If PBKDF2 gives 32 bytes, then whatever a start that succeeds leaves in the keychain gives
  -- the next start the same key, even without random bytes and with a keychain that takes no new
  -- entry.
  pub new_key_manager_restart :
      (env env' : KeyEnv) (k k' : Keychain) (km : KeyManager)
      → new_key_manager pbkdf2 env k ≡ (k', ok km)
      → new_key_manager pbkdf2 env' k' ≡ (k', ok km)
  unfolding new_key_manager generate_key
  new_key_manager_restart env env' locked k' km h = absurd (not_ok (ap (λ p. p.1) h))
  new_key_manager_restart env env' (entry raw) k' km h =
      rw (← ap (λ p. p.0) h) (ap (λ r. (entry raw, r)) (ap (λ p. p.1) h))
  new_key_manager_restart env env' no_entry k' km h = elim (Option-cases env.entropy) [
    | inl q ↦ absurd (not_ok (ap (λ p. p.1) (rw q at h)))
    | inr (entropy, q) ↦ elim (Bool-cases env.stored) [
      | inl b ↦
          let key = pbkdf2 (take 32 entropy) (drop 32 entropy) in
          let h' : (entry (hex_encode key), ok (record { key = key })) ≡ (k', ok km) =
            rw (q, b) at h in
          let same = stored_key key (laws.length _ _) (laws.bytes _ _) in
          rw (← ap (λ p. p.0) h') (ap (λ r. (entry (hex_encode key), r)) (same ∙ ap (λ p. p.1) h'))
      | inr b ↦ absurd (not_ok (ap (λ p. p.1) (rw (q, b) at h)))
    ]
  ]
