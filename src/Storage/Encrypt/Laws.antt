-- ===== src/Storage/Encrypt/Laws.antt =====
-- What sealing and opening of internal/storage/encrypt.go guarantee.
use digital_ghost.Prelude.{
  ℕ, ◌≤◌, ◌≡◌, refl, ◌↔◌, Text, false, ◌++◌, some, arith, length, take, drop, ltb, text_eq_iff,
  length-append, take-append_of, drop-append_of, append_inj, Bool-cases, inl, inr,
}
use digital_ghost.Prelude.Result.{ok, ok-injective}
use digital_ghost.Storage.Time.{Time, unix_nano, big_endian, big_endian-injective, unix_nano-lt}
use digital_ghost.Storage.Encrypt.{
  Crypto, IsCrypto, EncryptedRecord, Encryptor, message, compute_hmac, seal, open_parts,
  open_record,
}

-- The text under the HMAC determines the node, the nanosecond of its timestamp, the nonce and the
-- ciphertext, for node IDs of 16 bytes and nonces of 12.
pub message-injective :
    (id id' : Text) (ts ts' : Time) (nonce nonce' ct ct' : Text)
    → length id ≡ 16
    → length id' ≡ 16
    → length nonce ≡ 12
    → length nonce' ≡ 12
    → message id ts nonce ct ≡ message id' ts' nonce' ct'
    → (id ≡ id') × (unix_nano ts ≡ unix_nano ts') × (nonce ≡ nonce') × (ct ≡ ct')
message-injective id id' ts ts' nonce nonce' ct ct' hid hid' hn hn' e =
    let (same_id, rest) = append_inj 16 id _ id' _ hid hid' e in
    let (same_ts, tail) =
      append_inj 8 (big_endian (unix_nano ts)) _ (big_endian (unix_nano ts')) _ refl refl rest in
    let (same_nonce, same_ct) = append_inj 12 nonce ct nonce' ct' hn hn' tail in
    (
      same_id,
      big_endian-injective _ _ (unix_nano-lt ts) (unix_nano-lt ts') same_ts,
      same_nonce,
      same_ct,
    )

module _ (C : Crypto) where
  -- A record is authentic for a plaintext: it is long enough, it begins with the HMAC of its own
  -- node, timestamp, nonce and ciphertext, and its ciphertext opens to that plaintext.
  pub record IsAuthentic (e : Encryptor) (r : EncryptedRecord) (p : Text) : Type 0 where
    pub long : 44 ≤ length r.content
    pub mac :
        take 32 r.content
        ≡ C.hmac e.key (
            message r.node_id r.timestamp
              (take 12 (drop 32 r.content))
              (drop 12 (drop 32 r.content)))
    pub opens :
        C.gcm_open e.key (take 12 (drop 32 r.content)) (drop 12 (drop 32 r.content)) ≡ some p

  open_parts-ok :
      (e : Encryptor) (id : Text) (ts : Time) (m n c p : Text)
      → open_parts C e id ts m n c ≡ ok p
      → (m ≡ compute_hmac C e id ts n c) × (C.gcm_open e.key n c ≡ some p)
  unfolding open_parts
  open_parts-ok e id ts m n c p h =
      (ground (arith, text_eq_iff m (compute_hmac C e id ts n c)), ground arith)

  open_parts_authentic :
      (e : Encryptor) (id : Text) (ts : Time) (m n c p : Text)
      → m ≡ compute_hmac C e id ts n c
      → C.gcm_open e.key n c ≡ some p
      → open_parts C e id ts m n c ≡ ok p
  unfolding open_parts
  open_parts_authentic e id ts m n c p hm ho =
      ground (arith, text_eq_iff m (compute_hmac C e id ts n c))

  long_enough : (n : ℕ) → 44 ≤ n → ltb n 44 ≡ false
  long_enough n h = ground arith

  -- A record opens to a plaintext exactly if it has at least 44 bytes, starts with the HMAC of
  -- its node ID, time, nonce and ciphertext, and its ciphertext opens to that plaintext.
  pub open_iff :
      (e : Encryptor) (r : EncryptedRecord) (p : Text)
      → (open_record C e r ≡ ok p) ↔ IsAuthentic e r p
  unfolding open_record compute_hmac
  open_iff e r p = (
    λ h. elim (Bool-cases (ltb (length r.content) 44)) [
      | inl q ↦ absurd (ground arith)
      | inr q ↦
          let (mac, opens) = open_parts-ok e r.node_id r.timestamp _ _ _ p (rw q at h) in
          record { long = ground arith; mac = mac; opens = opens }
    ],
    λ h.
        rw (long_enough (length r.content) h.long)
          (open_parts_authentic e r.node_id r.timestamp _ _ _ p h.mac h.opens),
  )

  seal-IsAuthentic :
      IsCrypto C
      → (e : Encryptor) (id : Text) (ts : Time) (nonce ct p mac : Text) → length nonce ≡ 12
      → length mac ≡ 32
      → mac ≡ C.hmac e.key (message id ts nonce ct)
      → C.gcm_open e.key nonce ct ≡ some p
      → IsAuthentic e (record { node_id = id; timestamp = ts; content = mac ++ (nonce ++ ct) }) p
  seal-IsAuthentic laws e id ts nonce ct p mac hn hm h o =
      let tail = drop-append_of 32 mac (nonce ++ ct) hm in
      record {
        long = rw (length-append mac (nonce ++ ct)) (rw (length-append nonce ct) (omega arith));
        mac = rw tail (
            rw (take-append_of 32 mac (nonce ++ ct) hm)
              (rw (take-append_of 12 nonce ct hn) (rw (drop-append_of 12 nonce ct hn) h)));
        opens = rw tail (rw (take-append_of 12 nonce ct hn) (rw (drop-append_of 12 nonce ct hn) o));
      }

  -- If an HMAC has 32 bytes and AES-GCM opens what it has sealed, a record that was sealed under
  -- a nonce of 12 bytes opens to its plaintext under the same key.
  pub open-seal :
      IsCrypto C
      → (e : Encryptor) (id : Text) (ts : Time) (nonce p : Text) (r : EncryptedRecord)
      → length nonce ≡ 12
      → seal C e id ts (some nonce) p ≡ ok r
      → open_record C e r ≡ ok p
  unfolding seal compute_hmac
  open-seal laws e id ts nonce p r hn h =
      let ct = C.gcm_seal e.key nonce p in
      let (_, back) = open_iff e r p in
      let authentic =
        seal-IsAuthentic laws e id ts nonce ct p _ hn
          (laws.length-hmac e.key (message id ts nonce ct)) refl (laws.open-seal e.key nonce p) in
      let same =
        ok-injective
          (record {
            node_id = id;
            timestamp = ts;
            content = compute_hmac C e id ts nonce ct ++ (nonce ++ ct);
          })
          r refl h in
      back (rw same at authentic)
