-- ===== src/Storage/VectorStore/Laws.antt =====
-- What the store of nodes guarantees of a write and a read.
use digital_ghost.Prelude.{
  ◌≡◌, refl, ap, ◌∙◌, inl, inr, Text, false, List, Option, none, some, any, length, Option-cases,
}
use digital_ghost.Prelude.Result.{Result, ok, err, ◌>>=◌, ok-injective}
use digital_ghost.Storage.Time.{Time, IsNano}
use digital_ghost.Storage.Hex.{NodeId, IsNodeId}
use digital_ghost.Storage.Encrypt.{
  Crypto, IsCrypto, CryptError, Encryptor, EncryptedRecord, seal, open_record,
}
use digital_ghost.Storage.Encrypt.Laws.{IsAuthentic, open_iff, open-seal}
use digital_ghost.Storage.JsonStore.{
  IndexEntry, FileState, missing, unreadable, present, Disk, StoreError, IndexCodec, WriteEnv,
  written, get_file, node_path, crypt,
}
use digital_ghost.Storage.JsonStore.Index.{has_id, timestamp_from_index}
use digital_ghost.Storage.JsonStore.Index.Laws.{IsCodec, Saves, Holds}
use digital_ghost.Storage.JsonStore.Records.{write_record, read_record}
use digital_ghost.Storage.JsonStore.Records.Access.{read_record-write_record}
use digital_ghost.Storage.VectorStore.{
  MemoryNode, NodeCodec, Store, stamp, stored, parse_node, write, read,
}

not_ok : {A : Type 0} {x : StoreError} {a : A} → ¬ (err x ≡ ok a)
not_ok h = cc

module _ {F : Type 0} (C : Crypto) (K : IndexCodec) (N : NodeCodec F) (crypto : IsCrypto C)
    (codec : IsCodec K) where
  stored_disk :
      (node : MemoryNode F) (s : Store F) (r : Disk × Option StoreError)
      → (stored node s r).0.disk ≡ r.0
  stored_disk node s (d, some x) = refl
  stored_disk node s (d, none) = refl

  stored_encryptor :
      (node : MemoryNode F) (s : Store F) (r : Disk × Option StoreError)
      → (stored node s r).0.encryptor ≡ s.encryptor
  stored_encryptor node s (d, some x) = refl
  stored_encryptor node s (d, none) = refl

  read_of :
      (s : Store F) (id : NodeId) (content : Text) (ts : Time) (p : Text) (n : MemoryNode F)
      → read_record C K s.encryptor id s.disk ≡ ok (content, ts)
      → open_record C s.encryptor (record { node_id = id; timestamp = ts; content = content })
        ≡ ok p
      → N.unmarshal p ≡ some n
      → read C K N id s ≡ ok n
  unfolding read
  read_of s id content ts p n h o u = rw (read, h) (rw o (rw (parse_node, u) refl))

  write_of :
      (nonce : Text) (env : WriteEnv) (node : MemoryNode F) (payload : Text) (r : EncryptedRecord)
      (s : Store F)
      → N.marshal (stamp node) ≡ some payload
      → seal C s.encryptor node.id node.captured_at (some nonce) payload ≡ ok r
      → write C K N (some nonce) env node s
        ≡ stored node s (write_record C K s.encryptor env node.id node.captured_at r.content s.disk)
  unfolding write
  write_of nonce env node payload r s m q = rw (write, m) (rw q refl)

  seal_parts :
      (e : Encryptor) (id : NodeId) (ts : Time) (nonce p : Text)
      → length nonce ≡ 12
      → (r : EncryptedRecord) × (seal C e id ts (some nonce) p ≡ ok r)
        × (open_record C e (record { node_id = id; timestamp = ts; content = r.content }) ≡ ok p)
  unfolding seal
  seal_parts e id ts nonce p h = (_, refl, open-seal C crypto e id ts nonce p _ h refl)

  -- Take a node with an ID of 16 bytes and a time that has a UnixNano, which the index loads
  -- without, and which JSON prints and parses back. If HMAC, AES-GCM and the index codec behave
  -- as documented, and the write meets a nonce of 12 bytes and no fault of the disk, a read
  -- returns the node with the schema version set.
  pub read-write :
      (nonce : Text) (env : WriteEnv) (node : MemoryNode F) (payload : Text) (es : List IndexEntry)
      (s : Store F)
      → length nonce ≡ 12
      → Saves env.save
      → env.node_write ≡ written
      → IsNodeId node.id
      → IsNano node.captured_at
      → Holds C K crypto codec s.encryptor es s.disk
      → any (has_id node.id) es ≡ false
      → N.marshal (stamp node) ≡ some payload
      → N.unmarshal payload ≡ some (stamp node)
      → read C K N node.id (write C K N (some nonce) env node s).0 ≡ ok (stamp node)
  read-write nonce env node payload es s hn saves w hid hts h new m u =
      let (r, q, opened) = seal_parts s.encryptor node.id node.captured_at nonce payload hn in
      let out = write_record C K s.encryptor env node.id node.captured_at r.content s.disk in
      let back =
        read_record-write_record C K crypto codec s.encryptor env node.id node.captured_at r.content
          es s.disk saves w hid hts h new in
      rw (write_of nonce env node payload r s m q) (
        read_of (stored node s out).0 node.id r.content node.captured_at payload (stamp node)
          (rw (stored_disk node s out, stored_encryptor node s out) back)
          (rw (stored_encryptor node s out) opened) u)

  opened_node :
      (r : Result CryptError Text) (n : MemoryNode F)
      → (crypt r >>= parse_node C K N) ≡ ok n
      → (p : Text) × (r ≡ ok p) × (N.unmarshal p ≡ some n)
  opened_node (err x) n h = absurd (not_ok h)
  opened_node (ok p) n h = elim (Option-cases (N.unmarshal p)) [
    | inl q ↦ absurd (not_ok (rw (parse_node, q) at h))
    | inr (n', q) ↦ (p, refl, q ∙ ap some (ok-injective n' n refl (rw (parse_node, q) at h)))
  ]

  -- The file of a node is authentic for the node ID and the time that the index has, and holds `n`.
  pub record IsStored (id : NodeId) (s : Store F) (n : MemoryNode F) : Type 0 where
    pub content : Text
    pub plaintext : Text
    pub file : get_file (node_path id) s.disk.nodes ≡ present content
    pub authentic :
        IsAuthentic C s.encryptor
          (record {
            node_id = id;
            timestamp = timestamp_from_index C K s.encryptor id s.disk;
            content = content;
          })
          plaintext
    pub parsed : N.unmarshal plaintext ≡ some n

  read_file :
      (f : FileState) (id : NodeId) (s : Store F) (n : MemoryNode F)
      → get_file (node_path id) s.disk.nodes ≡ f
      → read C K N id s ≡ ok n
      → IsStored id s n
  unfolding read read_record
  read_file missing id s n q h = absurd (not_ok (rw (read, read_record, q) at h))
  read_file unreadable id s n q h = absurd (not_ok (rw (read, read_record, q) at h))
  read_file (present content) id s n q h =
      let (p, o, u) = opened_node _ n (rw (read, read_record, q) at h) in
      let (authentic, _) = open_iff C s.encryptor _ p in
      record { content = content; plaintext = p; file = q; authentic = authentic o; parsed = u }

  -- A read returns a node only if its file is authentic for its ID and the time in the index,
  -- which is to say that its HMAC is the one of the ID, the time, the nonce and the ciphertext,
  -- and the ciphertext opens to that node.
  pub read-IsStored :
      (id : NodeId) (s : Store F) (n : MemoryNode F) → read C K N id s ≡ ok n → IsStored id s n
  read-IsStored id s n h = read_file (get_file (node_path id) s.disk.nodes) id s n refl h
