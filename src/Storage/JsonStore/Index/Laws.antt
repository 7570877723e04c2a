-- ===== src/Storage/JsonStore/Index/Laws.antt =====
-- The index file as a list of entries, and the operations on it.
use digital_ghost.Prelude.{
  ◌≡◌, refl, inl, inr, Text, true, List, [], ◌∷◌, some, any, not, length, All, All-append,
  All-select, All-if, Bool-cases,
}
use digital_ghost.Prelude.Result.{Result, ok, err, ◌>>=◌, Returns}
use digital_ghost.Storage.Time.{Time, IsNano}
use digital_ghost.Storage.Hex.{NodeId, IsNodeId, hex_encode}
use digital_ghost.Storage.Encrypt.{
  Crypto, IsCrypto, CryptError, Encryptor, EncryptedRecord, seal, open_record,
}
use digital_ghost.Storage.Encrypt.Laws.{open-seal}
use digital_ghost.Storage.JsonStore.{
  IndexEntry, present, Disk, StoreError, IndexCodec, SaveEnv, index_sentinel_id,
  index_sentinel_time, crypt, with_index,
}
use digital_ghost.Storage.JsonStore.Index.{
  has_id, add_entry, remove_entry, parse_index, load_index, save_index, append_index,
  remove_from_index,
}

-- An entry of a node, with a time that has a UnixNano.
pub record IsEntry (e : IndexEntry) : Type 0 where
  pub node : NodeId
  pub is_node : IsNodeId node
  pub hex : e.id ≡ hex_encode node
  pub nano : IsNano e.timestamp

abbrev pub IsIndex : List IndexEntry → Type 0
IsIndex es = All IsEntry es

-- encoding/json: a list of entries of nodes can be marshalled, and is read back as it was.
pub record IsCodec (K : IndexCodec) : Type 0 where
  pub round_trip :
      (es : List IndexEntry)
      → IsIndex es
      → (t : Text) × (K.marshal es ≡ some t) × (K.unmarshal t ≡ some es)

-- The random source gives a nonce, and the file system does what it is asked.
pub record Saves (env : SaveEnv) : Type 0 where
  pub bytes : Text
  pub nonce : env.nonce ≡ some bytes
  pub size : length bytes ≡ 12
  pub tmp_written : env.tmp_written ≡ true
  pub renamed : env.renamed ≡ true

-- All but the index is as it was.
pub record SameFiles (d d' : Disk) : Type 0 where
  pub nodes : d'.nodes ≡ d.nodes
  pub wal : d'.wal ≡ d.wal
  pub plain_index : d'.plain_index ≡ d.plain_index

pub add_entry-IsIndex :
    (id : NodeId) (ts : Time) (es : List IndexEntry)
    → IsNodeId id
    → IsNano ts
    → IsIndex es
    → IsIndex (add_entry id ts es)
unfolding add_entry
add_entry-IsIndex id ts es hid hts h =
    All-if IsEntry (any (has_id id) es) es _ h
      (All-append IsEntry es _ h (record { node = id; is_node = hid; hex = refl; nano = hts }, tt))

pub remove_entry-IsIndex :
    (id : NodeId) (es : List IndexEntry) → IsIndex es → IsIndex (remove_entry id es)
unfolding remove_entry
remove_entry-IsIndex id es h = All-select IsEntry (λ e. not (has_id id e)) es h

Returns-crypt :
    {A B : Type 0} (P : A → Type 0) (Q : B → Type 0) (m : Result CryptError A)
    (f : A → Result StoreError B)
    → Returns P m
    → ((a : A) → P a → Returns Q (f a))
    → Returns Q (crypt m >>= f)
Returns-crypt P Q (ok a) f h k = k a h
Returns-crypt P Q (err e) f h k = elim h [ ]

module _ (C : Crypto) (K : IndexCodec) (crypto : IsCrypto C) (codec : IsCodec K) where
  -- The index file of a disk holds these entries.
  pub record Holds (e : Encryptor) (es : List IndexEntry) (d : Disk) : Type 0 where
    pub loads : load_index C K e d ≡ ok es
    pub valid : IsIndex es

  pub record Saved (e : Encryptor) (es : List IndexEntry) (d d' : Disk) : Type 0 where
    pub holds : Holds e es d'
    pub same : SameFiles d d'

  -- The record under the name of the index.
  abbrev index_record : Text → EncryptedRecord
  index_record content = record {
    node_id = index_sentinel_id;
    timestamp = index_sentinel_time;
    content = content;
  }

  seal_index :
      (e : Encryptor) (nonce p : Text)
      → length nonce ≡ 12
      → Returns
          (λ r. open_record C e (index_record r.content) ≡ ok p)
          (seal C e index_sentinel_id index_sentinel_time (some nonce) p)
  unfolding seal
  seal_index e nonce p h =
      open-seal C crypto e index_sentinel_id index_sentinel_time nonce p _ h refl

  with_index-Saved :
      (e : Encryptor) (es : List IndexEntry) (d : Disk) (content t : Text)
      → open_record C e (index_record content) ≡ ok t
      → K.unmarshal t ≡ some es
      → IsIndex es
      → Saved e es d (with_index d (present content))
  unfolding load_index
  with_index-Saved e es d content t ho hu h = record {
    holds = record { loads = rw ho (rw (parse_index, hu) refl); valid = h };
    same = record { nodes = refl; wal = refl; plain_index = refl };
  }

  -- A save that the system carries out leaves an index that loads as what was saved.
  pub save_index-Saved :
      (e : Encryptor) (env : SaveEnv) (es : List IndexEntry) (d : Disk)
      → Saves env
      → IsIndex es
      → Returns (Saved e es d) (save_index C K e env es d)
  unfolding save_index
  save_index-Saved e env es d s h =
      let (t, m, u) = codec.round_trip es h in
      rw (save_index, m, s.nonce, s.tmp_written, s.renamed)
        (Returns-crypt (λ r. open_record C e (index_record r.content) ≡ ok t) (Saved e es d) _ _
          (seal_index e s.bytes t s.size) (λ r o. with_index-Saved e es d r.content t o u h))

  pub append_index-Saved :
      (e : Encryptor) (env : SaveEnv) (id : NodeId) (ts : Time) (es : List IndexEntry) (d : Disk)
      → Saves env
      → IsNodeId id
      → IsNano ts
      → Holds e es d
      → Returns (Saved e (add_entry id ts es) d) (append_index C K e env id ts d)
  unfolding append_index add_entry
  append_index-Saved e env id ts es d s hid hts h =
      let next =
        save_index-Saved e env (add_entry id ts es) d s
          (add_entry-IsIndex id ts es hid hts h.valid) in
      elim (Bool-cases (any (has_id id) es)) [
        | inl q ↦
            rw (h.loads, q)
              (record { holds = h; same = record { nodes = refl; wal = refl; plain_index = refl } })
        | inr q ↦ rw (h.loads, q) (rw q at next)
      ]

  pub remove_from_index-Saved :
      (e : Encryptor) (env : SaveEnv) (id : NodeId) (es : List IndexEntry) (d : Disk)
      → Saves env
      → Holds e es d
      → Returns (Saved e (remove_entry id es) d) (remove_from_index C K e env id d)
  unfolding remove_from_index
  remove_from_index-Saved e env id es d s h =
      rw h.loads
        (save_index-Saved e env (remove_entry id es) d s (remove_entry-IsIndex id es h.valid))

  -- If the index does not load, adding an entry with a valid node ID and time, with a save that
  -- works and the packages as documented, leaves an index with that entry alone.
  append_index_corrupt :
      (e : Encryptor) (env : SaveEnv) (id : NodeId) (ts : Time) (x : StoreError) (d : Disk)
      → Saves env
      → IsNodeId id
      → IsNano ts
      → load_index C K e d ≡ err x
      → Returns
          (Saved e (record { id = hex_encode id; timestamp = ts } ∷ []) d)
          (append_index C K e env id ts d)
  unfolding append_index add_entry
  append_index_corrupt e env id ts x d s hid hts h =
      rw (append_index, h)
        (save_index-Saved e env (record { id = hex_encode id; timestamp = ts } ∷ []) d s
          (record { node = id; is_node = hid; hex = refl; nano = hts }, tt))
