-- ===== src/Storage/JsonStore/Index.antt =====
-- internal/storage/jsonstore.go: the encrypted index file.
pub mod Laws
use digital_ghost.Prelude.{
  ℕ, Text, Bool, List, [], ◌∷◌, ◌++◌, Option, none, some, any, find?, select, not, text_eq,
  if◌then◌else◌,
}
use digital_ghost.Prelude.Result.{Result, ok, err, ◌>>=◌}
use digital_ghost.Storage.Time.{Time}
use digital_ghost.Storage.Hex.{NodeId, hex_encode}
use digital_ghost.Storage.Encrypt.{Crypto, Encryptor, seal, open_record}
use digital_ghost.Storage.JsonStore.{
  IndexEntry, missing, unreadable, present, Disk, StoreError, read_failed, write_failed,
  parse_failed, marshal_failed, IndexCodec, SaveEnv, index_sentinel_id, index_sentinel_time, crypt,
  with_index,
}

-- The entry of a node.
abbrev pub has_id : NodeId → IndexEntry → Bool
has_id id e = text_eq e.id (hex_encode id)

-- The index with an entry for the node: as it was if the node has one.
unfoldable pub add_entry : NodeId → Time → List IndexEntry → List IndexEntry
add_entry id ts es =
    if any (has_id id) es then es else es ++ (record { id = hex_encode id; timestamp = ts } ∷ [])

unfoldable pub remove_entry : NodeId → List IndexEntry → List IndexEntry
remove_entry id es = select (λ e. not (has_id id e)) es

abbrev pub time_of : Option IndexEntry → Time
time_of none = 0
time_of (some e) = e.timestamp

-- time.Time{}, the zero Time, where the node has no entry.
unfoldable pub entry_time : NodeId → List IndexEntry → Time
entry_time id es = time_of (find? (has_id id) es)

-- `entries, _ := s.loadIndex()`
abbrev pub entries_or_nil : Result StoreError (List IndexEntry) → List IndexEntry
entries_or_nil (ok es) = es
entries_or_nil (err e) = []

module _ (C : Crypto) (K : IndexCodec) where
  abbrev pub parse_index : Text → Result StoreError (List IndexEntry)
  parse_index plaintext = elim (K.unmarshal plaintext) [ none ↦ err parse_failed | some es ↦ ok es ]

  unfoldable pub load_index : Encryptor → Disk → Result StoreError (List IndexEntry)
  load_index e d = elim d.index [
    | missing ↦ ok []
    | unreadable ↦ err read_failed
    | present content ↦
        crypt (
          open_record C e (record {
            node_id = index_sentinel_id;
            timestamp = index_sentinel_time;
            content = content;
          }))
        >>= parse_index
  ]

  unfoldable pub save_index : Encryptor → SaveEnv → List IndexEntry → Disk → Result StoreError Disk
  save_index e env es d = elim (K.marshal es) [
    | none ↦ err marshal_failed
    | some plaintext ↦
        crypt (seal C e index_sentinel_id index_sentinel_time env.nonce plaintext) >>= λ r.
        if not env.tmp_written
        then err write_failed
        else if not env.renamed
        then err write_failed
        else ok (with_index d (present r.content))
  ]

  unfoldable pub append_index : Encryptor → SaveEnv → NodeId → Time → Disk → Result StoreError Disk
  append_index e env id ts d =
      let es = entries_or_nil (load_index e d) in
      let saved = save_index e env (add_entry id ts es) d in
      if any (has_id id) es then ok d else saved

  unfoldable pub remove_from_index : Encryptor → SaveEnv → NodeId → Disk → Result StoreError Disk
  remove_from_index e env id d = load_index e d >>= λ es. save_index e env (remove_entry id es) d

  unfoldable pub timestamp_from_index : Encryptor → NodeId → Disk → Time
  timestamp_from_index e id d = entry_time id (entries_or_nil (load_index e d))
