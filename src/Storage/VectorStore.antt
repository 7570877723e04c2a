-- ===== src/Storage/VectorStore.antt =====
-- internal/storage/lancedb.go: the store of memory nodes over the file store, with the cache of
-- embeddings that internal/storage/jsonstore.go keeps for it. `F` is the type of the floats, and
-- encoding/json is an argument.
pub mod Laws
pub mod Tests
use digital_ghost.Prelude.{
  ℕ, suc, ◌+◌, ◌-◌, Text, Bool, true, false, List, [], ◌∷◌, Option, none, some, leb, length, take,
  drop, text_eq, if◌then◌else◌, select, not, is_some, ltb,
}
use digital_ghost.Prelude.Result.{Result, ok, err, ◌>>=◌}
use digital_ghost.Storage.Time.{Time}
use digital_ghost.Storage.Hex.{NodeId, hex_encode, parse_node_id}
use digital_ghost.Storage.Encrypt.{
  Crypto, CryptError, Encryptor, EncryptedRecord, seal, open_record, close,
}
use digital_ghost.Storage.JsonStore.{
  IndexEntry, FileState, missing, unreadable, present, Disk, StoreError, parse_failed,
  marshal_failed, crypt_failed, IndexCodec, WriteEnv, RemoveEnv, get_file, node_path, crypt,
}
use digital_ghost.Storage.JsonStore.Index.{load_index}
use digital_ghost.Storage.JsonStore.Records.{
  StoreEntry, write_record, read_record, delete_record, list_in_range, list_entries_by_time, count,
}

abbrev pub current_schema_version : ℕ
current_schema_version = 1

pub record MemoryNode (F : Type 0) : Type 0 where
  pub schema_version : ℕ
  pub id : NodeId
  pub captured_at : Time
  pub description : Text
  pub tags : List Text
  pub process_name : Text
  pub window_title : Text
  pub browser_url : Text
  pub embedding : List F
  pub engagement_score : F
  pub view_count : ℕ

-- json.Marshal and json.Unmarshal of a node.
pub record NodeCodec (F : Type 0) : Type 0 where
  pub marshal : MemoryNode F → Option Text
  pub unmarshal : Text → Option (MemoryNode F)

pub record Store (F : Type 0) : Type 0 where
  pub encryptor : Encryptor
  pub disk : Disk
  pub emb_cache : List (NodeId × List F)

pub record TimelineEntry : Type 0 where
  pub id : Text
  pub captured_at : Time
  pub description : Text
  pub app : Text
  pub window_title : Text
  pub browser_url : Text
  pub tags : List Text

-- `node.SchemaVersion = currentSchemaVersion`
abbrev pub stamp : {F : Type 0} → MemoryNode F → MemoryNode F
stamp n = record {
  schema_version = current_schema_version;
  id = n.id;
  captured_at = n.captured_at;
  description = n.description;
  tags = n.tags;
  process_name = n.process_name;
  window_title = n.window_title;
  browser_url = n.browser_url;
  embedding = n.embedding;
  engagement_score = n.engagement_score;
  view_count = n.view_count;
}

abbrev pub timeline_entry : {F : Type 0} → MemoryNode F → TimelineEntry
timeline_entry n = record {
  id = hex_encode n.id;
  captured_at = n.captured_at;
  description = n.description;
  app = n.process_name;
  window_title = n.window_title;
  browser_url = n.browser_url;
  tags = n.tags;
}

abbrev is_empty_list : {A : Type 0} → List A → Bool
is_empty_list [] = true
is_empty_list (x ∷ xs) = false

-- delete(s.embCache, nodeID)
unfoldable pub evict_embedding :
    {F : Type 0} → NodeId → List (NodeId × List F) → List (NodeId × List F)
evict_embedding id [] = []
evict_embedding id ((j, emb) ∷ c) =
    let rest = evict_embedding id c in if text_eq j id then rest else (j, emb) ∷ rest

-- updateEmbeddingCache: a node without an embedding leaves the cache as it is.
unfoldable pub update_embedding :
    {F : Type 0} → NodeId → List F → List (NodeId × List F) → List (NodeId × List F)
update_embedding id [] c = c
update_embedding id (x ∷ xs) c = (id, x ∷ xs) ∷ evict_embedding id c

abbrev pub with_disk : {F : Type 0} → Store F → Disk → Store F
with_disk s d = record { encryptor = s.encryptor; disk = d; emb_cache = s.emb_cache }

-- The cache is kept in step with a write that succeeds, and with a delete that succeeds.
abbrev pub stored :
    {F : Type 0} → MemoryNode F → Store F → Disk × Option StoreError → Store F × Option StoreError
stored node s (d, some x) = (with_disk s d, some x)
stored node s (d, none) = (
  record {
    encryptor = s.encryptor;
    disk = d;
    emb_cache = update_embedding node.id node.embedding s.emb_cache;
  },
  none,
)

abbrev pub evicted :
    {F : Type 0} → NodeId → Store F → Disk × Option StoreError → Store F × Option StoreError
evicted id s (d, some x) = (with_disk s d, some x)
evicted id s (d, none) =
    (record { encryptor = s.encryptor; disk = d; emb_cache = evict_embedding id s.emb_cache }, none)

module _ {F : Type 0} (C : Crypto) (K : IndexCodec) (N : NodeCodec F) where
  -- `nonce` is the random nonce of the node, and `env` what the system does to the files.
  unfoldable pub write :
      Option Text → WriteEnv → MemoryNode F → Store F → Store F × Option StoreError
  write nonce env node s = elim (N.marshal (stamp node)) [
    | none ↦ (s, some marshal_failed)
    | some payload ↦ elim (seal C s.encryptor node.id node.captured_at nonce payload) [
      | err x ↦ (s, some (crypt_failed x))
      | ok r ↦
          stored node s (write_record C K s.encryptor env node.id node.captured_at r.content s.disk)
    ]
  ]

  abbrev pub parse_node : Text → Result StoreError (MemoryNode F)
  parse_node plaintext = elim (N.unmarshal plaintext) [ none ↦ err parse_failed | some n ↦ ok n ]

  unfoldable pub read : NodeId → Store F → Result StoreError (MemoryNode F)
  read id s = read_record C K s.encryptor id s.disk >>= λ (content, ts).
      crypt (open_record C s.encryptor (record { node_id = id; timestamp = ts; content = content }))
      >>= parse_node

unfoldable pub close_store : {F : Type 0} → Store F → Store F
close_store s = record { encryptor = close s.encryptor; disk = s.disk; emb_cache = s.emb_cache }

module _ {F : Type 0} (C : Crypto) (K : IndexCodec) where
  unfoldable pub delete : RemoveEnv → NodeId → Store F → Store F × Option StoreError
  delete env id s = evicted id s (delete_record C K s.encryptor env id s.disk)

  -- The loop of DeleteRange and of the sweep: the store, and how many deletes failed. `envs n` is what
  -- the system does in the delete number `n`.
  unfoldable pub delete_all : (ℕ → RemoveEnv) → ℕ → List NodeId → ℕ → Store F → Store F × ℕ
  delete_all envs n [] failed s = (s, failed)
  delete_all envs n (id ∷ ids) failed s =
      let (s', error) = delete (envs n) id s in
      delete_all envs (suc n) ids (if is_some error then failed + 1 else failed) s'

  -- The store, the number of deleted nodes, and whether some delete failed.
  abbrev pub range_result : ℕ → Store F × ℕ → Store F × ℕ × Bool
  range_result total (s, failed) = (s, total - failed, ltb 0 failed)

  unfoldable pub delete_range :
      (ℕ → RemoveEnv) → Time → Time → Store F → Result StoreError (Store F × ℕ × Bool)
  delete_range envs after before s = list_in_range C K s.encryptor after before s.disk >>= λ ids.
      ok (range_result (length ids) (delete_all envs 0 ids 0 s))

  unfoldable pub stats : Store F → Result StoreError (ℕ × Time)
  stats s = count C K s.encryptor s.disk

module _ {F : Type 0} (C : Crypto) (K : IndexCodec) (N : NodeCodec F) where
  -- The page of the timeline, without the nodes that cannot be read.
  unfoldable pub read_page : Store F → List StoreEntry → List TimelineEntry
  read_page s [] = []
  read_page s (x ∷ xs) =
      let rest = read_page s xs in
      elim (read C K N x.node_id s) [ err e ↦ rest | ok n ↦ timeline_entry n ∷ rest ]

  -- The limit and the offset are not negative: the API checks them.
  unfoldable pub timeline : ℕ → ℕ → Store F → Result StoreError (List TimelineEntry × ℕ)
  timeline limit offset s = list_entries_by_time C K s.encryptor s.disk >>= λ entries.
      if leb (length entries) offset
      then ok ([], length entries)
      else ok (read_page s (take limit (drop offset entries)), length entries)

  -- The cached embedding of an index entry whose file opens and holds one.
  unfoldable pub load_embedding : Encryptor → Disk → IndexEntry → Option (NodeId × List F)
  load_embedding e d x = elim (parse_node_id x.id) [
    | none ↦ none
    | some id ↦ elim (get_file (node_path id) d.nodes) [
      | missing ↦ none
      | unreadable ↦ none
      | present content ↦
          elim (crypt (
              open_record C e (record { node_id = id; timestamp = x.timestamp; content = content }))
            >>= parse_node C K N) [
              | err q ↦ none
              | ok n ↦ if is_empty_list n.embedding then none else some (id, n.embedding)
            ]
    ]
  ]

  unfoldable pub load_embeddings :
      Encryptor → Disk → List IndexEntry → List (NodeId × List F) → List (NodeId × List F)
  load_embeddings e d [] c = c
  load_embeddings e d (x ∷ xs) c = elim (load_embedding e d x) [
    | none ↦ load_embeddings e d xs c
    | some (id, emb) ↦ load_embeddings e d xs (update_embedding id emb c)
  ]

  unfoldable pub load_embedding_cache : Encryptor → Disk → List (NodeId × List F)
  load_embedding_cache e d = elim (load_index C K e d) [
    | err x ↦ []
    | ok es ↦ load_embeddings e d es []
  ]
