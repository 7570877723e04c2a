-- ===== src/Storage/JsonStore/Records.antt =====
-- internal/storage/jsonstore.go: the operations on records, the write-ahead log, the migration of the
-- old plaintext index, and the start of the store. A write to the log happens whole or not at all.
pub mod Access
pub mod Replay
pub mod Crash
use digital_ghost.Prelude.{
  ℕ, suc, Text, Bool, true, false, List, [], ◌∷◌, ◌++◌, Option, none, some, take, not, any, length,
  if◌then◌else◌, ◌||◌, ◌&&◌,
}
use digital_ghost.Prelude.Result.{Result, ok, err, ◌>>=◌}
use digital_ghost.Storage.Time.{Time, unix_nano, from_unix_nano, is_zero, is_before}
use digital_ghost.Storage.Hex.{NodeId, parse_node_id}
use digital_ghost.Storage.Encrypt.{Crypto, Encryptor}
use digital_ghost.Storage.JsonStore.{
  IndexEntry, FileState, missing, unreadable, present, WalLine, wal_entry, malformed, WalState,
  no_wal, unreadable_wal, wal_lines, Disk, StoreError, not_found, read_failed, write_failed,
  remove_failed, parse_failed, IndexCodec, SaveEnv, WriteEnv, RemoveEnv, written, not_opened,
  cut_short, node_path, get_file, remove_file, set_file, with_nodes, with_wal, with_plain_index,
}
use digital_ghost.Storage.JsonStore.Index.{
  has_id, entries_or_nil, load_index, save_index, append_index, remove_from_index,
  timestamp_from_index,
}

-- The disk after a call whose error is only logged.
abbrev pub keep : Disk → Result StoreError Disk → Disk
keep d (ok d') = d'
keep d (err e) = d

abbrev pub is_missing : FileState → Bool
is_missing missing = true
is_missing unreadable = false
is_missing (present content) = false

abbrev pub append_line : WalLine → WalState → WalState
append_line l no_wal = wal_lines (l ∷ [])
append_line l unreadable_wal = unreadable_wal
append_line l (wal_lines ls) = wal_lines (ls ++ (l ∷ []))

unfoldable pub append_wal : NodeId → Time → Disk → Disk
append_wal id ts d = with_wal d (append_line (wal_entry id (unix_nano ts)) d.wal)

-- The node IDs of the entries that pass a test, where the ID is one.
unfoldable pub collect_ids : (IndexEntry → Bool) → List IndexEntry → List NodeId
collect_ids f [] = []
collect_ids f (e ∷ es) =
    let rest = collect_ids f es in
    if f e then elim (parse_node_id e.id) [ none ↦ rest | some id ↦ id ∷ rest ] else rest

abbrev pub in_range : Time → Time → IndexEntry → Bool
in_range after before e =
    (is_zero after || not (is_before e.timestamp after)) && is_before e.timestamp before

-- StoreEntry of internal/storage/lancedb.go
pub record StoreEntry : Type 0 where
  pub node_id : NodeId
  pub timestamp : Time

abbrev pub store_entries : List IndexEntry → List StoreEntry
store_entries [] = []
store_entries (e ∷ es) =
    let rest = store_entries es in
    elim (parse_node_id e.id) [
      | none ↦ rest
      | some id ↦ record { node_id = id; timestamp = e.timestamp } ∷ rest
    ]

-- sort.Slice, most recent first
abbrev pub insert_by_time : StoreEntry → List StoreEntry → List StoreEntry
insert_by_time e [] = e ∷ []
insert_by_time e (f ∷ es) =
    let rest = insert_by_time e es in
    if is_before e.timestamp f.timestamp then f ∷ rest else e ∷ f ∷ es

abbrev pub sort_by_time : List StoreEntry → List StoreEntry
sort_by_time [] = []
sort_by_time (e ∷ es) = insert_by_time e (sort_by_time es)

abbrev pub latest : Time → List IndexEntry → Time
latest t [] = t
latest t (e ∷ es) = latest (if is_before t e.timestamp then e.timestamp else t) es

-- The entries of the lines that parse, with time.Unix(0, nanos).
abbrev pub parse_wal : List WalLine → List (NodeId × Time)
parse_wal [] = []
parse_wal (wal_entry id nanos ∷ ls) = (id, from_unix_nano nanos) ∷ parse_wal ls
parse_wal (malformed ∷ ls) = parse_wal ls

module _ (C : Crypto) (K : IndexCodec) where
  unfoldable pub write_record :
      Encryptor → WriteEnv → NodeId → Time → Text → Disk → Disk × Option StoreError
  write_record e env id ts payload d =
      let logged = if env.wal_written then append_wal id ts d else d in
      elim env.node_write [
        | written ↦
            let d2 = with_nodes logged (set_file (node_path id) (present payload) logged.nodes) in
            (keep d2 (append_index C K e env.save id ts d2), none)
        | not_opened ↦ (logged, some write_failed)
        | cut_short n ↦ (
          with_nodes logged (set_file (node_path id) (present (take n payload)) logged.nodes),
          some write_failed,
        )
      ]

  unfoldable pub read_record : Encryptor → NodeId → Disk → Result StoreError (Text × Time)
  read_record e id d = elim (get_file (node_path id) d.nodes) [
    | missing ↦ err not_found
    | unreadable ↦ err read_failed
    | present content ↦ ok (content, timestamp_from_index C K e id d)
  ]

  abbrev pub after_removal : Disk → Result StoreError Disk → Disk × Option StoreError
  after_removal d (ok d') = (d', none)
  after_removal d (err x) = (d, some x)

  unfoldable pub delete_record : Encryptor → RemoveEnv → NodeId → Disk → Disk × Option StoreError
  delete_record e env id d =
      let d1 = with_nodes d (remove_file (node_path id) d.nodes) in
      let done = after_removal d1 (remove_from_index C K e env.save id d1) in
      if not env.removed && not (is_missing (get_file (node_path id) d.nodes))
      then (d, some remove_failed)
      else done

  unfoldable pub list_in_range : Encryptor → Time → Time → Disk → Result StoreError (List NodeId)
  list_in_range e after before d =
      load_index C K e d >>= λ es. ok (collect_ids (in_range after before) es)

  unfoldable pub list_older_than : Encryptor → Time → Disk → Result StoreError (List NodeId)
  list_older_than e before d =
      load_index C K e d >>= λ es. ok (collect_ids (λ x. is_before x.timestamp before) es)

  unfoldable pub list_entries_by_time : Encryptor → Disk → Result StoreError (List StoreEntry)
  list_entries_by_time e d = load_index C K e d >>= λ es. ok (sort_by_time (store_entries es))

  unfoldable pub count : Encryptor → Disk → Result StoreError (ℕ × Time)
  count e d = load_index C K e d >>= λ es. ok (length es, latest 0 es)

  -- One entry of the log: it is left alone if the index had it before the replay, or its file is missing.
  unfoldable pub replay_entry : Encryptor → SaveEnv → List IndexEntry → NodeId → Time → Disk → Disk
  replay_entry e env existing id ts d =
      let indexed = keep d (append_index C K e env id ts d) in
      if any (has_id id) existing
      then d
      else if is_missing (get_file (node_path id) d.nodes)
      then d
      else indexed

  -- `envs n` is what the system does in the save for entry `n`.
  unfoldable pub replay_entries :
      Encryptor → (ℕ → SaveEnv) → ℕ → List IndexEntry → List (NodeId × Time) → Disk → Disk
  replay_entries e envs n existing [] d = d
  replay_entries e envs n existing ((id, ts) ∷ ws) d =
      replay_entries e envs (suc n) existing ws (replay_entry e (envs n) existing id ts d)

  abbrev pub remove_wal : Bool → Disk → Disk
  remove_wal removed d = if removed then with_wal d no_wal else d

  unfoldable pub replay_wal :
      Encryptor → (ℕ → SaveEnv) → (removed : Bool) → Disk → Result StoreError Disk
  replay_wal e envs removed d = elim d.wal [
    | no_wal ↦ ok d
    | unreadable_wal ↦ err read_failed
    | wal_lines ls ↦ ok (
        remove_wal removed
          (replay_entries e envs 0 (entries_or_nil (load_index C K e d)) (parse_wal ls) d))
  ]

  abbrev pub remove_plain : Bool → Disk → Disk
  remove_plain removed d = if removed then with_plain_index d missing else d

  unfoldable pub migrate_index : Encryptor → RemoveEnv → Disk → Result StoreError Disk
  migrate_index e env d =
      if is_missing d.plain_index
      then ok d
      else if not (is_missing d.index)
      then if env.removed then ok (with_plain_index d missing) else err remove_failed
      else elim d.plain_index [
        | missing ↦ err read_failed
        | unreadable ↦ err read_failed
        | present content ↦ elim (K.unmarshal content) [
          | none ↦ err parse_failed
          | some es ↦ save_index C K e env.save es d >>= λ d'. ok (remove_plain env.removed d')
        ]
      ]

  -- NewJSONStore on the disk: the errors of the two steps are logged.
  unfoldable pub open_store : Encryptor → RemoveEnv → (ℕ → SaveEnv) → Bool → Disk → Disk
  open_store e env envs removed d =
      let migrated = keep d (migrate_index e env d) in
      keep migrated (replay_wal e envs removed migrated)
