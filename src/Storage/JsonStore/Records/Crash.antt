-- ===== src/Storage/JsonStore/Records/Crash.antt =====
-- A crash between the node file and the index: what the replay at the next start makes of it.
use digital_ghost.Prelude.{
  ℕ, suc, ◌≡◌, refl, ap, ◌∙◌, ◌≢◌, inl, inr, Text, Bool, true, false, List, [], ◌∷◌, ◌++◌, any, All,
  All-append, Bool-cases, if◌then◌else◌, any-append, ◌||◌,
}
use digital_ghost.Prelude.Result.{ok, Returns}
use digital_ghost.Storage.Time.{
  Time, IsNano, unix_nano, unix_nano-lt, from_unix_nano, from_unix_nano-unix_nano,
  from_unix_nano-IsNano,
}
use digital_ghost.Storage.Hex.{NodeId, IsNodeId, hex_encode}
use digital_ghost.Storage.Encrypt.{Crypto, IsCrypto, Encryptor}
use digital_ghost.Storage.JsonStore.{
  IndexEntry, FileState, present, Disk, IndexCodec, SaveEnv, WriteEnv, written, WalLine, wal_entry,
  malformed, wal_lines, no_wal, node_path, get_file, set_file, with_wal,
}
use digital_ghost.Storage.JsonStore.Index.{
  has_id, add_entry, entry_time, load_index, timestamp_from_index,
}
use digital_ghost.Storage.JsonStore.Index.Laws.{IsCodec, Saves, Holds}
use digital_ghost.Storage.JsonStore.Records.{
  append_wal, write_record, read_record, is_missing, parse_wal, replay_entry, replay_entries,
  replay_wal, remove_wal,
}
use digital_ghost.Storage.JsonStore.Records.Access.{
  node_path_ne, entry_time-add_entry, Holds-same, read_record_of, get_file-set_file,
}
use digital_ghost.Storage.JsonStore.Records.Replay.{
  IsLine, IsLogged, parse_wal-IsLogged, recover, recover_all, replay_entries-Saved,
  append_index_fails,
}

-- The line, the entry is not one of the node.
abbrev pub IsOfOther : NodeId → WalLine → Type 0
IsOfOther id (wal_entry j nanos) = j ≢ id
IsOfOther id malformed = Unit

parse_wal-append : (ls ms : List WalLine) → parse_wal (ls ++ ms) ≡ parse_wal ls ++ parse_wal ms
parse_wal-append [] ms = refl
parse_wal-append (wal_entry id nanos ∷ ls) ms =
    ap (λ r. (id, from_unix_nano nanos) ∷ r) (parse_wal-append ls ms)
parse_wal-append (malformed ∷ ls) ms = parse_wal-append ls ms

if_same : (a b : Bool) (d : Disk) → (if a then d else if b then d else d) ≡ d
if_same true b d = refl
if_same false true d = refl
if_same false false d = refl

or_false : (b : Bool) → (b || (false || false)) ≡ b
or_false true = refl
or_false false = refl

has_id-add_entry_ne :
    (id j : NodeId) (ts : Time) (es : List IndexEntry)
    → IsNodeId id
    → IsNodeId j
    → j ≢ id
    → any (has_id id) (add_entry j ts es) ≡ any (has_id id) es
unfolding add_entry
has_id-add_entry_ne id j ts es h hj ne = elim (Bool-cases (any (has_id j) es)) [
  | inl q ↦ rw q refl
  | inr q ↦ rw q (
      rw (any-append (has_id id) es (record { id = hex_encode j; timestamp = ts } ∷ []))
        (rw (node_path_ne j id hj h ne) (or_false (any (has_id id) es))))
]

has_id-recover_ne :
    (nodes : List (Text × FileState)) (existing : List IndexEntry) (id j : NodeId) (ts : Time)
    (es : List IndexEntry)
    → IsNodeId id
    → IsNodeId j
    → j ≢ id
    → any (has_id id) (recover nodes existing j ts es) ≡ any (has_id id) es
unfolding recover
has_id-recover_ne nodes existing id j ts es h hj ne = elim (Bool-cases (any (has_id j) existing)) [
  | inl q ↦ rw q refl
  | inr q ↦ elim (Bool-cases (is_missing (get_file (node_path j) nodes))) [
    | inl p ↦ rw (q, p) refl
    | inr p ↦ rw (q, p) (has_id-add_entry_ne id j ts es h hj ne)
  ]
]

-- The replay of a log whose last line is the only one of a node that the index lacks, and that has a
-- file, adds the entry of that line.
recover_all-last :
    (nodes : List (Text × FileState)) (existing : List IndexEntry) (id : NodeId) (ts : Time)
    (ls : List WalLine) (es : List IndexEntry)
    → IsNodeId id
    → All IsLine ls
    → All (IsOfOther id) ls
    → any (has_id id) existing ≡ false
    → is_missing (get_file (node_path id) nodes) ≡ false
    → any (has_id id) es ≡ false
    → entry_time id (recover_all nodes existing (parse_wal ls ++ ((id, ts) ∷ [])) es) ≡ ts
unfolding recover_all recover
recover_all-last nodes existing id ts [] es h hls other new file new' =
    rw (new, file) (entry_time-add_entry id ts es new')
recover_all-last nodes existing id ts (wal_entry j n ∷ ls) es h ((hj, hn), hls) (ne, other) new file
      new' =
    recover_all-last nodes existing id ts ls (recover nodes existing j (from_unix_nano n) es) h hls
      other new file (has_id-recover_ne nodes existing id j (from_unix_nano n) es h hj ne ∙ new')
recover_all-last nodes existing id ts (malformed ∷ ls) es h (u, hls) (v, other) new file new' =
    recover_all-last nodes existing id ts ls es h hls other new file new'

module _ (C : Crypto) (K : IndexCodec) (crypto : IsCrypto C) (codec : IsCodec K) where
  -- The disk between the write of the node file and the update of the index.
  abbrev crashed : NodeId → Time → Text → List WalLine → Disk → Disk
  crashed id ts payload ls d = record {
    nodes = set_file (node_path id) (present payload) d.nodes;
    index = d.index;
    wal = wal_lines (ls ++ (wal_entry id (unix_nano ts) ∷ []));
    plain_index = d.plain_index;
  }

  write_record_crashes :
      (e : Encryptor) (env : WriteEnv) (id : NodeId) (ts : Time) (payload : Text)
      (ls : List WalLine) (d : Disk)
      → env.wal_written ≡ true
      → env.node_write ≡ written
      → env.save.tmp_written ≡ false
      → d.wal ≡ wal_lines ls
      → (write_record C K e env id ts payload d).0 ≡ crashed id ts payload ls d
  unfolding write_record append_wal
  write_record_crashes e env id ts payload ls d w n f q =
      rw (write_record, n, w) (append_index_fails C K crypto codec e env.save id ts _ f ∙ rw q refl)

  remove_wal-read :
      (b : Bool) (e : Encryptor) (id : NodeId) (d : Disk)
      → read_record C K e id (remove_wal C K b d) ≡ read_record C K e id d
  unfolding read_record timestamp_from_index load_index
  remove_wal-read true e id d = refl
  remove_wal-read false e id d = refl

  -- Take a node with an ID of 16 bytes and a time that has a UnixNano, which the index loads
  -- without. If a write gets it into the log and into its file but the save of the index fails,
  -- and the log held only lines with valid IDs and 64-bit times, none of them of that node, then
  -- a replay whose saves all work makes the node readable with its payload and time, if HMAC,
  -- AES-GCM and the index codec behave as documented.
  pub replay_wal-recovers :
      (e : Encryptor) (env : WriteEnv) (envs : ℕ → SaveEnv) (removed : Bool) (id : NodeId)
      (ts : Time) (payload : Text) (ls : List WalLine) (es : List IndexEntry) (d : Disk)
      → env.wal_written ≡ true
      → env.node_write ≡ written
      → env.save.tmp_written ≡ false
      → ((n : ℕ) → Saves (envs n))
      → IsNodeId id
      → IsNano ts
      → Holds C K crypto codec e es d
      → any (has_id id) es ≡ false
      → d.wal ≡ wal_lines ls
      → All IsLine ls
      → All (IsOfOther id) ls
      → Returns
          (λ d'. read_record C K e id d' ≡ ok (payload, ts))
          (replay_wal C K e envs removed (write_record C K e env id ts payload d).0)
  unfolding replay_wal
  replay_wal-recovers e env envs removed id ts payload ls es d w n f s hid hts h new q hls other =
      let d0 = crashed id ts payload ls d in
      let held = Holds-same C K crypto codec e es d d0 refl h in
      let ts' = from_unix_nano (unix_nano ts) in
      let ws = parse_wal ls ++ ((id, ts') ∷ []) in
      let logged =
        All-append IsLogged (parse_wal ls) ((id, ts') ∷ []) (parse_wal-IsLogged ls hls)
          ((hid, from_unix_nano-IsNano (unix_nano ts) (unix_nano-lt ts)), tt) in
      let out = replay_entries-Saved C K crypto codec e envs 0 es ws es d0 s logged held in
      let file : get_file (node_path id) d0.nodes ≡ present payload =
        get_file-set_file C K crypto codec (node_path id) (present payload) d.nodes in
      let time =
        recover_all-last d0.nodes es id ts' ls es hid hls other new (rw file refl) new
        ∙ from_unix_nano-unix_nano ts hts in
      rw
        (
          write_record_crashes e env id ts payload ls d w n f q,
          held.loads,
          parse_wal-append ls (wal_entry id (unix_nano ts) ∷ []),
        )
        (remove_wal-read removed e id _
          ∙ read_record_of C K crypto codec e id (recover_all d0.nodes es ws es) _ payload out.holds
              (ap (get_file (node_path id)) out.same.nodes ∙ file)
          ∙ ap (λ t. ok (payload, t)) time)

  replay_entries_fail :
      (e : Encryptor) (envs : ℕ → SaveEnv) (n : ℕ) (existing : List IndexEntry)
      (ws : List (NodeId × Time)) (d : Disk)
      → ((k : ℕ) → (envs k).tmp_written ≡ false)
      → replay_entries C K e envs n existing ws d ≡ d
  unfolding replay_entries replay_entry
  replay_entries_fail e envs n existing [] d f = refl
  replay_entries_fail e envs n existing ((id, ts) ∷ ws) d f =
      let first : replay_entry C K e (envs n) existing id ts d ≡ d =
        rw (replay_entry, append_index_fails C K crypto codec e (envs n) id ts d (f n))
          (if_same (any (has_id id) existing) (is_missing (get_file (node_path id) d.nodes)) d) in
      ap (replay_entries C K e envs (suc n) existing ws) first
      ∙ replay_entries_fail e envs (suc n) existing ws d f

  -- If no temporary file of the index can be written during the replay of a readable log, the
  -- replay returns no error, removes the log and changes nothing else.
  replay_wal_forgets :
      (e : Encryptor) (envs : ℕ → SaveEnv) (ls : List WalLine) (d : Disk)
      → ((k : ℕ) → (envs k).tmp_written ≡ false)
      → d.wal ≡ wal_lines ls
      → replay_wal C K e envs true d ≡ ok (with_wal d no_wal)
  unfolding replay_wal
  replay_wal_forgets e envs ls d f q =
      rw (replay_wal, q)
        (ap (λ x. ok (with_wal x no_wal)) (replay_entries_fail e envs 0 _ (parse_wal ls) d f))
