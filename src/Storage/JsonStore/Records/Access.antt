-- ===== src/Storage/JsonStore/Records/Access.antt =====
-- What reads, writes and deletes of records do to the files and to the entries of the index.
use digital_ghost.Prelude.{
  ◌≡◌, refl, sym, ap, ◌∙◌, ◌≢◌, inl, inr, Text, Bool, true, false, List, [], ◌∷◌, ◌++◌, none, some,
  arith, any, find?, select, not, Bool-cases, text_eq, text_eq_refl, text_eq→≡, if◌then◌else◌,
}
use digital_ghost.Prelude.Result.{Result, ok, err, Returns}
use digital_ghost.Storage.Time.{Time, IsNano}
use digital_ghost.Storage.Hex.{NodeId, IsNodeId, hex_encode, hex_encode-injective}
use digital_ghost.Storage.Encrypt.{Crypto, IsCrypto, Encryptor}
use digital_ghost.Storage.JsonStore.{
  IndexEntry, FileState, missing, present, Disk, StoreError, IndexCodec, WriteEnv, RemoveEnv,
  written, node_path, get_file, remove_file, set_file, with_nodes,
}
use digital_ghost.Storage.JsonStore.Index.{
  has_id, add_entry, remove_entry, entry_time, time_of, load_index, timestamp_from_index,
}
use digital_ghost.Storage.JsonStore.Index.Laws.{
  IsCodec, Saves, Holds, Saved, append_index-Saved, remove_from_index-Saved,
}
use digital_ghost.Storage.JsonStore.Records.{
  append_wal, write_record, read_record, delete_record, after_removal, keep,
}

pub get_file-remove_file_self :
    (p : Text) (fs : List (Text × FileState)) → get_file p (remove_file p fs) ≡ missing
unfolding get_file remove_file
get_file-remove_file_self p [] = refl
get_file-remove_file_self p ((q, f) ∷ fs) = elim (Bool-cases (text_eq q p)) [
  | inl e ↦ rw e (get_file-remove_file_self p fs)
  | inr e ↦ rw (e, e) (get_file-remove_file_self p fs)
]

pub get_file-remove_file_ne :
    (p q : Text) (fs : List (Text × FileState))
    → text_eq p q ≡ false
    → get_file q (remove_file p fs) ≡ get_file q fs
unfolding get_file remove_file
get_file-remove_file_ne p q [] h = refl
get_file-remove_file_ne p q ((r, f) ∷ fs) h = elim (Bool-cases (text_eq r p)) [
  | inl e ↦ rw e (rw (text_eq→≡ r p e) (rw h (get_file-remove_file_ne p q fs h)))
  | inr e ↦ rw e (ap (λ x. if text_eq r q then f else x) (get_file-remove_file_ne p q fs h))
]

find?-append_skip :
    {A : Type 0} (f : A → Bool) (xs : List A) (a : A)
    → any f xs ≡ false
    → f a ≡ true
    → find? f (xs ++ (a ∷ [])) ≡ some a
find?-append_skip f [] a h k = rw k refl
find?-append_skip f (x ∷ xs) a h k = ground (arith, find?-append_skip f xs a)

pub find?-append_keep :
    {A : Type 0} (f : A → Bool) (xs : List A) (a : A)
    → f a ≡ false
    → find? f (xs ++ (a ∷ [])) ≡ find? f xs
find?-append_keep f [] a k = rw k refl
find?-append_keep f (x ∷ xs) a k = rw (find?-append_keep f xs a k) refl

pub has_id_self :
    (id : NodeId) (ts : Time) → has_id id (record { id = hex_encode id; timestamp = ts }) ≡ true
has_id_self id ts = text_eq_refl (hex_encode id)

text_eq-false : (s t : Text) → s ≢ t → text_eq s t ≡ false
text_eq-false s t h = elim (Bool-cases (text_eq s t)) [
  | inl e ↦ absurd (h (text_eq→≡ s t e))
  | inr e ↦ e
]

-- Two nodes have two paths.
pub node_path_ne :
    (id id' : NodeId)
    → IsNodeId id
    → IsNodeId id'
    → id ≢ id'
    → text_eq (node_path id) (node_path id') ≡ false
node_path_ne id id' h h' ne = text_eq-false _ _ (λ e. ne (hex_encode-injective id id' h h' e))

-- An entry that was added has its time.
pub entry_time-add_entry :
    (id : NodeId) (ts : Time) (es : List IndexEntry)
    → any (has_id id) es ≡ false
    → entry_time id (add_entry id ts es) ≡ ts
unfolding entry_time add_entry
entry_time-add_entry id ts es h = rw h (
    ap time_of (
      find?-append_skip (has_id id) es (record { id = hex_encode id; timestamp = ts }) h
        (has_id_self id ts)))

find?-select_ne :
    {A : Type 0} (f g : A → Bool) (xs : List A)
    → ((x : A) → g x ≡ true → f x ≡ true)
    → find? g (select f xs) ≡ find? g xs
find?-select_ne f g [] h = refl
find?-select_ne f g (x ∷ xs) h = elim (Bool-cases (f x)) [
  | inl e ↦ rw e (ap (λ r. if g x then some x else r) (find?-select_ne f g xs h))
  | inr e ↦ elim (Bool-cases (g x)) [
    | inl q ↦ absurd (ground (arith, h x q))
    | inr q ↦ rw (e, q) (find?-select_ne f g xs h)
  ]
]

-- The time of another node does not change.
pub entry_time-remove_entry :
    (id id' : NodeId) (es : List IndexEntry)
    → IsNodeId id
    → IsNodeId id'
    → id ≢ id'
    → entry_time id' (remove_entry id es) ≡ entry_time id' es
unfolding entry_time remove_entry
entry_time-remove_entry id id' es h h' ne =
    let other = node_path_ne id' id h' h (λ e. ne (sym e)) in
    ap time_of (
      find?-select_ne (λ e. not (has_id id e)) (has_id id') es
        (λ e q. rw (text_eq→≡ e.id (hex_encode id') q) (rw other refl)))

module _ (C : Crypto) (K : IndexCodec) (crypto : IsCrypto C) (codec : IsCodec K) where
  -- What an undisturbed write of a new node leaves: its entry, its file, and the other files.
  pub record Written (e : Encryptor) (id : NodeId) (ts : Time) (payload : Text)
      (es : List IndexEntry) (d d' : Disk) : Type 0 where
    pub holds : Holds C K crypto codec e (add_entry id ts es) d'
    pub nodes : d'.nodes ≡ set_file (node_path id) (present payload) d.nodes

  pub keep-Saved :
      (e : Encryptor) (es : List IndexEntry) (d : Disk) (r : Result StoreError Disk)
      → Returns (Saved C K crypto codec e es d) r
      → Saved C K crypto codec e es d (keep d r)
  keep-Saved e es d (ok d') h = h
  keep-Saved e es d (err x) h = elim h [ ]

  -- The log and the node files are not the index.
  pub Holds-same :
      (e : Encryptor) (es : List IndexEntry) (d d' : Disk)
      → d'.index ≡ d.index
      → Holds C K crypto codec e es d
      → Holds C K crypto codec e es d'
  unfolding load_index
  Holds-same e es d d' q h = record { loads = rw q h.loads; valid = h.valid }

  logged_nodes :
      (b : Bool) (id : NodeId) (ts : Time) (d : Disk)
      → (if b then append_wal id ts d else d).nodes ≡ d.nodes
  unfolding append_wal
  logged_nodes true id ts d = refl
  logged_nodes false id ts d = refl

  logged_index :
      (b : Bool) (id : NodeId) (ts : Time) (d : Disk)
      → (if b then append_wal id ts d else d).index ≡ d.index
  unfolding append_wal
  logged_index true id ts d = refl
  logged_index false id ts d = refl

  pub write_record-Written :
      (e : Encryptor) (env : WriteEnv) (id : NodeId) (ts : Time) (payload : Text)
      (es : List IndexEntry) (d : Disk)
      → Saves env.save
      → env.node_write ≡ written
      → IsNodeId id
      → IsNano ts
      → Holds C K crypto codec e es d
      → Written e id ts payload es d (write_record C K e env id ts payload d).0
  unfolding write_record
  write_record-Written e env id ts payload es d s w hid hts h =
      let logged = if env.wal_written then append_wal id ts d else d in
      let d2 = with_nodes logged (set_file (node_path id) (present payload) logged.nodes) in
      let saved = keep-Saved e (add_entry id ts es) d2 _ (
        append_index-Saved C K crypto codec e env.save id ts es d2 s hid hts
          (Holds-same e es d d2 (logged_index env.wal_written id ts d) h)) in
      rw (write_record, w)
        (record {
          holds = saved.holds;
          nodes =
              saved.same.nodes
              ∙ ap (set_file (node_path id) (present payload))
                  (logged_nodes env.wal_written id ts d);
        })

  -- A read of a node whose file and entry are there.
  pub read_record_of :
      (e : Encryptor) (id : NodeId) (es : List IndexEntry) (d : Disk) (payload : Text)
      → Holds C K crypto codec e es d
      → get_file (node_path id) d.nodes ≡ present payload
      → read_record C K e id d ≡ ok (payload, entry_time id es)
  unfolding read_record timestamp_from_index
  read_record_of e id es d payload h f =
      rw (read_record, f) (rw (timestamp_from_index, h.loads) refl)

  pub get_file-set_file :
      (p : Text) (f : FileState) (fs : List (Text × FileState)) → get_file p (set_file p f fs) ≡ f
  unfolding get_file
  get_file-set_file p f fs = rw (text_eq_refl p) refl

  -- A new node that an undisturbed write stores is read back, payload and time.
  pub read_record-write_record :
      (e : Encryptor) (env : WriteEnv) (id : NodeId) (ts : Time) (payload : Text)
      (es : List IndexEntry) (d : Disk)
      → Saves env.save
      → env.node_write ≡ written
      → IsNodeId id
      → IsNano ts
      → Holds C K crypto codec e es d
      → any (has_id id) es ≡ false
      → read_record C K e id (write_record C K e env id ts payload d).0 ≡ ok (payload, ts)
  read_record-write_record e env id ts payload es d s w hid hts h new =
      let out = write_record-Written e env id ts payload es d s w hid hts h in
      read_record_of e id (add_entry id ts es) _ payload out.holds (
        ap (get_file (node_path id)) out.nodes
        ∙ get_file-set_file (node_path id) (present payload) d.nodes)
      ∙ ap (λ t. ok (payload, t)) (entry_time-add_entry id ts es new)

  -- What an undisturbed delete leaves: no entry and no file of the node, and the other files.
  pub record Deleted (e : Encryptor) (id : NodeId) (es : List IndexEntry) (d d' : Disk)
      : Type 0 where
    pub holds : Holds C K crypto codec e (remove_entry id es) d'
    pub nodes : d'.nodes ≡ remove_file (node_path id) d.nodes

  after_removal-Deleted :
      (e : Encryptor) (id : NodeId) (es : List IndexEntry) (d : Disk) (r : Result StoreError Disk)
      → Returns
          (Saved C K crypto codec e
            (remove_entry id es)
            (with_nodes d (remove_file (node_path id) d.nodes)))
          r
      → (d' : Disk) × (after_removal C K (with_nodes d (remove_file (node_path id) d.nodes)) r
          ≡ (d', none))
        × Deleted e id es d d'
  after_removal-Deleted e id es d (ok d') h =
      (d', refl, record { holds = h.holds; nodes = h.same.nodes })
  after_removal-Deleted e id es d (err x) h = elim h [ ]

  pub delete_record-Deleted :
      (e : Encryptor) (env : RemoveEnv) (id : NodeId) (es : List IndexEntry) (d : Disk)
      → Saves env.save
      → env.removed ≡ true
      → Holds C K crypto codec e es d
      → (d' : Disk) × (delete_record C K e env id d ≡ (d', none)) × Deleted e id es d d'
  unfolding delete_record
  delete_record-Deleted e env id es d s r h =
      let d1 = with_nodes d (remove_file (node_path id) d.nodes) in
      rw (delete_record, r)
        (after_removal-Deleted e id es d _ (
          remove_from_index-Saved C K crypto codec e env.save id es d1 s
            (Holds-same e es d d1 refl h)))
