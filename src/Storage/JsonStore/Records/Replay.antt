-- ===== src/Storage/JsonStore/Records/Replay.antt =====
-- What the replay of the write-ahead log gives back after a crash.
use digital_ghost.Prelude.{
  ℕ, suc, ◌<◌, ◌^◌, ◌≡◌, refl, ◌∙◌, inl, inr, Text, false, List, [], ◌∷◌, any, All, Bool-cases,
  Option-cases, if◌then◌else◌,
}
use digital_ghost.Prelude.Result.{Result-cases}
use digital_ghost.Storage.Time.{Time, IsNano, from_unix_nano-IsNano}
use digital_ghost.Storage.Hex.{NodeId, IsNodeId}
use digital_ghost.Storage.Encrypt.{Crypto, IsCrypto, Encryptor, seal}
use digital_ghost.Storage.JsonStore.{
  IndexEntry, FileState, Disk, IndexCodec, SaveEnv, WalLine, wal_entry, malformed, node_path,
  get_file, index_sentinel_id, index_sentinel_time,
}
use digital_ghost.Storage.JsonStore.Index.{
  has_id, add_entry, entries_or_nil, load_index, save_index, append_index,
}
use digital_ghost.Storage.JsonStore.Index.Laws.{IsCodec, Saves, Holds, Saved, append_index-Saved}
use digital_ghost.Storage.JsonStore.Records.{
  keep, is_missing, parse_wal, replay_entry, replay_entries,
}
use digital_ghost.Storage.JsonStore.Records.Access.{keep-Saved}

-- The lines that the program writes: a node ID and the 64 bits of a UnixNano.
abbrev pub IsLine : WalLine → Type 0
IsLine (wal_entry id nanos) = IsNodeId id × (nanos < 2 ^ 64)
IsLine malformed = Unit

-- The index after one entry of the log, and after all of them.
unfoldable pub recover :
    List (Text × FileState) → List IndexEntry → NodeId → Time → List IndexEntry → List IndexEntry
recover nodes existing id ts es =
    if any (has_id id) existing
    then es
    else if is_missing (get_file (node_path id) nodes)
    then es
    else add_entry id ts es

unfoldable pub recover_all :
    List (Text × FileState)
    → List IndexEntry
    → List (NodeId × Time)
    → List IndexEntry
    → List IndexEntry
recover_all nodes existing [] es = es
recover_all nodes existing ((id, ts) ∷ ws) es =
    recover_all nodes existing ws (recover nodes existing id ts es)

abbrev pub IsLogged : NodeId × Time → Type 0
IsLogged (id, ts) = IsNodeId id × IsNano ts

pub parse_wal-IsLogged : (ls : List WalLine) → All IsLine ls → All IsLogged (parse_wal ls)
parse_wal-IsLogged [] h = tt
parse_wal-IsLogged (wal_entry id nanos ∷ ls) ((hid, hn), h) =
    ((hid, from_unix_nano-IsNano nanos hn), parse_wal-IsLogged ls h)
parse_wal-IsLogged (malformed ∷ ls) (u, h) = parse_wal-IsLogged ls h

module _ (C : Crypto) (K : IndexCodec) (crypto : IsCrypto C) (codec : IsCodec K) where
  replay_entry-Saved :
      (e : Encryptor) (env : SaveEnv) (existing : List IndexEntry) (id : NodeId) (ts : Time)
      (es : List IndexEntry) (d : Disk)
      → Saves env
      → IsNodeId id
      → IsNano ts
      → Holds C K crypto codec e es d
      → Saved C K crypto codec e
          (recover d.nodes existing id ts es)
          d
          (replay_entry C K e env existing id ts d)
  unfolding replay_entry recover
  replay_entry-Saved e env existing id ts es d s hid hts h =
      let unchanged : Saved C K crypto codec e es d d = record {
        holds = h;
        same = record { nodes = refl; wal = refl; plain_index = refl };
      } in
      elim (Bool-cases (any (has_id id) existing)) [
        | inl q ↦ rw q unchanged
        | inr q ↦ elim (Bool-cases (is_missing (get_file (node_path id) d.nodes))) [
          | inl p ↦ rw (q, p) unchanged
          | inr p ↦
              rw (q, p)
                (keep-Saved C K crypto codec e (add_entry id ts es) d _
                  (append_index-Saved C K crypto codec e env id ts es d s hid hts h))
        ]
      ]

  pub replay_entries-Saved :
      (e : Encryptor) (envs : ℕ → SaveEnv) (n : ℕ) (existing : List IndexEntry)
      (ws : List (NodeId × Time)) (es : List IndexEntry) (d : Disk)
      → ((k : ℕ) → Saves (envs k))
      → All IsLogged ws
      → Holds C K crypto codec e es d
      → Saved C K crypto codec e
          (recover_all d.nodes existing ws es)
          d
          (replay_entries C K e envs n existing ws d)
  unfolding replay_entries recover_all replay_entry
  replay_entries-Saved e envs n existing [] es d s hws h = record {
    holds = h;
    same = record { nodes = refl; wal = refl; plain_index = refl };
  }
  replay_entries-Saved e envs n existing ((id, ts) ∷ ws) es d s ((hid, hts), hws) h =
      let first = replay_entry-Saved e (envs n) existing id ts es d (s n) hid hts h in
      let d1 = replay_entry C K e (envs n) existing id ts d in
      let rest =
        replay_entries-Saved e envs (suc n) existing ws (recover d.nodes existing id ts es) d1 s hws
          first.holds in
      record {
        holds = rw first.same.nodes at rest.holds;
        same = record {
          nodes = rest.same.nodes ∙ first.same.nodes;
          wal = rest.same.wal ∙ first.same.wal;
          plain_index = rest.same.plain_index ∙ first.same.plain_index;
        };
      }

  save_index_fails :
      (e : Encryptor) (env : SaveEnv) (es : List IndexEntry) (d : Disk)
      → env.tmp_written ≡ false
      → keep d (save_index C K e env es d) ≡ d
  unfolding save_index
  save_index_fails e env es d h = elim (Option-cases (K.marshal es)) [
    | inl q ↦ rw (save_index, q) refl
    | inr (t, q) ↦
        elim (Result-cases (seal C e index_sentinel_id index_sentinel_time env.nonce t)) [
          | inl (r, p) ↦ rw (save_index, q, p, h) refl
          | inr (x, p) ↦ rw (save_index, q, p) refl
        ]
  ]

  -- An update of the index whose temporary file is not written changes nothing.
  pub append_index_fails :
      (e : Encryptor) (env : SaveEnv) (id : NodeId) (ts : Time) (d : Disk)
      → env.tmp_written ≡ false
      → keep d (append_index C K e env id ts d) ≡ d
  unfolding append_index
  append_index_fails e env id ts d h =
      elim (Bool-cases (any (has_id id) (entries_or_nil (load_index C K e d)))) [
        | inl q ↦ rw (append_index, q) refl
        | inr q ↦ rw (append_index, q) (save_index_fails e env _ d h)
      ]
