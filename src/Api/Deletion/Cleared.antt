-- ===== src/Api/Deletion/Cleared.antt =====
-- What a deletion by the API leaves on the disk.
use digital_ghost.Prelude.{
  ◌+◌, ◌≡◌, Text, Bool, List, not, text_eq, any, select, length, if◌then◌else◌,
}
use digital_ghost.Storage.Time.{Time}
use digital_ghost.Storage.Encrypt.{Crypto, IsCrypto}
use digital_ghost.Storage.JsonStore.{IndexEntry, missing, IndexCodec, get_file, node_path}
use digital_ghost.Storage.JsonStore.Index.Laws.{IsCodec, Holds}
use digital_ghost.Storage.JsonStore.Records.{collect_ids, in_range}
use digital_ghost.Storage.VectorStore.{Store}
use digital_ghost.Api.Types.{deleted, Response, json}
use digital_ghost.Api.Deletion.{DeleteEnv, second}

-- The index entries that a deletion from `after` on takes out.
abbrev pub is_deleted : DeleteEnv → Time → IndexEntry → Bool
is_deleted env after e = in_range after (env.now + second) e

module _ {F : Type 0} (C : Crypto) (K : IndexCodec) (crypto : IsCrypto C) (codec : IsCodec K) where
  pub record Cleared (env : DeleteEnv) (after : Time) (range : Text) (es : List IndexEntry)
      (s : Store F) (out : Store F × Response F) : Type 0 where
    pub response : out.1 ≡ json 200 (deleted (length (collect_ids (is_deleted env after) es)) range)
    pub holds :
        Holds C K crypto codec s.encryptor
          (select (λ e. not (is_deleted env after e)) es)
          out.0.disk
    pub files :
        (p : Text)
        → get_file p out.0.disk.nodes ≡ (
            if any (λ id. text_eq (node_path id) p) (collect_ids (is_deleted env after) es)
            then missing
            else get_file p s.disk.nodes)
