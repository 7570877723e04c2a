-- ===== src/Storage/Retention/Tests.antt =====
-- The theorems of Storage.Retention on a store with an old and a new node.
use digital_ghost.Prelude.{
  none, not, select, ◌≡◌, ℕ, ◌+◌, ◌*◌, refl, true, false, List, [], ◌∷◌, arith, text_eq, replicate,
}
use digital_ghost.Storage.Hex.{hex_encode}
use digital_ghost.Storage.Time.{Time, IsNano, unix_epoch}
use digital_ghost.Storage.Encrypt.Tests.{toy, toy-IsCrypto, enc}
use digital_ghost.Storage.JsonStore.{IndexEntry, Disk, RemoveEnv}
use digital_ghost.Storage.JsonStore.Index.{add_entry}
use digital_ghost.Storage.JsonStore.Index.Laws.{Holds}
use digital_ghost.Storage.JsonStore.Records.{write_record}
use digital_ghost.Storage.JsonStore.Records.Access.{write_record-Written}
use digital_ghost.Storage.JsonStore.Toy.{toy_codec, toy_codec-IsCodec}
use digital_ghost.Storage.JsonStore.Tests.{
  node_a, node_a-IsNodeId, node_b, node_b-IsNodeId, empty_disk, empty_disk-Holds, good_save,
  good_save-Saves, good_write, noon, noon-IsNano,
}
use digital_ghost.Storage.VectorStore.{Store}
use digital_ghost.Storage.Retention.{sweep, run_scheduled, day, Machine, WipeEnv}
use digital_ghost.Storage.Retention.Overwrite.{DeleteEnv, secure_delete_file}
use digital_ghost.Storage.Retention.Overwrite.Laws.{secure_delete_file-forgets}
use digital_ghost.Storage.Retention.Schedule.{is_swept, run_scheduled-Holds}
use digital_ghost.Storage.Keychain.{entry}
use digital_ghost.Storage.Retention.Sweep.{IsUnique, Swept, sweep-Swept}

abbrev pub good_remove : RemoveEnv
good_remove = record { removed = true; save = good_save }

abbrev pub later : Time
later = unix_epoch + 100 * day

later-IsNano : IsNano later
later-IsNano = record { from = ground arith; until = ground arith }

abbrev pub disk_a : Disk
disk_a = (write_record toy toy_codec enc good_write node_a noon (7 ∷ []) empty_disk).0

abbrev pub disk_ab : Disk
disk_ab = (write_record toy toy_codec enc good_write node_b later (8 ∷ []) disk_a).0

abbrev pub entries_a : List IndexEntry
entries_a = add_entry node_a noon []

abbrev pub entries_ab : List IndexEntry
entries_ab = add_entry node_b later entries_a

pub disk_ab-Holds : Holds toy toy_codec toy-IsCrypto toy_codec-IsCodec enc entries_ab disk_ab
disk_ab-Holds =
    let a =
      write_record-Written toy toy_codec toy-IsCrypto toy_codec-IsCodec enc good_write node_a noon
        (7 ∷ []) [] empty_disk good_save-Saves refl node_a-IsNodeId noon-IsNano empty_disk-Holds in
    let b =
      write_record-Written toy toy_codec toy-IsCrypto toy_codec-IsCodec enc good_write node_b later
        (8 ∷ []) entries_a disk_a good_save-Saves refl node_b-IsNodeId later-IsNano a.holds in
    b.holds

pub entries_ab-IsUnique : IsUnique entries_ab
unfolding add_entry text_eq hex_encode
entries_ab-IsUnique = (refl, (refl, tt))

abbrev pub two_nodes : Store ℕ
two_nodes = record { encryptor = enc; disk = disk_ab; emb_cache = [] }

sweep-Swept_example :
    Swept toy toy_codec toy-IsCrypto toy_codec-IsCodec later 30 entries_ab two_nodes
      (sweep toy toy_codec (λ n. good_remove) later 30 two_nodes)
sweep-Swept_example =
    sweep-Swept toy toy_codec toy-IsCrypto toy_codec-IsCodec (λ n. good_remove) later 30 entries_ab
      two_nodes (λ n. record { removed = refl; saves = good_save-Saves }) disk_ab-Holds
      entries_ab-IsUnique

-- A sweep at the start, and one a day later.
abbrev rounds : List (Time × (ℕ → RemoveEnv))
rounds = (later + 86400000000000, λ n. good_remove) ∷ []

run_scheduled-Holds_example :
    Holds toy toy_codec toy-IsCrypto toy_codec-IsCodec two_nodes.encryptor
      (select (λ e. not (is_swept ((later, λ n. good_remove) ∷ rounds) 30 e)) entries_ab)
      (run_scheduled toy toy_codec (later, λ n. good_remove) rounds 30 two_nodes).disk
run_scheduled-Holds_example =
    run_scheduled-Holds toy toy_codec toy-IsCrypto toy_codec-IsCodec (later, λ n. good_remove)
      rounds 30 entries_ab two_nodes
      (
        (λ n. record { removed = refl; saves = good_save-Saves }),
        ((λ n. record { removed = refl; saves = good_save-Saves }), tt),
      )
      disk_ab-Holds entries_ab-IsUnique

abbrev machine : Machine ℕ
machine = record {
  store = two_nodes;
  dir = (1 ∷ []) ∷ (2 ∷ []) ∷ [];
  keychain = entry (replicate 64 b'a');
  key_manager = record { key = replicate 32 7 };
}

abbrev wipe_env : WipeEnv
wipe_env = record {
  readable = true;
  secure = λ name. false;
  removable = λ name. true;
  consent_removed = true;
  key_deleted = true;
}

abbrev delete_env : DeleteEnv
delete_env = record {
  opened = true;
  write_works = λ pass offset. true;
  urandom = none;
  removed = true;
}

secure_delete_file-forgets_example :
    secure_delete_file delete_env (b'k' ∷ b'e' ∷ b'y' ∷ [])
    ≡ secure_delete_file delete_env (b'p' ∷ b'i' ∷ b'n' ∷ [])
secure_delete_file-forgets_example =
    secure_delete_file-forgets delete_env (b'k' ∷ b'e' ∷ b'y' ∷ []) (b'p' ∷ b'i' ∷ b'n' ∷ []) refl
      (λ o. refl) (λ o. refl) refl
