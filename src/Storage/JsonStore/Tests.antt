-- ===== src/Storage/JsonStore/Tests.antt =====
-- The theorems of Storage.JsonStore on small disks.
use digital_ghost.Prelude.{◌+◌, ◌≡◌, refl, true, false, [], ◌∷◌, none, some, arith, replicate}
use digital_ghost.Prelude.Result.{ok, err, Returns}
use digital_ghost.Storage.Time.{Time, IsNano, unix_epoch}
use digital_ghost.Storage.Hex.{NodeId, IsNodeId}
use digital_ghost.Storage.Encrypt.{open_record}
use digital_ghost.Storage.Encrypt.Tests.{toy, toy-IsCrypto, enc}
use digital_ghost.Storage.JsonStore.{
  missing, present, Disk, SaveEnv, WriteEnv, written, wal_entry, malformed, wal_lines, no_wal,
  crypt_failed,
}
use digital_ghost.Storage.Encrypt.{too_short}
use digital_ghost.Storage.JsonStore.Index.{load_index}
use digital_ghost.Storage.JsonStore.Index.Laws.{Saves, Holds}
use digital_ghost.Storage.JsonStore.Records.{write_record, read_record, replay_wal}
use digital_ghost.Storage.JsonStore.Records.Crash.{replay_wal-recovers}
use digital_ghost.Storage.JsonStore.Toy.{toy_codec, toy_codec-IsCodec}

abbrev pub node_a : NodeId
node_a = replicate 16 1

abbrev pub node_b : NodeId
node_b = replicate 16 2

pub node_a-IsNodeId : IsNodeId node_a
node_a-IsNodeId = record { length = refl; bytes = ground arith }

pub node_b-IsNodeId : IsNodeId node_b
node_b-IsNodeId = record { length = refl; bytes = ground arith }

abbrev pub empty_disk : Disk
empty_disk = record { nodes = []; index = missing; wal = wal_lines []; plain_index = missing }

abbrev pub good_save : SaveEnv
good_save = record { nonce = some (replicate 12 9); tmp_written = true; renamed = true }

pub good_save-Saves : Saves good_save
good_save-Saves = record {
  bytes = replicate 12 9;
  nonce = refl;
  size = refl;
  tmp_written = refl;
  renamed = refl;
}

abbrev no_save : SaveEnv
no_save = record { nonce = none; tmp_written = false; renamed = false }

abbrev pub good_write : WriteEnv
good_write = record { wal_written = true; node_write = written; save = good_save }

abbrev lost_entry : WriteEnv
lost_entry = record { wal_written = true; node_write = written; save = no_save }

abbrev pub noon : Time
noon = unix_epoch + 5

pub noon-IsNano : IsNano noon
noon-IsNano = record { from = ground arith; until = ground arith }

pub empty_disk-Holds : Holds toy toy_codec toy-IsCrypto toy_codec-IsCodec enc [] empty_disk
unfolding load_index
empty_disk-Holds = record { loads = refl; valid = tt }

replay_wal-recovers_example :
    Returns
      (λ d. read_record toy toy_codec enc node_a d ≡ ok (7 ∷ [], noon))
      (replay_wal toy toy_codec enc
        (λ n. good_save)
        true
        (write_record toy toy_codec enc lost_entry node_a noon (7 ∷ []) empty_disk).0)
replay_wal-recovers_example =
    replay_wal-recovers toy toy_codec toy-IsCrypto toy_codec-IsCodec enc lost_entry (λ n. good_save)
      true node_a noon (7 ∷ []) [] [] empty_disk refl refl refl (λ n. good_save-Saves)
      node_a-IsNodeId noon-IsNano empty_disk-Holds refl refl tt tt

abbrev logged_disk : Disk
logged_disk = record {
  nodes = (replicate 32 1, present (7 ∷ [])) ∷ [];
  index = missing;
  wal = wal_lines (wal_entry node_a 5 ∷ malformed ∷ []);
  plain_index = missing;
}

abbrev corrupt_disk : Disk
corrupt_disk = record {
  nodes = [];
  index = present (1 ∷ 2 ∷ []);
  wal = no_wal;
  plain_index = missing;
}

corrupt_disk_loads : load_index toy toy_codec enc corrupt_disk ≡ err (crypt_failed too_short)
unfolding load_index open_record
corrupt_disk_loads = refl
