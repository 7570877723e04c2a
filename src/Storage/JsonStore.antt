-- ===== src/Storage/JsonStore.antt =====
-- internal/storage/jsonstore.go: the directory of encrypted node files with its encrypted index and
-- its write-ahead log. The disk is a value that the operations pass on, and what the file system
-- does to each write is an argument. encoding/json is an argument.
pub mod Index
pub mod Records
pub mod Toy
pub mod Tests
use digital_ghost.Prelude.{
  ℕ, Text, Bool, true, false, List, [], ◌∷◌, ◌++◌, Option, none, some, take, not, any, find?,
  select, is_some, text_eq, if◌then◌else◌, map, replicate, ◌||◌, ◌&&◌, length,
}
use digital_ghost.Prelude.Result.{Result, ok, err, ◌>>=◌}
use digital_ghost.Storage.Time.{Time, unix_epoch, unix_nano, from_unix_nano, is_zero, is_before}
use digital_ghost.Storage.Hex.{NodeId, hex_encode, parse_node_id}
use digital_ghost.Storage.Encrypt.{
  Crypto, Encryptor, EncryptedRecord, CryptError, seal, open_record,
}

pub record IndexEntry : Type 0 where
  pub id : Text
  pub timestamp : Time

-- What a path of the store holds.
pub data FileState : Type 0 where
  missing unreadable : FileState
  present : Text → FileState

-- A line of wal.log: a node and a UnixNano, or a line that does not parse.
pub data WalLine : Type 0 where
  wal_entry : NodeId → ℕ → WalLine
  malformed : WalLine

-- wal.log is missing, cannot be read, or has lines.
pub data WalState : Type 0 where
  no_wal unreadable_wal : WalState
  wal_lines : List WalLine → WalState

-- The directory `memories`. A node file stands under the hexadecimal node ID in front of its `.enc`.
pub record Disk : Type 0 where
  pub nodes : List (Text × FileState)
  pub index : FileState
  pub wal : WalState
  pub plain_index : FileState

pub data StoreError : Type 0 where
  not_found read_failed write_failed remove_failed parse_failed marshal_failed : StoreError
  crypt_failed : CryptError → StoreError

-- json.Marshal and json.Unmarshal of the index.
pub record IndexCodec : Type 0 where
  pub marshal : List IndexEntry → Option Text
  pub unmarshal : Text → Option (List IndexEntry)

-- What the system does in one save of the index: the random nonce, and whether the temporary file is
-- written and renamed.
pub record SaveEnv : Type 0 where
  pub nonce : Option Text
  pub tmp_written : Bool
  pub renamed : Bool

-- What os.WriteFile does to a node file.
pub data FileWrite : Type 0 where
  written not_opened : FileWrite
  cut_short : ℕ → FileWrite

pub record WriteEnv : Type 0 where
  pub wal_written : Bool
  pub node_write : FileWrite
  pub save : SaveEnv

pub record RemoveEnv : Type 0 where
  pub removed : Bool
  pub save : SaveEnv

-- "DG-IDX" and ten bytes 0xff
abbrev pub index_sentinel_id : NodeId
index_sentinel_id = 68 ∷ 71 ∷ 45 ∷ 73 ∷ 68 ∷ 88 ∷ replicate 10 255

abbrev pub index_sentinel_time : Time
index_sentinel_time = unix_epoch

abbrev pub node_path : NodeId → Text
node_path id = hex_encode id

unfoldable pub get_file : Text → List (Text × FileState) → FileState
get_file path [] = missing
get_file path ((p, f) ∷ fs) = let rest = get_file path fs in if text_eq p path then f else rest

unfoldable pub remove_file : Text → List (Text × FileState) → List (Text × FileState)
remove_file path [] = []
remove_file path ((p, f) ∷ fs) =
    let rest = remove_file path fs in if text_eq p path then rest else (p, f) ∷ rest

abbrev pub set_file : Text → FileState → List (Text × FileState) → List (Text × FileState)
set_file path f fs = (path, f) ∷ fs

abbrev pub crypt : {A : Type 0} → Result CryptError A → Result StoreError A
crypt (ok a) = ok a
crypt (err e) = err (crypt_failed e)

abbrev pub with_index : Disk → FileState → Disk
with_index d f = record { nodes = d.nodes; index = f; wal = d.wal; plain_index = d.plain_index }

abbrev pub with_nodes : Disk → List (Text × FileState) → Disk
with_nodes d fs = record { nodes = fs; index = d.index; wal = d.wal; plain_index = d.plain_index }

abbrev pub with_wal : Disk → WalState → Disk
with_wal d w = record { nodes = d.nodes; index = d.index; wal = w; plain_index = d.plain_index }

abbrev pub with_plain_index : Disk → FileState → Disk
with_plain_index d f = record { nodes = d.nodes; index = d.index; wal = d.wal; plain_index = f }
