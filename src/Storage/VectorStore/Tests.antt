-- ===== src/Storage/VectorStore/Tests.antt =====
-- The theorems of Storage.VectorStore on a store with one node, with a toy codec for nodes.
use digital_ghost.Prelude.{ℕ, ◌≡◌, refl, [], ◌∷◌, some, replicate, lit}
use digital_ghost.Prelude.Result.{ok}
use digital_ghost.Storage.Encrypt.Tests.{toy, toy-IsCrypto, enc}
use digital_ghost.Storage.JsonStore.Toy.{toy_codec, toy_codec-IsCodec}
use digital_ghost.Storage.JsonStore.Tests.{
  node_a, node_a-IsNodeId, empty_disk, empty_disk-Holds, good_save-Saves, good_write, noon,
  noon-IsNano,
}
use digital_ghost.Storage.VectorStore.{MemoryNode, NodeCodec, Store, write, read, stamp}
use digital_ghost.Storage.VectorStore.Laws.{read-write, read-IsStored, IsStored}

abbrev pub node : MemoryNode ℕ
node = record {
  schema_version = 0;
  id = node_a;
  captured_at = noon;
  description = lit "a text editor";
  tags = [];
  process_name = lit "code";
  window_title = lit "main.go";
  browser_url = [];
  embedding = 1 ∷ 2 ∷ [];
  engagement_score = 75;
  view_count = 1;
}

-- The codec of a test with one node.
abbrev pub one_node : NodeCodec ℕ
one_node = record { marshal = λ n. some (7 ∷ []); unmarshal = λ t. some (stamp node) }

abbrev pub empty_store : Store ℕ
empty_store = record { encryptor = enc; disk = empty_disk; emb_cache = [] }

read-write_example :
    read toy toy_codec one_node node_a
      (write toy toy_codec one_node (some (replicate 12 4)) good_write node empty_store).0
    ≡ ok (stamp node)
read-write_example =
    read-write toy toy_codec one_node toy-IsCrypto toy_codec-IsCodec (replicate 12 4) good_write
      node (7 ∷ []) [] empty_store refl good_save-Saves refl node_a-IsNodeId noon-IsNano
      empty_disk-Holds refl refl refl

abbrev pub full_store : Store ℕ
full_store = (write toy toy_codec one_node (some (replicate 12 4)) good_write node empty_store).0

read-IsStored_example :
    IsStored toy toy_codec one_node toy-IsCrypto toy_codec-IsCodec node_a full_store (stamp node)
read-IsStored_example =
    read-IsStored toy toy_codec one_node toy-IsCrypto toy_codec-IsCodec node_a full_store
      (stamp node) read-write_example
