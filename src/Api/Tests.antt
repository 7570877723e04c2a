-- ===== src/Api/Tests.antt =====
-- The theorems of Api at a store with two nodes.
use digital_ghost.Prelude.{
  ℕ, ◌-◌, ◌≤◌, ◌≡◌, refl, ◌⊎◌, Text, false, List, [], ◌∷◌, some, lit, replicate, length, select,
  text_eq,
}
use digital_ghost.Prelude.Result.{ok}
use digital_ghost.Pipeline.Tests.{math}
use digital_ghost.Storage.Time.{Time}
use digital_ghost.Storage.Hex.{hex_encode, hex_decode, parse_node_id}
use digital_ghost.Storage.Encrypt.Tests.{toy}
use digital_ghost.Storage.JsonStore.{StoreError}
use digital_ghost.Coherence.{ScoredNode}
use digital_ghost.Storage.JsonStore.Index.{add_entry}
use digital_ghost.Storage.JsonStore.Records.{sort_by_time, store_entries, list_entries_by_time}
use digital_ghost.Storage.JsonStore.Toy.{toy_codec}
use digital_ghost.Storage.VectorStore.{TimelineEntry, MemoryNode, read_page, timeline}
use digital_ghost.Storage.VectorStore.Tests.{one_node, full_store}
use digital_ghost.Storage.Retention.Tests.{good_remove, later, entries_ab, disk_ab-Holds, two_nodes}
use digital_ghost.Storage.Similarity.{nearest_neighbors}
use digital_ghost.Storage.Similarity.Tests.{whole}
use digital_ghost.Api.Types.{Request, Server, page, json, new_server, replace_from}
use digital_ghost.Api.Search.{SearchEnv}
use digital_ghost.Api.Chat.{handle_chat}
use digital_ghost.Api.Chat.Tiers.{memories, is_high, is_mid, prompt_for, handle_chat-prompt}
use digital_ghost.Api.Deletion.{DeleteEnv}
use digital_ghost.Api.Deletion.Cleared.{Cleared}
use digital_ghost.Api.Timeline.{handle_timeline, limit_of, offset_of}
use digital_ghost.Api.Timeline.Paging.{handle_timeline-bounds}
use digital_ghost.Api.Routing.{ApiEnv, serve}
use digital_ghost.Api.Access.{IsAuthorized, after_deletion, serve-IsAuthorized}

abbrev token : Text
token = lit "a0a1"

abbrev request : Text → Text → Request
request header range = record {
  method = lit "POST";
  path = lit "/api/delete";
  csrf_header = header;
  q = [];
  range = range;
  limit = lit "20";
  offset = [];
}

abbrev delete_env : DeleteEnv
delete_env = record { now = later; midnight = later - 5; removes = λ n. good_remove }

abbrev search_env : SearchEnv ℕ
search_env = record {
  embedded = ok (1 ∷ 2 ∷ []);
  embed_ended = false;
  generated = some (lit "hello");
  generate_ended = false;
}

abbrev env : ApiEnv ℕ
env = record { search = search_env; deletion = delete_env }

abbrev clock : Time → Text
clock t = lit "3:04 PM"

abbrev error_text : StoreError → Text
error_text e = lit "error"

abbrev random : Text
random = replicate 16 160

abbrev ui : Text
ui = lit "token: __CSRF_TOKEN__."

abbrev server : Server ℕ
server = record {
  store = two_nodes;
  model = lit "llava:7b";
  csrf_token = hex_encode random;
  ui_html = replace_from (lit "__CSRF_TOKEN__") (hex_encode random) 0 ui;
}

server_new : new_server (some random) ui two_nodes (lit "llava:7b") ≡ some server
unfolding new_server
server_new = refl

serve-IsAuthorized_example :
    ((serve toy toy_codec one_node math whole clock error_text env
        (request (hex_encode random) (lit "today"))
        server).0
      ≡ server)
    ⊎ (after : Time) × IsAuthorized delete_env
        (request (hex_encode random) (lit "today"))
        (hex_encode random)
        after
      × ((serve toy toy_codec one_node math whole clock error_text env
            (request (hex_encode random) (lit "today"))
            server).0
          ≡ after_deletion toy toy_codec one_node math whole clock error_text delete_env after
              server)
serve-IsAuthorized_example =
    serve-IsAuthorized toy toy_codec one_node math whole clock error_text env
      (request (hex_encode random) (lit "today")) server

abbrev found : List (ScoredNode ℕ × MemoryNode ℕ)
found =
    memories toy toy_codec one_node math clock full_store
      (nearest_neighbors whole full_store.emb_cache (1 ∷ 2 ∷ []) 8)

handle_chat-prompt_example :
    (handle_chat toy toy_codec one_node math clock whole search_env (lit "what?") full_store).prompt
    ≡ prompt_for toy toy_codec one_node math clock
        (lit "what?")
        found
        (select (is_high math) found)
        (select (is_mid math) found)
unfolding lit
handle_chat-prompt_example =
    handle_chat-prompt toy toy_codec one_node math clock whole search_env (lit "what?") full_store
      (1 ∷ 2 ∷ []) refl refl

abbrev shown : List TimelineEntry
shown = read_page toy toy_codec one_node two_nodes (sort_by_time (store_entries entries_ab))

timeline_run :
    handle_timeline toy toy_codec one_node error_text (request [] []) two_nodes
    ≡ json 200 (page shown 2 20 0)
unfolding handle_timeline timeline list_entries_by_time limit_of offset_of lit parse_node_id
    hex_encode hex_decode add_entry text_eq
timeline_run = rw (handle_timeline, timeline, list_entries_by_time, disk_ab-Holds.loads) refl

handle_timeline-bounds_example :
    (1 ≤ 20) × (20 ≤ 200) × (length shown ≤ 20) × (length shown ≤ 2 - 0)
handle_timeline-bounds_example =
    handle_timeline-bounds toy toy_codec one_node error_text (request [] []) two_nodes shown 2 20 0
      timeline_run
