-- ===== src/Api/Types.antt =====
-- The requests, the responses and the server of internal/api/server.go. `F` is the type of the floats;
-- a query parameter or a header that is not there is the empty text, as url.Values and http.Header
-- have it.
use digital_ghost.Prelude.{
  ℕ, zero, suc, ◌-◌, Text, List, [], ◌∷◌, ◌++◌, Option, none, some, has_prefix, length, lit,
  if◌then◌else◌,
}
use digital_ghost.Storage.Time.{Time}
use digital_ghost.Storage.Hex.{hex_encode}
use digital_ghost.Storage.VectorStore.{MemoryNode, Store, TimelineEntry}

pub record Request : Type 0 where
  pub method : Text
  pub path : Text
  pub csrf_header : Text
  pub q : Text
  pub range : Text
  pub limit : Text
  pub offset : Text

pub record QueryResult (F : Type 0) : Type 0 where
  pub id : Text
  pub captured_at : Time
  pub description : Text
  pub app : Text
  pub window_title : Text
  pub browser_url : Text
  pub tags : List Text
  pub similarity : F

-- What is encoded as JSON.
pub data Body (F : Type 0) : Type 0 where
  error_message : Text → Body F
  status : (nodes : ℕ) → (model : Text) → (last_capture : Time) → Body F
  results : List (QueryResult F) → (query : Text) → Body F
  chat : (answer : Text) → (sources : List (QueryResult F)) → (query : Text) → Body F
  deleted : ℕ → (range : Text) → Body F
  page : List TimelineEntry → (total limit offset : ℕ) → Body F

pub data Response (F : Type 0) : Type 0 where
  no_reply not_found : Response F
  html : Text → Response F
  json : (code : ℕ) → Body F → Response F

pub record Server (F : Type 0) : Type 0 where
  pub store : Store F
  pub model : Text
  pub csrf_token : Text
  pub ui_html : Text

-- bytes.ReplaceAll, with `k` bytes of an occurrence still to skip
unfoldable pub replace_from : (old new : Text) → ℕ → Text → Text
replace_from old new k [] = []
replace_from old new (suc k) (c ∷ s) = replace_from old new k s
replace_from old new zero (c ∷ s) =
    let replaced = new ++ replace_from old new (length old - 1) s in
    let kept = c ∷ replace_from old new zero s in if has_prefix (c ∷ s) old then replaced else kept

-- New. `random` are the 16 bytes of the token, `none` where the system has none.
unfoldable pub new_server :
    {F : Type 0} → (random : Option Text) → (ui : Text) → Store F → Text → Option (Server F)
unfolding replace_from
new_server random ui store model = elim random [
  | none ↦ none
  | some bytes ↦ some (record {
    store = store;
    model = model;
    csrf_token = hex_encode bytes;
    ui_html = replace_from (lit "__CSRF_TOKEN__") (hex_encode bytes) 0 ui;
  })
]

abbrev pub query_result : {F : Type 0} → Text → F → MemoryNode F → QueryResult F
query_result id similarity n = record {
  id = id;
  captured_at = n.captured_at;
  description = n.description;
  app = n.process_name;
  window_title = n.window_title;
  browser_url = n.browser_url;
  tags = n.tags;
  similarity = similarity;
}

abbrev pub with_store : {F : Type 0} → Server F → Store F → Server F
with_store s store = record {
  store = store;
  model = s.model;
  csrf_token = s.csrf_token;
  ui_html = s.ui_html;
}
