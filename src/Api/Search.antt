-- ===== src/Api/Search.antt =====
-- handleQuery of internal/api/server.go. What the model and the context of the request answer is an
-- argument.
use digital_ghost.Prelude.{
  Text, Bool, List, [], ◌∷◌, ◌++◌, Option, none, some, is_empty, lit, if◌then◌else◌,
}
use digital_ghost.Prelude.Result.{Result, ok, err}
use digital_ghost.Filter.Engagement.{FloatMath}
use digital_ghost.Coherence.{ScoredNode}
use digital_ghost.Storage.Hex.{parse_node_id}
use digital_ghost.Storage.Encrypt.{Crypto}
use digital_ghost.Storage.JsonStore.{IndexCodec}
use digital_ghost.Storage.VectorStore.{MemoryNode, NodeCodec, Store, read}
use digital_ghost.Storage.Similarity.{VectorMath, nearest_neighbors}
use digital_ghost.Api.Types.{
  QueryResult, query_result, error_message, results, Response, no_reply, json,
}

-- Embed of the query, whose error has a text; whether the context of the request is over after it
-- failed; Generate, and whether the context is over after that failed.
pub record SearchEnv (F : Type 0) : Type 0 where
  pub embedded : Result Text (List F)
  pub embed_ended : Bool
  pub generated : Option Text
  pub generate_ended : Bool

abbrev pub missing_q : {F : Type 0} → Response F
missing_q = json 400 (error_message (lit "missing query parameter q"))

-- The answer where the query could not be embedded.
abbrev pub embed_failed : {F : Type 0} → SearchEnv F → Text → Response F
embed_failed env why =
    if env.embed_ended then no_reply else json 500 (error_message (lit "embedding failed: " ++ why))

module _ {F : Type 0} (C : Crypto) (K : IndexCodec) (N : NodeCodec F) (M : FloatMath F) where
  -- The node that a result of the search names, if it can be read.
  unfoldable pub node_of : Store F → ScoredNode F → Option (MemoryNode F)
  node_of s n = elim (parse_node_id n.node_id) [
    | none ↦ none
    | some id ↦ elim (read C K N id s) [ err e ↦ none | ok node ↦ some node ]
  ]

  -- The loop over the nearest nodes.
  unfoldable pub search_results : Store F → List (ScoredNode F) → List (QueryResult F)
  unfolding node_of
  search_results s [] = []
  search_results s (n ∷ ns) =
      let rest = search_results s ns in
      if M.compare.lt n.similarity (M.hundredths 30) then rest else elim (node_of s n) [
        | none ↦ rest
        | some node ↦ query_result n.node_id n.similarity node ∷ rest
      ]

  unfoldable pub handle_query : VectorMath F → SearchEnv F → Text → Store F → Response F
  unfolding search_results nearest_neighbors
  handle_query V env q s = if is_empty q then missing_q else elim env.embedded [
    | err why ↦ embed_failed env why
    | ok e ↦ json 200 (results (search_results s (nearest_neighbors V s.emb_cache e 8)) q)
  ]
