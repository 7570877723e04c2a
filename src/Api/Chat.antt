-- ===== src/Api/Chat.antt =====
-- handleChat of internal/api/server.go: the memories that are near a question, and the prompt that
-- is made of them.
pub mod Prompts
pub mod Numbers
pub mod Tiers
use digital_ghost.Prelude.{
  ℕ, zero, suc, ◌+◌, ◌/◌, ◌%◌, ltb, Text, Bool, List, [], ◌∷◌, ◌++◌, Option, none, some, is_empty,
  lit, if◌then◌else◌,
}
use digital_ghost.Prelude.Result.{Result, ok, err}
use digital_ghost.Filter.Engagement.{FloatMath}
use digital_ghost.Coherence.{ScoredNode}
use digital_ghost.Storage.Time.{Time}
use digital_ghost.Storage.Encrypt.{Crypto}
use digital_ghost.Storage.JsonStore.{IndexCodec}
use digital_ghost.Storage.VectorStore.{MemoryNode, NodeCodec, Store}
use digital_ghost.Storage.Similarity.{VectorMath, nearest_neighbors}
use digital_ghost.Api.Types.{QueryResult, query_result, Body, chat, Response, no_reply, json}
use digital_ghost.Api.Search.{SearchEnv, node_of, missing_q, embed_failed}
use digital_ghost.Api.Chat.Prompts.{decimal, high_prompt, mid_prompt, casual_prompt, nothing_stored}

-- What the loop over the nearest nodes has collected: the sources, the contexts of high and of
-- moderate confidence, and how many memories are in each.
pub record Collected (F : Type 0) : Type 0 where
  pub sources : List (QueryResult F)
  pub high : Text
  pub mid : Text
  pub high_count : ℕ
  pub mid_count : ℕ

-- The prompt that was sent to the model, if one was, and the response.
pub record ChatOutcome (F : Type 0) : Type 0 where
  pub prompt : Option Text
  pub response : Response F

-- fmt.Sprintf("Memory %d (%s in %s): %s\n\n", …), where `clock` is Format("3:04 PM")
unfoldable pub memory_line : {F : Type 0} → (clock : Time → Text) → ℕ → MemoryNode F → Text
unfolding decimal lit
memory_line clock n node =
    lit "Memory "
    ++ (decimal n
        ++ (lit " ("
            ++ (clock node.captured_at
                ++ (lit " in "
                    ++ (node.process_name ++ (lit "): " ++ (node.description ++ lit "\n\n")))))))

-- similarity ≥ n / 100
abbrev pub reaches : {F : Type 0} → FloatMath F → F → ℕ → Bool
reaches M similarity n = M.compare.le (M.hundredths n) similarity

abbrev pub no_memories : {F : Type 0} → Collected F
no_memories = record { sources = []; high = []; mid = []; high_count = 0; mid_count = 0 }

module _ {F : Type 0} (C : Crypto) (K : IndexCodec) (N : NodeCodec F) (M : FloatMath F)
    (clock : Time → Text) where
  -- The switch over the tiers, for a node that is a source.
  unfoldable pub add_memory : ScoredNode F → MemoryNode F → Collected F → Collected F
  add_memory n node c =
      if reaches M n.similarity 65
      then record {
        sources = c.sources ++ (query_result n.node_id n.similarity node ∷ []);
        high = c.high ++ memory_line clock (c.high_count + 1) node;
        mid = c.mid;
        high_count = c.high_count + 1;
        mid_count = c.mid_count;
      }
      else if reaches M n.similarity 42
      then record {
        sources = c.sources ++ (query_result n.node_id n.similarity node ∷ []);
        high = c.high;
        mid = c.mid ++ memory_line clock (c.mid_count + 1) node;
        high_count = c.high_count;
        mid_count = c.mid_count + 1;
      }
      else record {
        sources = c.sources ++ (query_result n.node_id n.similarity node ∷ []);
        high = c.high;
        mid = c.mid;
        high_count = c.high_count;
        mid_count = c.mid_count;
      }

  unfoldable pub collect : Store F → List (ScoredNode F) → Collected F → Collected F
  unfolding node_of add_memory
  collect s [] c = c
  collect s (n ∷ ns) c = collect s ns (
      if reaches M n.similarity 30
      then elim (node_of C K N M s n) [ none ↦ c | some node ↦ add_memory n node c ]
      else c)

  -- The prompt, `none` where nothing is asked of the model.
  unfoldable pub prompt_of : Text → Collected F → Option Text
  prompt_of q c = elim c.sources [
    | [] ↦ none
    | x ∷ xs ↦ some (
        if ltb 0 c.high_count
        then high_prompt q c.high
        else if ltb 0 c.mid_count
        then mid_prompt q c.mid
        else casual_prompt q)
  ]

  -- The response once the prompt is known: a failed generation gives an empty answer.
  abbrev pub reply : SearchEnv F → Text → Collected F → Option Text → Response F
  reply env q c none = json 200 (chat nothing_stored c.sources q)
  reply env q c (some p) = elim env.generated [
    | some a ↦ json 200 (chat a c.sources q)
    | none ↦ if env.generate_ended then no_reply else json 200 (chat [] c.sources q)
  ]

  abbrev pub chat_outcome : SearchEnv F → Text → Collected F → ChatOutcome F
  chat_outcome env q c = record { prompt = prompt_of q c; response = reply env q c (prompt_of q c) }

  unfoldable pub handle_chat : VectorMath F → SearchEnv F → Text → Store F → ChatOutcome F
  unfolding collect prompt_of nearest_neighbors
  handle_chat V env q s =
      if is_empty q then record { prompt = none; response = missing_q } else elim env.embedded [
        | err why ↦ record { prompt = none; response = embed_failed env why }
        | ok e ↦ chat_outcome env q (collect s (nearest_neighbors V s.emb_cache e 8) no_memories)
      ]
