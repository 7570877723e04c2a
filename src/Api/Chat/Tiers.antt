-- ===== src/Api/Chat/Tiers.antt =====
-- Which memories a prompt has in it.
use digital_ghost.Prelude.{
  ℕ, ◌+◌, ◌≡◌, refl, ap, ◌∙◌, inl, inr, Text, Bool, false, List, [], ◌∷◌, ◌++◌, append-nil,
  append_assoc, Option, none, some, arith, map, select, not, ◌&&◌, length, is_empty, ltb,
  if◌then◌else◌, Bool-cases, Option-cases,
}
use digital_ghost.Prelude.Result.{ok}
use digital_ghost.Filter.Engagement.{FloatMath}
use digital_ghost.Coherence.{ScoredNode}
use digital_ghost.Storage.Time.{Time}
use digital_ghost.Storage.Encrypt.{Crypto}
use digital_ghost.Storage.JsonStore.{IndexCodec}
use digital_ghost.Storage.VectorStore.{MemoryNode, NodeCodec, Store}
use digital_ghost.Storage.Similarity.{VectorMath, nearest_neighbors}
use digital_ghost.Api.Types.{QueryResult, query_result}
use digital_ghost.Api.Search.{SearchEnv, node_of}
use digital_ghost.Api.Chat.{
  Collected, memory_line, no_memories, reaches, add_memory, collect, prompt_of, handle_chat,
}
use digital_ghost.Api.Chat.Prompts.{high_prompt, mid_prompt, casual_prompt}

module _ {F : Type 0} (M : FloatMath F) where
  abbrev pub is_near : ℕ → ScoredNode F × MemoryNode F → Bool
  is_near n (x, node) = reaches M x.similarity n

  abbrev pub is_high : ScoredNode F × MemoryNode F → Bool
  is_high x = is_near 65 x

  abbrev pub is_mid : ScoredNode F × MemoryNode F → Bool
  is_mid x = not (is_near 65 x) && is_near 42 x

module _ {F : Type 0} (C : Crypto) (K : IndexCodec) (N : NodeCodec F) (M : FloatMath F)
    (clock : Time → Text) where
  -- The nodes with a similarity of 0.30 or more that can be read.
  abbrev pub memories : Store F → List (ScoredNode F) → List (ScoredNode F × MemoryNode F)
  memories s [] = []
  memories s (n ∷ ns) =
      let rest = memories s ns in
      if reaches M n.similarity 30
      then elim (node_of C K N M s n) [ none ↦ rest | some node ↦ (n, node) ∷ rest ]
      else rest

  -- The lines of memories, numbered on from `k`.
  abbrev pub memory_lines : ℕ → List (ScoredNode F × MemoryNode F) → Text
  memory_lines k [] = []
  memory_lines k ((n, node) ∷ xs) = memory_line clock (k + 1) node ++ memory_lines (k + 1) xs

  abbrev source : ScoredNode F × MemoryNode F → QueryResult F
  source (n, node) = query_result n.node_id n.similarity node

  -- What the loop makes of memories.
  abbrev extend : Collected F → List (ScoredNode F × MemoryNode F) → Collected F
  extend c xs = record {
    sources = c.sources ++ map source xs;
    high = c.high ++ memory_lines c.high_count (select (is_high M) xs);
    mid = c.mid ++ memory_lines c.mid_count (select (is_mid M) xs);
    high_count = c.high_count + length (select (is_high M) xs);
    mid_count = c.mid_count + length (select (is_mid M) xs);
  }

  extend-add_memory :
      (n : ScoredNode F) (node : MemoryNode F) (c : Collected F)
      (xs : List (ScoredNode F × MemoryNode F))
      → extend (add_memory C K N M clock n node c) xs ≡ extend c ((n, node) ∷ xs)
  unfolding add_memory
  extend-add_memory n node c xs =
      let line = λ (k : ℕ). memory_line clock (k + 1) node in
      let joined = append_assoc c.sources (source (n, node) ∷ []) (map source xs) in
      let high =
        append_assoc c.high (line c.high_count)
          (memory_lines (c.high_count + 1) (select (is_high M) xs)) in
      let mid =
        append_assoc c.mid (line c.mid_count)
          (memory_lines (c.mid_count + 1) (select (is_mid M) xs)) in
      elim (Bool-cases (is_near M 65 (n, node))) [
        | inl h ↦ rw h (ground arith)
        | inr h ↦ elim (Bool-cases (is_near M 42 (n, node))) [
          | inl m ↦ rw (h, m) (ground arith)
          | inr m ↦ rw (h, m) (ground arith)
        ]
      ]

  collect-extend :
      (s : Store F) (ns : List (ScoredNode F)) (c : Collected F)
      → collect C K N M clock s ns c ≡ extend c (memories s ns)
  unfolding collect
  collect-extend s [] c = ground (arith, append-nil c.sources, append-nil c.high, append-nil c.mid)
  collect-extend s (n ∷ ns) c = elim (Bool-cases (reaches M n.similarity 30)) [
    | inr h ↦ rw h (collect-extend s ns c)
    | inl h ↦ elim (Option-cases (node_of C K N M s n)) [
      | inl e ↦ rw (h, e) (collect-extend s ns c)
      | inr (node, e) ↦
          rw (h, e)
            (collect-extend s ns (add_memory C K N M clock n node c)
              ∙ extend-add_memory n node c (memories s ns))
    ]
  ]

  -- What is asked of the model: nothing without a memory; else with the memories of a similarity of
  -- 0.65 or more, or without those the ones of 0.42 or more, or without those none.
  abbrev pub prompt_for :
      Text → (memories high mid : List (ScoredNode F × MemoryNode F)) → Option Text
  prompt_for q [] high mid = none
  prompt_for q (x ∷ xs) (h ∷ high) mid = some (high_prompt q (memory_lines 0 (h ∷ high)))
  prompt_for q (x ∷ xs) [] (m ∷ mid) = some (mid_prompt q (memory_lines 0 (m ∷ mid)))
  prompt_for q (x ∷ xs) [] [] = some (casual_prompt q)

  prompt_of-extend :
      (q : Text) (xs : List (ScoredNode F × MemoryNode F))
      → prompt_of C K N M clock q (extend no_memories xs)
        ≡ prompt_for q xs (select (is_high M) xs) (select (is_mid M) xs)
  unfolding prompt_of
  prompt_of-extend q [] = refl
  prompt_of-extend q (x ∷ xs) = by_tier (select (is_high M) (x ∷ xs)) (select (is_mid M) (x ∷ xs))
    where
      by_tier :
          (high mid : List (ScoredNode F × MemoryNode F))
          → some (
              if ltb 0 (0 + length high)
              then high_prompt q (memory_lines 0 high)
              else if ltb 0 (0 + length mid)
              then mid_prompt q (memory_lines 0 mid)
              else casual_prompt q)
            ≡ prompt_for q (x ∷ xs) high mid
      by_tier (h ∷ high) mid = ground arith
      by_tier [] (m ∷ mid) = ground arith
      by_tier [] [] = refl

  -- If the question is not empty and is embedded, the chat looks at the eight nearest nodes, less
  -- those below a similarity of 0.30 and those that cannot be read. If none is left, it sends no
  -- prompt. If some reach 0.65, its prompt lists exactly these, or else exactly those that reach
  -- 0.42, numbered from 1 in the order of the search; if there are neither, its prompt has no
  -- memory in it.
  pub handle_chat-prompt :
      (V : VectorMath F) (env : SearchEnv F) (q : Text) (s : Store F) (e : List F)
      → is_empty q ≡ false
      → env.embedded ≡ ok e
      → let found = memories s (nearest_neighbors V s.emb_cache e 8) in
        (handle_chat C K N M clock V env q s).prompt
        ≡ prompt_for q found (select (is_high M) found) (select (is_mid M) found)
  unfolding handle_chat
  handle_chat-prompt V env q s e asked embedded =
      let found = memories s (nearest_neighbors V s.emb_cache e 8) in
      rw (handle_chat, asked, embedded)
        (ap (prompt_of C K N M clock q)
            (collect-extend s (nearest_neighbors V s.emb_cache e 8) no_memories)
          ∙ prompt_of-extend q found)
