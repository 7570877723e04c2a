-- ===== src/Pipeline.antt =====
-- cmd/digitalghost/main.go: the inference loop, which takes frames from the queue, decides which of
-- them the model sees, and stores what is worth it. `F` is the type of the floats. What the governor, the
-- model and the disk answer in a round are arguments.
pub mod Ids
pub mod Nodes
pub mod Gates
pub mod Backoff
pub mod Tests
use digital_ghost.Prelude.{
  ℕ, suc, zero, ◌+◌, ◌-◌, ◌*◌, ◌/◌, ◌%◌, ◌^◌, ltb, ℤ, pos, Text, Bool, true, false, List, [], ◌∷◌,
  ◌++◌, Option, none, some, not, if◌then◌else◌, take, drop,
}
use digital_ghost.Storage.Time.{Time}
use digital_ghost.Storage.Encrypt.{Crypto}
use digital_ghost.Storage.JsonStore.{IndexCodec, StoreError, WriteEnv}
use digital_ghost.Storage.VectorStore.{MemoryNode, NodeCodec, Store, write}
use digital_ghost.Config.{Config, Floats}
use digital_ghost.Filter.Blocklist.{WindowContext}
use digital_ghost.Filter.Classifier.{
  ContentClass, unknown, work_document, work_code, work_research, communication, system_ui,
  entertainment, social, classify,
}
use digital_ghost.Filter.Engagement.{FloatMath, EngagementSignals, engagement_score}
use digital_ghost.Inference.Answer.{InferenceResult}
use digital_ghost.Coherence.{ScoredNode, CoherenceConfig, CoherenceScore, check}

pub record Frame (F : Type 0) : Type 0 where
  pub captured_at : Time
  pub window_ctx : WindowContext
  pub dwell_seconds : F
  pub seconds_since_input : F

-- What Acquire returns: a token, the error of a context that has ended, or another error.
pub data Token : Type 0 where
  acquired context_ended other_error : Token

-- What a round meets: what Acquire returns, what the model and the embedding answer, what
-- the vector store answers to the query, the 16 random bytes of the ID, and the write.
pub record RoundEnv (F : Type 0) : Type 0 where
  pub token : Token
  pub inferred : Option InferenceResult
  -- stopCh is closed during the backoff
  pub stopped : Bool
  pub embedded : Option (List F)
  pub neighbors : Option (List (ScoredNode F))
  pub random_id : Option Text
  pub nonce : Option Text
  pub write_env : WriteEnv

-- The state of the loop: the failures in a row, whether the last answer of the model had the bucket drained,
-- and the store.
pub record Loop (F : Type 0) : Type 0 where
  pub consecutive_fails : ℕ
  pub drained : Bool
  pub store : Store F

pub data Outcome : Type 0 where
  short_dwell low_class : Outcome
  acquire_failed not_acquired : Outcome
  backed_off stopped_in_backoff : Outcome
  low_engagement isolated no_id : Outcome
  stored : Option StoreError → Outcome

-- The loop returns after the round.
abbrev pub ends : Outcome → Bool
ends acquire_failed = true
ends stopped_in_backoff = true
ends not_acquired = false
ends short_dwell = false
ends low_class = false
ends backed_off = false
ends low_engagement = false
ends isolated = false
ends no_id = false
ends (stored e) = false

abbrev pub is_low_class : ContentClass → Bool
is_low_class entertainment = true
is_low_class system_ui = true
is_low_class unknown = false
is_low_class work_document = false
is_low_class work_code = false
is_low_class work_research = false
is_low_class communication = false
is_low_class social = false

-- time.Duration(1<<n) * time.Second in an int64, as its 64-bit pattern; a negative one is above 2^63.
abbrev pub backoff_bits : ℕ → ℕ
backoff_bits n = 2 ^ n % 2 ^ 64 * 1000000000 % 2 ^ 64

-- The nanoseconds that time.After waits: none for a duration that is not positive.
unfoldable pub backoff : ℕ → ℕ
backoff n =
    if ltb (backoff_bits n) (2 ^ 63)
    then if ltb 60000000000 (backoff_bits n) then 60000000000 else backoff_bits n
    else 0

-- `s[n] = s[n] % keep + bits`
abbrev pub set_byte : ℕ → ℕ → ℕ → Text → Text
set_byte n keep bits [] = []
set_byte zero keep bits (b ∷ s) = (b % keep + bits) ∷ s
set_byte (suc n) keep bits (b ∷ s) = b ∷ set_byte n keep bits s

-- The version and the variant of a UUID: (id[6] & 0x0f) | 0x40 and (id[8] & 0x3f) | 0x80.
unfoldable pub uuid : Text → Text
uuid raw = set_byte 8 64 128 (set_byte 6 16 64 raw)

abbrev pub embedding_of : {F : Type 0} → Option (List F) → List F
embedding_of none = []
embedding_of (some e) = e

module _ {F : Type 0} (M : FloatMath F) (minus_one : F) (unicode_lower : Text → Text) (C : Crypto)
    (K : IndexCodec) (N : NodeCodec F) (cfg : Config F) (coherence : CoherenceConfig F) where
  abbrev pub class_of : Frame F → ContentClass
  class_of f = classify unicode_lower (record {
    process_name = f.window_ctx.process_name;
    window_title = f.window_ctx.window_title;
    browser_url = f.window_ctx.browser_url;
  })

  abbrev pub score_of_frame : Frame F → F
  score_of_frame f = engagement_score M (record {
    dwell_seconds = f.dwell_seconds;
    typed_within_seconds = f.seconds_since_input;
    scrolled_within_seconds = M.compare.tenths 0;
    clicked_within_seconds = M.compare.tenths 0;
    content_class = class_of f;
    view_count = pos 1;
  })

  -- Without an embedding the node counts as incoherent.
  unfoldable pub is_coherent : RoundEnv F → Bool
  is_coherent env = elim env.embedded [
    | none ↦ false
    | some e ↦ (check M.compare minus_one coherence e env.neighbors).0.is_coherent
  ]

  abbrev pub required_score : RoundEnv F → F
  required_score env =
      if is_coherent env
      then cfg.semantic_filter.min_engagement_score
      else cfg.semantic_filter.isolated_node_score

  abbrev pub new_node : Frame F → RoundEnv F → InferenceResult → Text → MemoryNode F
  new_node f env r id = record {
    schema_version = 0;
    id = id;
    captured_at = f.captured_at;
    description = r.description;
    tags = r.tags;
    process_name = f.window_ctx.process_name;
    window_title = f.window_ctx.window_title;
    browser_url = f.window_ctx.browser_url;
    embedding = embedding_of env.embedded;
    engagement_score = score_of_frame f;
    view_count = 1;
  }

  abbrev pub with_store : Loop F → Store F × Option StoreError → Loop F × Outcome
  with_store l (s, e) =
      (record { consecutive_fails = l.consecutive_fails; drained = l.drained; store = s }, stored e)

  -- The round after the model has answered.
  unfoldable pub keep_node : Frame F → RoundEnv F → InferenceResult → Loop F → Loop F × Outcome
  keep_node f env r l =
      if M.compare.lt (score_of_frame f) cfg.semantic_filter.min_engagement_score
      then (l, low_engagement)
      else if M.compare.lt (score_of_frame f) (required_score env)
      then (l, isolated)
      else elim env.random_id [
        | none ↦ (l, no_id)
        | some raw ↦
            with_store l (write C K N env.nonce env.write_env (new_node f env r (uuid raw)) l.store)
      ]

  abbrev pub failed : Loop F → Loop F
  failed l = record {
    consecutive_fails = l.consecutive_fails + 1;
    drained = false;
    store = l.store;
  }

  -- After a success that ends an outage the bucket is drained.
  abbrev pub recovered : Loop F → Loop F
  recovered l = record {
    consecutive_fails = 0;
    drained = ltb 0 l.consecutive_fails;
    store = l.store;
  }

  -- The round of a frame that the two gates let through.
  unfoldable pub infer_frame : Frame F → RoundEnv F → Loop F → Loop F × Outcome
  infer_frame f env l = elim env.token [
    | context_ended ↦ (l, acquire_failed)
    | other_error ↦ (l, not_acquired)
    | acquired ↦ elim env.inferred [
      | none ↦ (failed l, if env.stopped then stopped_in_backoff else backed_off)
      | some r ↦ keep_node f env r (recovered l)
    ]
  ]

  -- A round of the loop for a frame that the queue has returned.
  unfoldable pub process : Frame F → RoundEnv F → Loop F → Loop F × Outcome
  process f env l =
      if M.compare.lt f.dwell_seconds cfg.semantic_filter.min_dwell_seconds
      then (l, short_dwell)
      else if is_low_class (class_of f)
      then (l, low_class)
      else infer_frame f env l

  -- The frames that come out of the queue, until the queue is stopped or the loop returns. `rest` is the
  -- run after the round, which a loop that returns does not have.
  unfoldable pub run_loop : List (Frame F × RoundEnv F) → Loop F → Loop F
  run_loop [] l = l
  run_loop ((f, env) ∷ fs) l =
      let (l', outcome) = process f env l in
      let rest = run_loop fs l' in if ends outcome then l' else rest
