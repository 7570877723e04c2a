-- ===== src/Pipeline/Gates.antt =====
-- Which frames the model sees, and which nodes are stored.
use mathlib.Core.Path.{subst}
use digital_ghost.Prelude.{
  ◌≡◌, ◌≢◌, refl, sym, ◌⊎◌, inl, inr, Text, true, false, List, none, some, Bool-cases, Option-cases,
  arith,
}
use digital_ghost.Storage.Encrypt.{Crypto}
use digital_ghost.Storage.JsonStore.{IndexCodec}
use digital_ghost.Storage.VectorStore.{MemoryNode, NodeCodec, Store, write}
use digital_ghost.Config.{Config}
use digital_ghost.Filter.Classifier.{system_ui, entertainment}
use digital_ghost.Filter.Engagement.{FloatMath}
use digital_ghost.Coherence.{CoherenceConfig, check}
use digital_ghost.Inference.Answer.{InferenceResult}
use digital_ghost.Pipeline.{
  Token, acquired, context_ended, other_error, Frame, RoundEnv, Loop, Outcome, is_low_class, uuid,
  is_coherent, new_node, required_score, keep_node, recovered, infer_frame, process,
}
use digital_ghost.Pipeline.Nodes.{IsLow, IsLow-class_cases, class, score, IsNode, new_node-IsNode}

module _ {F : Type 0} (M : FloatMath F) (minus_one : F) (unicode_lower : Text → Text) (C : Crypto)
    (K : IndexCodec) (N : NodeCodec F) (cfg : Config F) (coherence : CoherenceConfig F) where
  -- There is an embedding, and the check of the coherence accepts it.
  abbrev pub IsConnected : RoundEnv F → Type 0
  IsConnected env =
      (e : List F) × (env.embedded ≡ some e)
      × ((check M.compare minus_one coherence e env.neighbors).0.is_coherent ≡ true)

  -- There is no embedding, or the check of the coherence does not accept it.
  abbrev pub IsIsolated : RoundEnv F → Type 0
  IsIsolated env =
      (env.embedded ≡ none)
      ⊎ ((e : List F) × (env.embedded ≡ some e)
          × ((check M.compare minus_one coherence e env.neighbors).0.is_coherent ≡ false))

  coherent-cases :
      (env : RoundEnv F)
      → ((is_coherent M minus_one unicode_lower C K N cfg coherence env ≡ true) × IsConnected env)
        ⊎ ((is_coherent M minus_one unicode_lower C K N cfg coherence env ≡ false) × IsIsolated env)
  unfolding is_coherent
  coherent-cases env = elim (Option-cases env.embedded) [
    | inl n ↦ inr (ground (arith, n), inl n)
    | inr (e, n) ↦
        elim (Bool-cases (check M.compare minus_one coherence e env.neighbors).0.is_coherent) [
          | inl c ↦ inl (ground (arith, n), (e, n, c))
          | inr c ↦ inr (ground (arith, n), inr (e, n, c))
        ]
  ]

  -- The round stores what the write makes of the node of the frame, which has passed every gate.
  pub record IsStoring (f : Frame F) (env : RoundEnv F) (l : Loop F) (s' : Store F) : Type 0 where
    pub dwell : M.compare.lt f.dwell_seconds cfg.semantic_filter.min_dwell_seconds ≡ false
    pub not_low : (class unicode_lower f ≢ entertainment) × (class unicode_lower f ≢ system_ui)
    pub token : env.token ≡ acquired
    pub result : InferenceResult
    pub inferred : env.inferred ≡ some result
    pub engaged :
        M.compare.lt (score M unicode_lower f) cfg.semantic_filter.min_engagement_score ≡ false
    pub connected :
        IsConnected env
        ⊎ (M.compare.lt (score M unicode_lower f) cfg.semantic_filter.isolated_node_score ≡ false)
    pub raw_id : Text
    pub random : env.random_id ≡ some raw_id
    pub node : MemoryNode F
    pub is_node : IsNode M unicode_lower f env result raw_id node
    pub written : s' ≡ (write C K N env.nonce env.write_env node l.store).0

  -- A gate that stops the frame.
  abbrev pub IsStopped : Frame F → RoundEnv F → Type 0
  IsStopped f env =
      (M.compare.lt f.dwell_seconds cfg.semantic_filter.min_dwell_seconds ≡ true)
      ⊎ IsLow (class unicode_lower f)
      ⊎ (env.token ≢ acquired)
      ⊎ (env.inferred ≡ none)
      ⊎ (M.compare.lt (score M unicode_lower f) cfg.semantic_filter.min_engagement_score ≡ true)
      ⊎ (IsIsolated env
          × (M.compare.lt (score M unicode_lower f) cfg.semantic_filter.isolated_node_score ≡ true))
      ⊎ (env.random_id ≡ none)

  -- A round leaves the store alone, and a gate is the reason, or it stores a node as `IsStoring` says.
  abbrev pub StoreOutcome : Frame F → RoundEnv F → Loop F → Loop F × Outcome → Type 0
  StoreOutcome f env l (l', o) = (l'.store ≡ l.store) × IsStopped f env ⊎ IsStoring f env l l'.store

  -- The frame passed the gates before the model, which answered.
  record IsAnswered (f : Frame F) (env : RoundEnv F) (r : InferenceResult) : Type 0 where
    dwell : M.compare.lt f.dwell_seconds cfg.semantic_filter.min_dwell_seconds ≡ false
    not_low : (class unicode_lower f ≢ entertainment) × (class unicode_lower f ≢ system_ui)
    token : env.token ≡ acquired
    inferred : env.inferred ≡ some r

  keep_passed :
      (f : Frame F) (env : RoundEnv F) (r : InferenceResult) (l : Loop F)
      → IsAnswered f env r
      → M.compare.lt (score M unicode_lower f) cfg.semantic_filter.min_engagement_score ≡ false
      → M.compare.lt
          (score M unicode_lower f)
          (required_score M minus_one unicode_lower C K N cfg coherence env)
        ≡ false
      → IsConnected env
        ⊎ (M.compare.lt (score M unicode_lower f) cfg.semantic_filter.isolated_node_score ≡ false)
      → StoreOutcome f env l (
          keep_node M minus_one unicode_lower C K N cfg coherence f env r
            (recovered M minus_one unicode_lower C K N cfg coherence l))
  unfolding keep_node
  keep_passed f env r l a q p h = elim (Option-cases env.random_id) [
    | inl n ↦ simp (keep_node, q, p, n) (inl (refl, inr (inr (inr (inr (inr (inr refl)))))))
    | inr (raw, n) ↦
        simp (keep_node, q, p, n)
          (inr (record {
            dwell = a.dwell;
            not_low = a.not_low;
            token = a.token;
            result = r;
            inferred = a.inferred;
            engaged = q;
            connected = h;
            raw_id = raw;
            random = n;
            node = new_node M minus_one unicode_lower C K N cfg coherence f env r (uuid raw);
            is_node = new_node-IsNode M minus_one unicode_lower C K N cfg coherence f env r raw;
            written = refl;
          }))
  ]

  keep_node-StoreOutcome :
      (f : Frame F) (env : RoundEnv F) (r : InferenceResult) (l : Loop F)
      → IsAnswered f env r
      → StoreOutcome f env l (
          keep_node M minus_one unicode_lower C K N cfg coherence f env r
            (recovered M minus_one unicode_lower C K N cfg coherence l))
  unfolding keep_node
  keep_node-StoreOutcome f env r l a =
      elim (Bool-cases
        (M.compare.lt (score M unicode_lower f) cfg.semantic_filter.min_engagement_score)) [
          | inl q ↦ rw (keep_node, q) (inl (refl, inr (inr (inr (inr (inl refl))))))
          | inr q ↦ elim (coherent-cases env) [
            | inl (c, h) ↦ keep_passed f env r l a q (rw (c, q) refl) (inl h)
            | inr (c, h) ↦
                elim (Bool-cases (
                  M.compare.lt (score M unicode_lower f) cfg.semantic_filter.isolated_node_score)) [
                    | inl p ↦
                        rw (keep_node, q, c, p)
                          (inl (refl, inr (inr (inr (inr (inr (inl (h, refl))))))))
                    | inr p ↦ keep_passed f env r l a q (rw (c, p) refl) (inr p)
                  ]
          ]
        ]

  infer_frame-answered :
      (f : Frame F) (env : RoundEnv F) (l : Loop F) (r : InferenceResult)
      → env.token ≡ acquired
      → env.inferred ≡ some r
      → infer_frame M minus_one unicode_lower C K N cfg coherence f env l
        ≡ keep_node M minus_one unicode_lower C K N cfg coherence f env r
            (recovered M minus_one unicode_lower C K N cfg coherence l)
  unfolding infer_frame
  infer_frame-answered f env l r t i = simp (infer_frame, t, i) refl

  infer_frame-StoreOutcome :
      (f : Frame F) (env : RoundEnv F) (l : Loop F)
      → M.compare.lt f.dwell_seconds cfg.semantic_filter.min_dwell_seconds ≡ false
      → (class unicode_lower f ≢ entertainment) × (class unicode_lower f ≢ system_ui)
      → StoreOutcome f env l (infer_frame M minus_one unicode_lower C K N cfg coherence f env l)
  unfolding infer_frame
  infer_frame-StoreOutcome f env l q ne = by_token env.token refl
    where
      by_token :
          (t : Token)
          → env.token ≡ t
          → StoreOutcome f env l (infer_frame M minus_one unicode_lower C K N cfg coherence f env l)
      by_token context_ended t =
          simp (infer_frame, t) (inl (refl, inr (inr (inl (λ h. absurd cc)))))
      by_token other_error t = simp (infer_frame, t) (inl (refl, inr (inr (inl (λ h. absurd cc)))))
      by_token acquired t = elim (Option-cases env.inferred) [
        | inl i ↦ simp (infer_frame, t, i) (inl (refl, inr (inr (inr (inl refl)))))
        | inr (r, i) ↦ subst (StoreOutcome f env l) (sym (infer_frame-answered f env l r t i)) (
            keep_node-StoreOutcome f env r l
              (record { dwell = q; not_low = ne; token = t; inferred = i }))
      ]

  process-passed :
      (f : Frame F) (env : RoundEnv F) (l : Loop F)
      → M.compare.lt f.dwell_seconds cfg.semantic_filter.min_dwell_seconds ≡ false
      → is_low_class (class unicode_lower f) ≡ false
      → process M minus_one unicode_lower C K N cfg coherence f env l
        ≡ infer_frame M minus_one unicode_lower C K N cfg coherence f env l
  unfolding process
  process-passed f env l q c = rw (process, q, c) refl

  -- A round of the inference loop either leaves the store alone, and then the dwell time is too
  -- short, the class is entertainment or system, no token was given, the model did not answer,
  -- the score is below the engagement threshold, the score is below the threshold of an isolated
  -- node and there is no embedding or the check of the coherence does not accept it, or the
  -- random source failed. Or none of these holds, and the store is what the write makes of a node
  -- with the fields of the frame and of the answer, the embedding if there is one, the score, one
  -- view, and the random bytes as ID, with version 4 and the variant of a UUID.
  pub process-StoreOutcome :
      (f : Frame F) (env : RoundEnv F) (l : Loop F)
      → StoreOutcome f env l (process M minus_one unicode_lower C K N cfg coherence f env l)
  unfolding process infer_frame
  process-StoreOutcome f env l =
      elim (Bool-cases (M.compare.lt f.dwell_seconds cfg.semantic_filter.min_dwell_seconds)) [
        | inl q ↦ rw (process, q) (inl (refl, inl refl))
        | inr q ↦ elim (IsLow-class_cases (class unicode_lower f)) [
          | inl (c, low) ↦ rw (process, q, c) (inl (refl, inr (inl low)))
          | inr (c, a, b) ↦
              subst (StoreOutcome f env l) (sym (process-passed f env l q c))
                (infer_frame-StoreOutcome f env l q (a, b))
        ]
      ]
