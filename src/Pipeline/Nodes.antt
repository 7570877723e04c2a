-- ===== src/Pipeline/Nodes.antt =====
-- The class and the score of a frame, and the node that is made of it.
use digital_ghost.Prelude.{
  ◌≡◌, ◌≢◌, refl, ◌⊎◌, inl, inr, Text, true, false, List, [], Option, none, some, pos,
}
use digital_ghost.Storage.Encrypt.{Crypto}
use digital_ghost.Storage.JsonStore.{IndexCodec}
use digital_ghost.Storage.VectorStore.{MemoryNode, NodeCodec}
use digital_ghost.Config.{Config}
use digital_ghost.Filter.Classifier.{
  ContentClass, unknown, work_document, work_code, work_research, communication, system_ui,
  entertainment, social, classify,
}
use digital_ghost.Filter.Engagement.{FloatMath, engagement_score}
use digital_ghost.Coherence.{CoherenceConfig}
use digital_ghost.Inference.Answer.{InferenceResult}
use digital_ghost.Pipeline.{Frame, RoundEnv, is_low_class, uuid, embedding_of, new_node}
use digital_ghost.Pipeline.Ids.{IsUuid, uuid-IsUuid}

-- The classes that are not worth an inference.
abbrev pub IsLow : ContentClass → Type 0
IsLow c = (c ≡ entertainment) ⊎ (c ≡ system_ui)

pub IsLow-class_cases :
    (c : ContentClass)
    → (is_low_class c ≡ true) × IsLow c
      ⊎ (is_low_class c ≡ false) × (c ≢ entertainment) × (c ≢ system_ui)
IsLow-class_cases entertainment = inl (refl, inl refl)
IsLow-class_cases system_ui = inl (refl, inr refl)
IsLow-class_cases unknown = inr (refl, (λ h. absurd cc), (λ h. absurd cc))
IsLow-class_cases work_document = inr (refl, (λ h. absurd cc), (λ h. absurd cc))
IsLow-class_cases work_code = inr (refl, (λ h. absurd cc), (λ h. absurd cc))
IsLow-class_cases work_research = inr (refl, (λ h. absurd cc), (λ h. absurd cc))
IsLow-class_cases communication = inr (refl, (λ h. absurd cc), (λ h. absurd cc))
IsLow-class_cases social = inr (refl, (λ h. absurd cc), (λ h. absurd cc))

abbrev pub HasEmbedding : {F : Type 0} → Option (List F) → List F → Type 0
HasEmbedding o e = ((o ≡ none) × (e ≡ [])) ⊎ (o ≡ some e)

embedding_of-HasEmbedding : {F : Type 0} (o : Option (List F)) → HasEmbedding o (embedding_of o)
embedding_of-HasEmbedding none = inl (refl, refl)
embedding_of-HasEmbedding (some e) = inr refl

module _ {F : Type 0} (unicode_lower : Text → Text) where
  -- The class of the window.
  abbrev pub class : Frame F → ContentClass
  class f = classify unicode_lower (record {
    process_name = f.window_ctx.process_name;
    window_title = f.window_ctx.window_title;
    browser_url = f.window_ctx.browser_url;
  })

module _ {F : Type 0} (M : FloatMath F) (unicode_lower : Text → Text) where
  -- The score of the frame with its dwell time, the time since the last input, no scroll and no click,
  -- and one view.
  abbrev pub score : Frame F → F
  score f = engagement_score M (record {
    dwell_seconds = f.dwell_seconds;
    typed_within_seconds = f.seconds_since_input;
    scrolled_within_seconds = M.compare.tenths 0;
    clicked_within_seconds = M.compare.tenths 0;
    content_class = class unicode_lower f;
    view_count = pos 1;
  })

  -- The node of a frame: its fields are those of the frame and of the answer of the model.
  pub record IsNode (f : Frame F) (env : RoundEnv F) (result : InferenceResult) (raw_id : Text)
      (node : MemoryNode F) : Type 0 where
    pub id : IsUuid raw_id node.id
    pub captured_at : node.captured_at ≡ f.captured_at
    pub description : node.description ≡ result.description
    pub tags : node.tags ≡ result.tags
    pub process_name : node.process_name ≡ f.window_ctx.process_name
    pub window_title : node.window_title ≡ f.window_ctx.window_title
    pub browser_url : node.browser_url ≡ f.window_ctx.browser_url
    pub embedding : HasEmbedding env.embedded node.embedding
    pub engagement : node.engagement_score ≡ score f
    pub view_count : node.view_count ≡ 1

module _ {F : Type 0} (M : FloatMath F) (minus_one : F) (unicode_lower : Text → Text) (C : Crypto)
    (K : IndexCodec) (N : NodeCodec F) (cfg : Config F) (coherence : CoherenceConfig F) where
  pub new_node-IsNode :
      (f : Frame F) (env : RoundEnv F) (r : InferenceResult) (raw : Text)
      → IsNode M unicode_lower f env r raw
          (new_node M minus_one unicode_lower C K N cfg coherence f env r (uuid raw))
  new_node-IsNode f env r raw = record {
    id = uuid-IsUuid raw;
    captured_at = refl;
    description = refl;
    tags = refl;
    process_name = refl;
    window_title = refl;
    browser_url = refl;
    embedding = embedding_of-HasEmbedding env.embedded;
    engagement = refl;
    view_count = refl;
  }
