-- ===== src/Config.antt =====
-- internal/config/config.go: the configuration, its defaults, its validation and its loading. `F` is
-- the type of the floats; yaml.Unmarshal, url.Parse and filepath.Join are arguments.
pub mod Laws
pub mod Loading
pub mod Tests
use digital_ghost.Prelude.{
  ℕ, ℤ, pos, negsuc, exceeds, is_below, ltℤ, Text, Bool, true, false, List, [], ◌∷◌, Option, none,
  some, not, ◌&&◌, ◌||◌, is_empty, text_eq, lit, if◌then◌else◌, ◌==◌,
}
use digital_ghost.Prelude.Result.{Result, ok, err, ◌>>=◌}

-- The comparisons of float64, and the literal n / 10.
pub record Floats (F : Type 0) : Type 0 where
  pub lt : F → F → Bool
  pub le : F → F → Bool
  pub tenths : ℕ → F

pub record Url : Type 0 where
  pub scheme : Text
  pub hostname : Text

pub record CaptureConfig (F : Type 0) : Type 0 where
  pub fps : F
  pub idle_fps : F
  pub idle_threshold_sec : ℤ
  pub queue_depth : ℤ
  pub hash_threshold : ℤ
  pub backend : Text

pub record ResourceBudgetConfig : Type 0 where
  pub max_cpu_pct : ℤ
  pub max_gpu_pct : ℤ
  pub max_inference_per_min : ℤ
  pub cpu_idle_threshold : ℤ
  pub gpu_idle_threshold : ℤ

pub record InferenceConfig : Type 0 where
  pub ollama_url : Text
  pub model : Text
  pub model_digest : Text
  pub embed_model : Text
  pub chat_model : Text
  pub timeout_sec : ℤ
  pub max_retries : ℤ

pub record SemanticFilterConfig (F : Type 0) : Type 0 where
  pub min_engagement_score : F
  pub min_dwell_seconds : F
  pub graph_coherence_threshold : F
  pub isolated_node_score : F

pub record StorageConfig : Type 0 where
  pub data_dir : Text
  pub retention_days : ℤ
  pub max_retention_days : ℤ
  pub secure_delete : Bool

pub record LoggingConfig : Type 0 where
  pub level : Text
  pub file : Text

pub record Config (F : Type 0) : Type 0 where
  pub capture : CaptureConfig F
  pub resource_budget : ResourceBudgetConfig
  pub inference : InferenceConfig
  pub semantic_filter : SemanticFilterConfig F
  pub storage : StorageConfig
  pub logging : LoggingConfig

pub data ConfigError : Type 0 where
  max_cpu_pct_too_high max_cpu_pct_too_low max_gpu_pct_too_high : ConfigError
  retention_too_long max_retention_too_long retention_too_short : ConfigError
  fps_out_of_range unknown_backend queue_depth_out_of_range engagement_out_of_range : ConfigError
  timeout_out_of_range no_ollama_url remote_ollama_url no_model no_embed_model : ConfigError
  read_error parse_error : ConfigError

-- The configuration file.
pub data ConfigFile : Type 0 where
  missing unreadable : ConfigFile
  present : Text → ConfigFile

-- The first test that holds gives the error.
unfoldable pub first_error : List (Bool × ConfigError) → Result ConfigError (Unit {0})
first_error [] = ok tt
first_error ((b, e) ∷ bs) = let rest = first_error bs in if b then err e else rest

abbrev pub is_unknown_backend : Text → Bool
is_unknown_backend b =
    not (is_empty b) && (not (text_eq b (lit "gdi")) && not (text_eq b (lit "dxgi")))

abbrev pub is_remote : Option Url → Bool
is_remote none = true
is_remote (some u) =
    not (text_eq u.scheme (lit "http"))
    || (not (text_eq u.hostname (lit "127.0.0.1")) && not (text_eq u.hostname (lit "localhost")))

module _ {F : Type 0} (floats : Floats F) (parse_url : Text → Option Url) where
  -- The tests of `validate`, in order.
  abbrev pub checks : Config F → List (Bool × ConfigError)
  checks c =
      (exceeds c.resource_budget.max_cpu_pct 80, max_cpu_pct_too_high)
      ∷ (is_below c.resource_budget.max_cpu_pct 1, max_cpu_pct_too_low)
      ∷ (exceeds c.resource_budget.max_gpu_pct 80, max_gpu_pct_too_high)
      ∷ (ltℤ c.storage.max_retention_days c.storage.retention_days, retention_too_long)
      ∷ (exceeds c.storage.max_retention_days 730, max_retention_too_long)
      ∷ (is_below c.storage.retention_days 1, retention_too_short)
      ∷ (
        floats.le c.capture.fps (floats.tenths 0) || floats.lt (floats.tenths 300) c.capture.fps,
        fps_out_of_range,
      )
      ∷ (is_unknown_backend c.capture.backend, unknown_backend)
      ∷ (
        is_below c.capture.queue_depth 10 || exceeds c.capture.queue_depth 10000,
        queue_depth_out_of_range,
      )
      ∷ (
        floats.lt c.semantic_filter.min_engagement_score (floats.tenths 0)
            || floats.lt (floats.tenths 10) c.semantic_filter.min_engagement_score,
        engagement_out_of_range,
      )
      ∷ (
        is_below c.inference.timeout_sec 5 || exceeds c.inference.timeout_sec 300,
        timeout_out_of_range,
      )
      ∷ (is_empty c.inference.ollama_url, no_ollama_url)
      ∷ (is_remote (parse_url c.inference.ollama_url), remote_ollama_url)
      ∷ (is_empty c.inference.model, no_model)
      ∷ (is_empty c.inference.embed_model, no_embed_model)
      ∷ []

  unfoldable pub validate : Config F → Result ConfigError (Unit {0})
  validate c = first_error (checks c)

-- The home directory, if the system knows it, and filepath.Join.
unfoldable pub expand_home : Option Text → (Text → Text → Text) → Text → Text
expand_home home join [] = []
expand_home home join (c ∷ []) =
    if c == b'~' then elim home [ none ↦ c ∷ [] | some h ↦ h ] else c ∷ []
expand_home home join (c ∷ d ∷ rest) =
    if not (c == b'~')
    then c ∷ d ∷ rest
    else if not (d == b'/') && not (d == 92)
    then c ∷ d ∷ rest
    else elim home [ none ↦ c ∷ d ∷ rest | some h ↦ join h rest ]

abbrev pub expand_paths : {F : Type 0} → (Text → Text) → Config F → Config F
expand_paths expand c = record {
  capture = c.capture;
  resource_budget = c.resource_budget;
  inference = c.inference;
  semantic_filter = c.semantic_filter;
  storage = record {
    data_dir = expand c.storage.data_dir;
    retention_days = c.storage.retention_days;
    max_retention_days = c.storage.max_retention_days;
    secure_delete = c.storage.secure_delete;
  };
  logging = record { level = c.logging.level; file = expand c.logging.file };
}

unfoldable pub defaults : {F : Type 0} → Floats F → Config F
defaults floats = record {
  capture = record {
    fps = floats.tenths 20;
    idle_fps = floats.tenths 5;
    idle_threshold_sec = pos 30;
    queue_depth = pos 100;
    hash_threshold = pos 10;
    backend = lit "gdi";
  };
  resource_budget = record {
    max_cpu_pct = pos 20;
    max_gpu_pct = pos 60;
    max_inference_per_min = pos 6;
    cpu_idle_threshold = pos 40;
    gpu_idle_threshold = pos 60;
  };
  inference = record {
    ollama_url = lit "http://127.0.0.1:11434";
    model = lit "llava:7b";
    model_digest = [];
    embed_model = lit "nomic-embed-text";
    chat_model = [];
    timeout_sec = pos 120;
    max_retries = pos 2;
  };
  semantic_filter = record {
    min_engagement_score = floats.tenths 3;
    min_dwell_seconds = floats.tenths 30;
    graph_coherence_threshold = floats.tenths 4;
    isolated_node_score = floats.tenths 8;
  };
  storage = record {
    data_dir = lit "~/.local/share/digitalghost";
    retention_days = pos 90;
    max_retention_days = pos 730;
    secure_delete = true;
  };
  logging = record { level = lit "info"; file = lit "~/.local/share/digitalghost/dg.log" };
}

-- yaml.Unmarshal writes the fields of the text over those of the configuration.
module _ {F : Type 0} (floats : Floats F) (parse_url : Text → Option Url)
    (unmarshal : Text → Config F → Option (Config F)) where
  abbrev pub validated : Config F → Result ConfigError (Config F)
  validated c = validate floats parse_url c >>= λ u. ok c

  -- The merged and validated configuration of the file.
  unfoldable pub load_file : ConfigFile → Result ConfigError (Config F)
  load_file missing = validated (defaults floats)
  load_file unreadable = err read_error
  load_file (present text) = elim (unmarshal text (defaults floats)) [
    | none ↦ err parse_error
    | some c ↦ validated c
  ]

  unfoldable pub load : (expand : Text → Text) → ConfigFile → Result ConfigError (Config F)
  load expand file = load_file file >>= λ c. ok (expand_paths expand c)
