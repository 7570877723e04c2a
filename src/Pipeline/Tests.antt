-- ===== src/Pipeline/Tests.antt =====
-- The theorems of Pipeline with natural numbers for floats, on a frame of a code editor.
use digital_ghost.Prelude.{
  ℕ, ◌+◌, ◌*◌, ◌/◌, ltb, leb, pos, false, [], ◌∷◌, none, some, lit, replicate,
}
use digital_ghost.Storage.Time.{unix_epoch}
use digital_ghost.Storage.Encrypt.Tests.{toy, enc}
use digital_ghost.Storage.JsonStore.Toy.{toy_codec}
use digital_ghost.Storage.JsonStore.Tests.{empty_disk, good_write}
use digital_ghost.Storage.VectorStore.{NodeCodec}
use digital_ghost.Config.{Config, defaults}
use digital_ghost.Filter.Engagement.{FloatMath}
use digital_ghost.Coherence.{CoherenceConfig}
use digital_ghost.Pipeline.{acquired, Frame, RoundEnv, Loop, process}
use digital_ghost.Pipeline.Gates.{StoreOutcome, process-StoreOutcome}

-- A float is a number of hundredths.
abbrev pub math : FloatMath ℕ
math = record {
  compare = record { lt = ltb; le = leb; tenths = λ n. 10 * n };
  add = λ a b. a + b;
  mul = λ a b. a * b / 100;
  div = λ a b. 100 * a / b;
  log = λ a. a;
  log1p = λ a. a + 100;
  of_int = λ z. 100;
  hundredths = λ n. n;
}

abbrev cfg : Config ℕ
cfg = defaults math.compare

abbrev coherence : CoherenceConfig ℕ
coherence = record { threshold = 40; k = pos 5 }

abbrev no_codec : NodeCodec ℕ
no_codec = record { marshal = λ n. some (1 ∷ []); unmarshal = λ t. none }

abbrev frame : Frame ℕ
frame = record {
  captured_at = unix_epoch + 5;
  window_ctx = record {
    process_name = lit "code";
    window_title = [];
    browser_url = [];
    focused_input_role = [];
    pid = 7;
  };
  dwell_seconds = 3000;
  seconds_since_input = 100;
}

abbrev env : RoundEnv ℕ
env = record {
  token = acquired;
  inferred = some (record {
    description = lit "a text editor";
    tags = [];
    model = lit "llava:7b";
    latency_ms = 900;
  });
  stopped = false;
  embedded = none;
  neighbors = none;
  random_id = some (replicate 16 1);
  nonce = some (replicate 12 4);
  write_env = good_write;
}

abbrev start : Loop ℕ
start = record {
  consecutive_fails = 0;
  drained = false;
  store = record { encryptor = enc; disk = empty_disk; emb_cache = [] };
}

process-StoreOutcome_example :
    StoreOutcome math 0
      (λ t. t)
      toy
      toy_codec
      no_codec
      cfg
      coherence
      frame
      env
      start
      (process math 0 (λ t. t) toy toy_codec no_codec cfg coherence frame env start)
process-StoreOutcome_example =
    process-StoreOutcome math 0 (λ t. t) toy toy_codec no_codec cfg coherence frame env start
