-- ===== src/Inference/Requests/Tests.antt =====
-- The theorems of Inference.Requests at a server whose first answer fails.
use digital_ghost.Prelude.{
  ℕ, zero, suc, ◌≡◌, refl, pos, Text, [], ◌∷◌, some, lit, replicate, to_lower, contains, false,
}
use digital_ghost.Prelude.Trimming.{trim_space, trim, last_index, split, slice_to, slice_from}
use digital_ghost.Config.{InferenceConfig}
use digital_ghost.Filter.Blocklist.{WindowContext}
use digital_ghost.Inference.Client.{attempt_from, infer}
use digital_ghost.Inference.Answer.{
  InferenceResult, parse_description_and_tags, sanitize_description, tags_of, tag_marker,
  injection_patterns,
}
use digital_ghost.Inference.Requests.{
  GenerateResponse, HttpAnswer, no_response, answered, inferred, InferEnv, body_of, response_of,
  do_request, inference_request, infer_attempts, infer_frame,
}
use digital_ghost.Inference.Requests.Laws.{IsInferred, infer_frame-IsInferred}

abbrev same : Text → Text
same s = s

abbrev cfg : InferenceConfig
cfg = record {
  ollama_url = lit "http://127.0.0.1:11434";
  model = lit "llava:7b";
  model_digest = [];
  embed_model = lit "nomic-embed-text";
  chat_model = [];
  timeout_sec = pos 120;
  max_retries = pos 2;
}

abbrev window : WindowContext
window = record {
  process_name = lit "code";
  window_title = lit "main.go";
  browser_url = [];
  focused_input_role = [];
  pid = 7;
}

abbrev second_answer : ℕ → HttpAnswer GenerateResponse
second_answer zero = no_response
second_answer (suc n) =
    answered 200 (some (record { response = lit "A file. TAGS: [go]"; error = [] }))

abbrev env : InferEnv
env = record { answer = second_answer; latency_ms = λ n. 900; cancelled = λ n. false }

abbrev result : InferenceResult
result = record {
  description = lit "A file.";
  tags = lit "go" ∷ [];
  model = lit "llava:7b";
  latency_ms = 900;
}

infer_frame_run :
    infer_frame same cfg window (some (1 ∷ [])) env
    ≡ (inferred result, replicate 2 (inference_request same cfg window (1 ∷ [])))
unfolding infer_frame infer attempt_from infer_attempts do_request response_of body_of
    parse_description_and_tags sanitize_description tags_of tag_marker injection_patterns lit
    trim_space trim last_index split slice_to slice_from to_lower contains
infer_frame_run = refl

infer_frame-IsInferred_example :
    IsInferred same cfg window
      (1 ∷ [])
      2
      env
      result
      (replicate 2 (inference_request same cfg window (1 ∷ [])))
infer_frame-IsInferred_example =
    infer_frame-IsInferred same cfg window (1 ∷ []) 2 env result
      (replicate 2 (inference_request same cfg window (1 ∷ []))) refl infer_frame_run
