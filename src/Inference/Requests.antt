-- ===== src/Inference/Requests.antt =====
-- internal/inference/ollama.go: the requests that the client sends to Ollama, and what it makes of the
-- answers. What http.Client and the JSON decoder give for a request is an argument.
pub mod Laws
pub mod Tests
use digital_ghost.Prelude.{
  ℕ, zero, suc, ◌==◌, ℤ, Text, Bool, true, false, List, [], ◌∷◌, ◌++◌, Option, none, some, is_empty,
  not, lit, replicate, if◌then◌else◌,
}
use digital_ghost.Prelude.Result.{Result, ok, err, ◌>>=◌, reject, ◌>>◌}
use digital_ghost.Prelude.Trimming.{trim_space}
use digital_ghost.Config.{InferenceConfig}
use digital_ghost.Filter.Blocklist.{WindowContext}
use digital_ghost.Filter.Classifier.{classify}
use digital_ghost.Inference.Client.{Attempts, infer}
use digital_ghost.Inference.Answer.{InferenceResult, parse_description_and_tags}
use digital_ghost.Inference.Prompt.{build_inference_prompt}

-- `temperature` is the option of that name, `none` where the request has no options.
pub record GenerateRequest : Type 0 where
  pub model : Text
  pub prompt : Text
  pub images : List Text
  pub stream : Bool
  pub temperature : Option ℕ

pub record GenerateResponse : Type 0 where
  pub response : Text
  pub error : Text

pub record EmbedRequest : Type 0 where
  pub model : Text
  pub prompt : Text

-- What comes of a request: it cannot be built, there is no response, or there is a status and, if it
-- decodes, a body.
pub data HttpAnswer (B : Type 0) : Type 0 where
  not_built no_response : HttpAnswer B
  answered : (status : ℕ) → Option B → HttpAnswer B

pub data RequestError : Type 0 where
  encoding_failed creating_failed request_failed bad_status decoding_failed : RequestError
  ollama_error : Text → RequestError
  empty_embedding : RequestError

-- What Infer comes to: an error, the result of an attempt, or a panic in an attempt.
pub data Inference : Type 0 where
  failed panicked : Inference
  inferred : InferenceResult → Inference

unfoldable pub body_of : {B : Type 0} → HttpAnswer B → Result RequestError B
body_of not_built = err creating_failed
body_of no_response = err request_failed
body_of (answered status body) =
    if not (status == 200)
    then err bad_status
    else elim body [ none ↦ err decoding_failed | some b ↦ ok b ]

unfoldable pub response_of : HttpAnswer GenerateResponse → Result RequestError Text
unfolding body_of
response_of a =
    body_of a >>= λ r. if not (is_empty r.error) then err (ollama_error r.error) else ok r.response

-- Generate
unfoldable pub generate : HttpAnswer GenerateResponse → Result RequestError Text
unfolding response_of trim_space
generate a = response_of a >>= λ t. ok (trim_space t)

abbrev reject_empty : {F : Type 0} → List F → Result RequestError (List F)
reject_empty [] = err empty_embedding
reject_empty (x ∷ xs) = ok (x ∷ xs)

-- Embed
unfoldable pub embed : {F : Type 0} → HttpAnswer (List F) → Result RequestError (List F)
unfolding body_of
embed a = body_of a >>= λ e. reject_empty e

-- Ping
unfoldable pub ping : {B : Type 0} → HttpAnswer B → Result RequestError (Unit {0})
ping not_built = err creating_failed
ping no_response = err request_failed
ping (answered status body) = if not (status == 200) then err bad_status else ok tt

unfoldable pub chat_model : InferenceConfig → Text
chat_model cfg = if is_empty cfg.chat_model then cfg.model else cfg.chat_model

unfoldable pub generate_url : InferenceConfig → Text
unfolding lit
generate_url cfg = cfg.ollama_url ++ lit "/api/generate"

unfoldable pub embed_url : InferenceConfig → Text
unfolding lit
embed_url cfg = cfg.ollama_url ++ lit "/api/embeddings"

unfoldable pub chat_request : InferenceConfig → Text → GenerateRequest
unfolding chat_model
chat_request cfg prompt = record {
  model = chat_model cfg;
  prompt = prompt;
  images = [];
  stream = false;
  temperature = none;
}

unfoldable pub embed_request : InferenceConfig → Text → EmbedRequest
embed_request cfg text = record { model = cfg.embed_model; prompt = text }

-- The end of an attempt: the loop goes on after an error, which is `none` here.
abbrev pub attempt_end :
    Text → (latency : ℕ) → Result RequestError (Option (Text × List Text)) → Option Inference
attempt_end model latency (err e) = none
attempt_end model latency (ok none) = some panicked
attempt_end model latency (ok (some (d, tags))) =
    some (inferred (record { description = d; tags = tags; model = model; latency_ms = latency }))

abbrev pub inference_of : Option Inference → Inference
inference_of none = failed
inference_of (some i) = i

-- What the attempts meet: the answers of the server, how long they take, and whether the context ends
-- in the wait before an attempt.
pub record InferEnv : Type 0 where
  pub answer : ℕ → HttpAnswer GenerateResponse
  pub latency_ms : ℕ → ℕ
  pub cancelled : ℕ → Bool

module _ (unicode_lower : Text → Text) (cfg : InferenceConfig) where
  -- The description and the tags that doRequest makes of an answer; `ok none` is a panic.
  unfoldable pub do_request :
      HttpAnswer GenerateResponse → Result RequestError (Option (Text × List Text))
  unfolding response_of
  do_request a = response_of a >>= λ t. ok (parse_description_and_tags unicode_lower t)

  -- The request for a frame whose window is `c` and whose image is encoded as `img`.
  unfoldable pub inference_request : WindowContext → Text → GenerateRequest
  unfolding build_inference_prompt
  inference_request c img = record {
    model = cfg.model;
    prompt = build_inference_prompt c (
        classify unicode_lower (record {
          process_name = c.process_name;
          window_title = c.window_title;
          browser_url = c.browser_url;
        }));
    images = img ∷ [];
    stream = false;
    temperature = some 0;
  }

  unfoldable pub infer_attempts : InferEnv → Attempts Inference
  unfolding do_request
  infer_attempts env = record {
    answer = λ n. attempt_end cfg.model (env.latency_ms n) (do_request (env.answer n));
    cancelled = env.cancelled;
  }

  -- Infer: what it comes to, and the request of each attempt, also of one whose request could not be
  -- built. `encoded` is the image, `none` where it
  -- cannot be encoded.
  unfoldable pub infer_frame :
      WindowContext → (encoded : Option Text) → InferEnv → Inference × List GenerateRequest
  infer_frame c none env = (failed, [])
  infer_frame c (some img) env =
      let (result, made) = infer cfg.max_retries (infer_attempts env) in
      (inference_of result, replicate made (inference_request c img))
