-- ===== src/Inference/Requests/Laws.antt =====
-- Where the result of an inference comes from, and how many requests it takes.
use digital_ghost.Prelude.{
  ℕ, zero, suc, ◌+◌, ◌≤◌, ◌<◌, ◌==◌, ==_iff, ◌≡◌, refl, sym, ap, ◌∙◌, pos, inl, inr, Text, true,
  List, Option, none, some, arith, is_empty, not, ◌&&◌, All, length, replicate, to_lower, is_ascii,
  ◌⊎◌, Bool-cases, Option-cases,
}
use digital_ghost.Prelude.Result.{Result, ok, err, Result-cases}
use digital_ghost.Config.{InferenceConfig}
use digital_ghost.Filter.Blocklist.{WindowContext}
use digital_ghost.Inference.Client.{Attempts, attempt_from, infer, attempts}
use digital_ghost.Inference.Answer.{InferenceResult, parse_description_and_tags}
use digital_ghost.Inference.Answer.Safety.{IsClean, IsTag, parse-IsSafe}
use digital_ghost.Inference.Requests.{
  GenerateRequest, GenerateResponse, HttpAnswer, answered, RequestError, Inference, inferred,
  InferEnv, body_of, response_of, do_request, attempt_end, inference_of, infer_attempts,
  inference_request, infer_frame,
}

-- The attempt `j` gives the value, and no attempt from `n` to `j` does.
record FirstAnswer {A : Type 0} (w : Attempts A) (k n m : ℕ) (a : A) : Type 0 where
  at_attempt : ℕ
  sent : m ≡ suc at_attempt
  from : n ≤ at_attempt
  until : at_attempt < n + k
  answer : w.answer at_attempt ≡ some a
  earlier : (i : ℕ) → n ≤ i → i < at_attempt → w.answer i ≡ none

attempt_from-FirstAnswer :
    {A : Type 0} (w : Attempts A) (k n m : ℕ) (a : A)
    → attempt_from w k n ≡ (some a, m)
    → FirstAnswer w k n m a
unfolding attempt_from
attempt_from-FirstAnswer {A} w zero n m a h = absurd cc
attempt_from-FirstAnswer {A} w (suc k) n m a h = elim (Bool-cases (not (n == 0) && w.cancelled n)) [
  | inl q ↦
      let z : ◌≡◌ {A = Option A × ℕ} (none, n) (some a, m) = rw (attempt_from, q) at h in absurd cc
  | inr q ↦ elim (Option-cases (w.answer n)) [
    | inr (b, p) ↦
        let z : ◌≡◌ {A = Option A × ℕ} (some b, suc n) (some a, m) = rw (attempt_from, q, p) at h in
        record {
          at_attempt = n;
          sent = cc;
          from = omega arith;
          until = omega arith;
          answer = cc;
          earlier = λ i low high. absurd (omega arith);
        }
    | inl p ↦
        let z : attempt_from w k (suc n) ≡ (some a, m) = rw (attempt_from, q, p) at h in
        let r = attempt_from-FirstAnswer w k (suc n) m a z in
        record {
          at_attempt = r.at_attempt;
          sent = r.sent;
          from = omega (arith, r.from);
          until = omega (arith, r.until);
          answer = r.answer;
          earlier = λ i low high. elim (Bool-cases (i == n)) [
            | inl e ↦ rw ((==_iff i n).0 e) p
            | inr e ↦ r.earlier i (ground arith) high
          ];
        }
  ]
]

module _ (unicode_lower : Text → Text) (cfg : InferenceConfig) where
  -- An attempt that gives the result: an answer with status 200 and no error that parses to it.
  pub record IsAnswer (r : InferenceResult) (a : HttpAnswer GenerateResponse) : Type 0 where
    pub body : GenerateResponse
    pub answer : a ≡ answered 200 (some body)
    pub no_error : is_empty body.error ≡ true
    pub parsed :
        parse_description_and_tags unicode_lower body.response ≡ some (r.description, r.tags)

  response_of-inv :
      (a : HttpAnswer GenerateResponse) (t : Text)
      → response_of a ≡ ok t
      → (b : GenerateResponse) × (a ≡ answered 200 (some b))
        × (is_empty b.error ≡ true)
        × (b.response ≡ t)
  unfolding response_of body_of
  response_of-inv HttpAnswer.not_built t h = absurd cc
  response_of-inv HttpAnswer.no_response t h = absurd cc
  response_of-inv (answered status none) t h = absurd (ground arith)
  response_of-inv (answered status (some b)) t h = (b, ground arith, ground arith, ground arith)

  attempt_end-inferred :
      (model : Text) (l : ℕ) (q : Result RequestError (Option (Text × List Text)))
      (r : InferenceResult)
      → attempt_end model l q ≡ some (inferred r)
      → (q ≡ ok (some (r.description, r.tags))) × (r.model ≡ model) × (r.latency_ms ≡ l)
  attempt_end-inferred model l (err e) r h = absurd cc
  attempt_end-inferred model l (ok none) r h = absurd cc
  attempt_end-inferred model l (ok (some (d, tags))) r h =
      (ground arith, ground arith, ground arith)

  do_request-IsAnswer :
      (a : HttpAnswer GenerateResponse) (r : InferenceResult)
      → do_request unicode_lower cfg a ≡ ok (some (r.description, r.tags))
      → IsAnswer r a
  unfolding do_request
  do_request-IsAnswer a r h = elim (Result-cases (response_of a)) [
    | inr (e, q) ↦ absurd (ground arith)
    | inl (t, q) ↦
        let (b, answer, no_error, e) = response_of-inv a t q in
        record { body = b; answer = answer; no_error = no_error; parsed = ground arith }
  ]

  -- Where the result of an inference comes from: the first of the attempts that did not fail.
  pub record IsInferred (c : WindowContext) (img : Text) (retries : ℕ) (env : InferEnv)
      (r : InferenceResult) (sent : List GenerateRequest) : Type 0 where
    pub at_attempt : ℕ
    pub bound : at_attempt ≤ retries
    pub source : IsAnswer r (env.answer at_attempt)
    pub earlier :
        (i : ℕ)
        → i < at_attempt
        → (e : RequestError) × (do_request unicode_lower cfg (env.answer i) ≡ err e)
    pub model : r.model ≡ cfg.model
    pub clean : IsClean unicode_lower r.description
    pub tags : All IsTag r.tags
    pub requests : sent ≡ replicate (suc at_attempt) (inference_request unicode_lower cfg c img)

  attempt_end-none :
      (model : Text) (l : ℕ) (q : Result RequestError (Option (Text × List Text)))
      → attempt_end model l q ≡ none
      → (e : RequestError) × (q ≡ err e)
  attempt_end-none model l (err e) h = (e, refl)
  attempt_end-none model l (ok none) h = absurd cc
  attempt_end-none model l (ok (some (d, tags))) h = absurd cc

  answer-safe :
      (r : InferenceResult) (a : HttpAnswer GenerateResponse)
      → IsAnswer r a
      → IsClean unicode_lower r.description × All IsTag r.tags
  answer-safe r a h = rw h.parsed at (parse-IsSafe unicode_lower h.body.response)

  inference_of-inferred :
      (o : Option Inference) (r : InferenceResult)
      → inference_of o ≡ inferred r
      → o ≡ some (inferred r)
  inference_of-inferred none r h = absurd cc
  inference_of-inferred (some i) r h = ap (λ x. some x) h

  attempts-until :
      (j retries : ℕ)
      → cfg.max_retries ≡ pos retries
      → j < 0 + attempts cfg.max_retries
      → j ≤ retries
  attempts-until j retries e h =
      let n : attempts cfg.max_retries ≡ suc retries = ap attempts e in omega arith

  -- If Infer, with a number of retries that is not negative, gives a result, then it comes from
  -- an attempt no later than the last retry, which was answered with status 200 and no error, all
  -- attempts before it failed, each attempt was made with the one request for the frame, the
  -- model is the configured one, and the description has no injection pattern and the tags are
  -- not empty and have no comma.
  pub infer_frame-IsInferred :
      (c : WindowContext) (img : Text) (retries : ℕ) (env : InferEnv) (r : InferenceResult)
      (requests : List GenerateRequest)
      → cfg.max_retries ≡ pos retries
      → infer_frame unicode_lower cfg c (some img) env ≡ (inferred r, requests)
      → IsInferred c img retries env r requests
  unfolding infer_frame infer infer_attempts
  infer_frame-IsInferred c img retries env r requests bound h =
      let w = infer_attempts unicode_lower cfg env in
      let k = attempts cfg.max_retries in
      let o : Option Inference × ℕ = attempt_from w k 0 in
      let found =
        attempt_from-FirstAnswer w k 0 o.1 (inferred r)
          (λ i. (inference_of-inferred o.0 r (ap (λ x. x.0) h) i, o.1)) in
      let (q, model, latency) = attempt_end-inferred cfg.model _ _ r found.answer in
      let source = do_request-IsAnswer (env.answer found.at_attempt) r q in
      let (clean, tags) = answer-safe r _ source in
      record {
        at_attempt = found.at_attempt;
        bound = attempts-until found.at_attempt retries bound found.until;
        source = source;
        earlier = λ i lt. attempt_end-none cfg.model _ _ (found.earlier i (omega arith) lt);
        model = model;
        clean = clean;
        tags = tags;
        requests =
            sym (ap (λ x. x.1) h)
            ∙ ap (λ n. replicate n (inference_request unicode_lower cfg c img)) found.sent;
      }

  -- The text is ASCII, or lowering its letters does not make it longer.
  abbrev pub KeepsLength : Text → Type 0
  KeepsLength t = (is_ascii t ≡ true) ⊎ (length (to_lower unicode_lower t) ≤ length t)
