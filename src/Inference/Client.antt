-- ===== src/Inference/Client.antt =====
-- internal/inference/ollama.go: the check of the model at the start, and the attempts of an inference.
-- The answers of the server are arguments.
pub mod Laws
pub mod Tests
use digital_ghost.Prelude.{
  ℕ, zero, suc, ◌+◌, ◌==◌, ℤ, pos, negsuc, Text, Bool, true, false, List, [], ◌∷◌, Option, none,
  some, is_empty, not, ◌&&◌, text_eq, find?, if◌then◌else◌,
}
use digital_ghost.Prelude.Result.{Result, ok, err}

pub record ModelEntry : Type 0 where
  pub name : Text
  pub digest : Text

-- What comes of a request for /api/tags: no response, or a status and, if it decodes, a list of models.
pub data TagsAnswer : Type 0 where
  no_response : TagsAnswer
  response : (status : ℕ) → Option (List ModelEntry) → TagsAnswer

pub data ModelError : Type 0 where
  unreachable bad_status not_decoded not_loaded digest_mismatch : ModelError

abbrev pub digest_of : Option ModelEntry → Text
digest_of none = []
digest_of (some m) = m.digest

-- The digest of the first entry with the name, or the empty text.
unfoldable pub actual_digest : Text → List ModelEntry → Text
actual_digest model models = digest_of (find? (λ m. text_eq m.name model) models)

-- `pinned` is model_digest of the configuration, empty where no digest is pinned.
unfoldable pub check_digest : (pinned : Text) → Text → Result ModelError Text
check_digest pinned actual =
    if is_empty actual
    then err not_loaded
    else if not (is_empty pinned) && not (text_eq actual pinned)
    then err digest_mismatch
    else ok actual

unfoldable pub verify_model : (model pinned : Text) → TagsAnswer → Result ModelError Text
verify_model model pinned no_response = err unreachable
verify_model model pinned (response status body) =
    if not (status == 200) then err bad_status else elim body [
      | none ↦ err not_decoded
      | some models ↦ check_digest pinned (actual_digest model models)
    ]

-- What comes of the attempt `n`: an answer of the model, or none, and whether the context ends in the
-- wait before it.
pub record Attempts (A : Type 0) : Type 0 where
  pub answer : ℕ → Option A
  pub cancelled : ℕ → Bool

-- The attempts from `n` on, of which `k` are left, and how many attempts were made in all.
unfoldable pub attempt_from : {A : Type 0} → Attempts A → (k n : ℕ) → Option A × ℕ
attempt_from w zero n = (none, n)
attempt_from w (suc k) n =
    let rest = attempt_from w k (suc n) in
    if not (n == 0) && w.cancelled n
    then (none, n)
    else elim (w.answer n) [ some a ↦ (some a, suc n) | none ↦ rest ]

-- `for attempt := 0; attempt <= max_retries; attempt++`
abbrev pub attempts : ℤ → ℕ
attempts (pos n) = suc n
attempts (negsuc n) = 0

unfoldable pub infer : {A : Type 0} → (max_retries : ℤ) → Attempts A → Option A × ℕ
infer max_retries w = attempt_from w (attempts max_retries) 0
