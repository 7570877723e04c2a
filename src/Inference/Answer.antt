-- ===== src/Inference/Answer.antt =====
-- internal/inference/ollama.go: from the text that the model answers to a description and tags.
pub mod Safety
pub mod Slices
pub mod Tests
use digital_ghost.Prelude.{
  ℕ, ◌+◌, ◌==◌, Text, Bool, ◌||◌, List, [], ◌∷◌, Option, none, some, is_empty, not, lit, lits, any,
  select, map, contains, to_lower, length, if◌then◌else◌,
}
use digital_ghost.Prelude.Trimming.{trim_space, trim, last_index, split, slice_to, slice_from}

pub record InferenceResult : Type 0 where
  pub description : Text
  pub tags : List Text
  pub model : Text
  pub latency_ms : ℕ

unfoldable pub injection_patterns : List Text
unfolding lits
injection_patterns = lits (
    "ignore all previous" ∷ "ignore previous" ∷ "disregard previous" ∷ "disregard all"
    ∷ "forget all previous" ∷ "new instructions:" ∷ "system prompt:" ∷ "system:" ∷ "[inst]"
    ∷ "[system]" ∷ "</s>" ∷ "[/inst]" ∷ "<|im_start|>" ∷ "<|system|>" ∷ [])

unfoldable pub placeholder : Text
unfolding lit
placeholder = lit "[screen content contained text that could not be safely stored]"

unfoldable pub tag_marker : Text
unfolding lit
tag_marker = lit "tags:"

abbrev pub is_bracket : ℕ → Bool
is_bracket c = c == b'[' || c == b']'

-- The loop over the parts of the tag line.
unfoldable pub collect_tags : Text → List Text
unfolding trim_space split
collect_tags line = select (λ t. not (is_empty t)) (map trim_space (split b',' line))

unfoldable pub tags_of : Text → List Text
unfolding collect_tags trim trim_space
tags_of rest = collect_tags (trim is_bracket (trim_space rest))

module _ (unicode_lower : Text → Text) where
  unfoldable pub sanitize_description : Text → Text
  sanitize_description desc =
      if any (λ p. contains (to_lower unicode_lower desc) p) injection_patterns
      then placeholder
      else desc

  -- The description and the tags. `none` is the panic of a slice out of bounds.
  unfoldable pub parse_description_and_tags : Text → Option (Text × List Text)
  parse_description_and_tags response =
      elim (last_index (to_lower unicode_lower response) tag_marker) [
        | none ↦ some (sanitize_description (trim_space response), [])
        | some idx ↦ elim (slice_to response idx) [
          | none ↦ none
          | some before ↦ elim (slice_from response (idx + length tag_marker)) [
            | none ↦ none
            | some after ↦ some (sanitize_description (trim_space before), tags_of after)
          ]
        ]
      ]
