-- ===== src/Inference/Answer/Slices.antt =====
-- Whether the slices of an answer stay inside it.
use digital_ghost.Prelude.{
  ℕ, zero, suc, ◌+◌, ◌*◌, ◌≤◌, ◌<◌, ◌≡◌, refl, ap, inl, inr, Text, true, List, [], ◌∷◌, ◌++◌, none,
  some, arith, lit, map, length, take, drop, has_prefix, to_lower, is_ascii, lower_byte,
  Option-cases,
}
use digital_ghost.Prelude.Trimming.{slice_to, slice_from, last_index, trim_space}
use digital_ghost.Inference.Answer.{
  tag_marker, tags_of, sanitize_description, parse_description_and_tags,
}

pub length-map : (f : ℕ → ℕ) (s : Text) → length (map f s) ≡ length s
length-map f [] = refl
length-map f (c ∷ s) = ap suc (length-map f s)

has_prefix-le : (s p : Text) → has_prefix s p ≡ true → length p ≤ length s
unfolding has_prefix
has_prefix-le s [] h = omega arith
has_prefix-le [] (c ∷ p) h = ground arith
has_prefix-le (x ∷ s) (c ∷ p) h = ground (arith, has_prefix-le s p)

last_index-le : (s p : Text) (i : ℕ) → last_index s p ≡ some i → i + length p ≤ length s
unfolding last_index
last_index-le [] p i h = ground (arith, has_prefix-le [] p)
last_index-le (c ∷ s) p i h = elim (Option-cases (last_index s p)) [
  | inl e ↦ ground (arith, has_prefix-le (c ∷ s) p)
  | inr (n, e) ↦ ground (arith, last_index-le s p n e)
]

slice_to-some : (s : Text) (n : ℕ) → n ≤ length s → slice_to s n ≡ some (take n s)
unfolding slice_to
slice_to-some s n h = ground arith

slice_from-some : (s : Text) (n : ℕ) → n ≤ length s → slice_from s n ≡ some (drop n s)
unfolding slice_from
slice_from-some s n h = ground arith

slice_to-none : (s : Text) (n : ℕ) → length s < n → slice_to s n ≡ none
unfolding slice_to
slice_to-none s n h = ground arith

-- The parser returns, without a panic, if the lowered answer is not longer than the answer.
pub parse-returns :
    (unicode_lower : Text → Text) (response : Text)
    → length (to_lower unicode_lower response) ≤ length response
    → (r : Text × List Text) × (parse_description_and_tags unicode_lower response ≡ some r)
unfolding parse_description_and_tags
parse-returns ul r h = elim (Option-cases (last_index (to_lower ul r) tag_marker)) [
  | inl e ↦ ((sanitize_description ul (trim_space r), []), rw (e, parse_description_and_tags))
  | inr (i, e) ↦
      let fits = last_index-le (to_lower ul r) tag_marker i e in
      (
        (sanitize_description ul (trim_space (take i r)), tags_of (drop (i + length tag_marker) r)),
        rw (e, parse_description_and_tags)
            (rw
              (
                slice_to-some r i (omega arith),
                slice_from-some r (i + length tag_marker) (omega arith),
              )
              refl),
      )
]

pub parse-returns_ascii :
    (unicode_lower : Text → Text) (response : Text)
    → is_ascii response ≡ true
    → (r : Text × List Text) × (parse_description_and_tags unicode_lower response ≡ some r)
parse-returns_ascii ul r h =
    parse-returns ul r (unfold to_lower in rw h (omega (arith, length-map lower_byte r)))

-- U+023A, a capital A with a stroke, and U+2C65, its lower case.
abbrev pub repeat : ℕ → Text → Text → Text
repeat zero p s = s
repeat (suc n) p s = p ++ repeat n p s

abbrev pub capital : Text
capital = 200 ∷ 186 ∷ []

abbrev pub small : Text
small = 226 ∷ 177 ∷ 165 ∷ []

last_index-repeat : (n : ℕ) → last_index (repeat n small tag_marker) tag_marker ≡ some (3 * n)
unfolding last_index tag_marker lit has_prefix
last_index-repeat zero = refl
last_index-repeat (suc n) = ground (arith, last_index-repeat n)

length-repeat : (n : ℕ) → length (repeat n capital (lit "TAGS:")) ≡ 2 * n + 5
unfolding lit
length-repeat zero = refl
length-repeat (suc n) = omega (arith, length-repeat n)

to_lower-repeat :
    (ul : Text → Text) (n : ℕ)
    → 0 < n
    → to_lower ul (repeat n capital (lit "TAGS:")) ≡ ul (repeat n capital (lit "TAGS:"))
unfolding to_lower
to_lower-repeat ul zero h = absurd (omega arith)
to_lower-repeat ul (suc n) h = refl

-- If strings.ToLower makes U+2C65 of each U+023A, as Unicode has it, an answer of six or more of
-- these letters and the marker for the tags panics.
parse-panics :
    (unicode_lower : Text → Text) (n : ℕ)
    → 5 < n
    → unicode_lower (repeat n capital (lit "TAGS:")) ≡ repeat n small tag_marker
    → parse_description_and_tags unicode_lower (repeat n capital (lit "TAGS:")) ≡ none
unfolding parse_description_and_tags
parse-panics ul n h e =
    rw (parse_description_and_tags, to_lower-repeat ul n (omega arith), e, last_index-repeat n)
      (rw (slice_to-none (repeat n capital (lit "TAGS:")) (3 * n) (omega (arith, length-repeat n)))
        refl)
