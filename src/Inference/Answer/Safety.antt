-- ===== src/Inference/Answer/Safety.antt =====
-- What is left in a description and in the tags of an answer.
use mathlib.Core.List.{reverse, reverse_aux}
use digital_ghost.Prelude.{
  ℕ, zero, suc, ◌==◌, ◌≡◌, ◌≢◌, refl, inl, inr, Text, true, false, List, [], ◌∷◌, ◌++◌, Option,
  none, some, arith, is_empty, not, lit, ◌+◌, length, any, select, map, All, contains,
  contains-append, to_lower, Bool-cases, Option-cases,
}
use digital_ghost.Prelude.Trimming.{
  trim_space, trim, skip_spaces, space_len, last_space_len, split, put_first, slice_to, slice_from,
  last_index,
}
use digital_ghost.Inference.Answer.{
  injection_patterns, placeholder, collect_tags, tags_of, sanitize_description,
  parse_description_and_tags, is_bracket, tag_marker,
}

abbrev pub Lacks : ℕ → Text → Type 0
Lacks c = All (λ b. (b == c) ≡ false)

-- No injection pattern stands in the lowered text.
abbrev pub IsClean : (Text → Text) → Text → Type 0
IsClean unicode_lower d =
    All (λ p. (u v : Text) → to_lower unicode_lower d ≢ u ++ (p ++ v)) injection_patterns

-- A tag is not empty and has no comma.
abbrev pub IsTag : Text → Type 0
IsTag t = (is_empty t ≡ false) × Lacks b',' t

lacking :
    (s : Text) (ps : List Text)
    → any (λ p. contains s p) ps ≡ false
    → All (λ p. (u v : Text) → s ≢ u ++ (p ++ v)) ps
lacking s [] h = tt
lacking s (p ∷ ps) h = (
  λ u v e. let found : contains s p ≡ true = rw e (contains-append u p v) in ground arith,
  lacking s ps (ground arith),
)

module _ (unicode_lower : Text → Text) where
  placeholder_clean :
      any (λ p. contains (to_lower unicode_lower placeholder) p) injection_patterns ≡ false
  unfolding placeholder lit injection_patterns to_lower contains
  placeholder_clean = refl

  pub sanitize-IsClean : (d : Text) → IsClean unicode_lower (sanitize_description unicode_lower d)
  unfolding sanitize_description
  sanitize-IsClean d =
      elim (Bool-cases (any (λ p. contains (to_lower unicode_lower d) p) injection_patterns)) [
        | inl e ↦ rw e (lacking _ injection_patterns placeholder_clean)
        | inr e ↦ rw e (lacking _ injection_patterns e)
      ]

module _ (P : ℕ → Type 0) where
  All-reverse_aux : (xs ys : Text) → All P xs → All P ys → All P (reverse_aux xs ys)
  All-reverse_aux [] ys h k = k
  All-reverse_aux (x ∷ xs) ys (p, h) k = All-reverse_aux xs (x ∷ ys) h (p, k)

  All-reverse : (xs : Text) → All P xs → All P (reverse xs)
  All-reverse xs h = All-reverse_aux xs [] h tt

  All-skip_spaces : (len : Text → ℕ) (k : ℕ) (s : Text) → All P s → All P (skip_spaces len k s)
  unfolding skip_spaces
  All-skip_spaces len zero [] h = tt
  All-skip_spaces len (suc k) [] h = tt
  All-skip_spaces len (suc k) (c ∷ s) h = All-skip_spaces len k s h.1
  All-skip_spaces len zero (c ∷ s) h =
      elim (len (c ∷ s)) as (λ n. All P (elim n [ zero ↦ c ∷ s | suc k ↦ skip_spaces len k s ])) [
        | zero ↦ h
        | suc k ↦ All-skip_spaces len k s h.1
      ]

  All-trim_space : (s : Text) → All P s → All P (trim_space s)
  unfolding trim_space
  All-trim_space s h =
      All-reverse _
        (All-skip_spaces last_space_len 0 _ (All-reverse _ (All-skip_spaces space_len 0 s h)))

put_first-Lacks :
    (c b : ℕ) (ps : List Text)
    → (b == c) ≡ false
    → All (Lacks c) ps
    → All (Lacks c) (put_first b ps)
put_first-Lacks c b [] e h = ((e, tt), tt)
put_first-Lacks c b (p ∷ ps) e (h, hs) = ((e, h), hs)

split-Lacks : (c : ℕ) (s : Text) → All (Lacks c) (split c s)
unfolding split
split-Lacks c [] = (tt, tt)
split-Lacks c (b ∷ s) = elim (Bool-cases (b == c)) [
  | inl e ↦ rw e (tt, split-Lacks c s)
  | inr e ↦ rw e (put_first-Lacks c b (split c s) e (split-Lacks c s))
]

tags-IsTag :
    (ps : List Text)
    → All (Lacks b',') ps
    → All IsTag (select (λ t. not (is_empty t)) (map trim_space ps))
tags-IsTag [] h = tt
tags-IsTag (p ∷ ps) (h, hs) = elim (Bool-cases (is_empty (trim_space p))) [
  | inl e ↦ rw e (tags-IsTag ps hs)
  | inr e ↦ rw e ((e, All-trim_space (λ b. (b == b',') ≡ false) p h), tags-IsTag ps hs)
]

collect_tags-IsTag : (line : Text) → All IsTag (collect_tags line)
unfolding collect_tags
collect_tags-IsTag line = tags-IsTag (split b',' line) (split-Lacks b',' line)

-- The properties of an answer that was parsed; a panic has none.
abbrev pub IsSafe : (Text → Text) → Option (Text × List Text) → Type 0
IsSafe unicode_lower none = Unit
IsSafe unicode_lower (some (d, tags)) = IsClean unicode_lower d × All IsTag tags

-- If the parser of an answer of the model returns, the description has no injection pattern in
-- it, whatever the case of its letters, and the tags are not empty and have no comma, whatever
-- the model answered.
pub parse-IsSafe :
    (unicode_lower : Text → Text) (response : Text)
    → IsSafe unicode_lower (parse_description_and_tags unicode_lower response)
unfolding parse_description_and_tags tags_of
parse-IsSafe ul r = elim (Option-cases (last_index (to_lower ul r) tag_marker)) [
  | inl e ↦ rw (e, IsSafe) (sanitize-IsClean ul (trim_space r), tt)
  | inr (idx, e) ↦
      rw (e, IsSafe)
        (elim (Option-cases (slice_to r idx)) [
          | inl q ↦ rw (q, IsSafe) tt
          | inr (before, q) ↦
              rw (q, IsSafe)
                (elim (Option-cases (slice_from r (idx + length tag_marker))) [
                  | inl z ↦ rw (z, IsSafe) tt
                  | inr (after, z) ↦
                      rw (z, IsSafe)
                        (
                          sanitize-IsClean ul (trim_space before),
                          collect_tags-IsTag (trim is_bracket (trim_space after)),
                        )
                ])
        ])
]
