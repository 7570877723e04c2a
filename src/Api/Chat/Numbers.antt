-- ===== src/Api/Chat/Numbers.antt =====
-- The numbers of the memories in a prompt, read back by the digits of strconv.Atoi.
use digital_ghost.Prelude.{
  ℕ, zero, suc, ◌+◌, ◌-◌, ◌*◌, ◌/◌, ◌%◌, ◌<◌, ltb, ◌≡◌, ap, ◌∙◌, inl, inr, Text, [], ◌∷◌, ◌++◌,
  some, arith, Bool-cases,
}
use digital_ghost.Api.Timeline.{digits_from}
use digital_ghost.Api.Chat.Prompts.{digits, decimal}

digits_from-snoc :
    (a m d : ℕ) (s : Text)
    → d < 10
    → digits_from a s ≡ some m
    → digits_from a (s ++ (b'0' + d) ∷ []) ≡ some (m * 10 + d)
unfolding digits_from
digits_from-snoc a m d [] h e = ground arith
digits_from-snoc a m d (c ∷ s) h e = ground (arith, digits_from-snoc (a * 10 + (c - b'0')) m d s h)

digits_from-digits : (f n : ℕ) → n < f → digits_from 0 (digits f n) ≡ some n
unfolding digits_from
digits_from-digits zero n h = absurd (omega arith)
digits_from-digits (suc f) n h = elim (Bool-cases (ltb n 10)) [
  | inl e ↦ ground (arith)
  | inr e ↦
      rw (digits, e)
        (digits_from-snoc 0 (n / 10) (n % 10) (digits f (n / 10)) (omega arith)
            (digits_from-digits f (n / 10) (ground arith))
          ∙ ap (λ k. some k) (omega arith))
]

-- The digits of a number read back as that number, so that none is missing.
digits_from-decimal : (n : ℕ) → digits_from 0 (decimal n) ≡ some n
unfolding decimal
digits_from-decimal n = digits_from-digits (suc n) n (omega arith)
