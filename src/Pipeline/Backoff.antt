-- ===== src/Pipeline/Backoff.antt =====
-- How long the inference loop waits after failures in a row.
use digital_ghost.Prelude.{
  ℕ, zero, suc, ◌+◌, ◌*◌, ◌^◌, ◌<◌, min, ◌≡◌, refl, Bool, true, false, ◌&&◌, ◌==◌, ==_iff, &&_iff,
  arith, Bool-cases, inl, inr,
}
use digital_ghost.Pipeline.{backoff}

-- The test holds for all numbers below a bound.
abbrev all_below : (ℕ → Bool) → ℕ → Bool
all_below f zero = true
all_below f (suc n) = f n && all_below f n

below_ne : (k n : ℕ) → (k == n) ≡ false → k < suc n → k < n
below_ne k n e lt = ground arith

below : (f : ℕ → Bool) (n k : ℕ) → all_below f n ≡ true → k < n → f k ≡ true
below f zero k h lt = absurd (omega arith)
below f (suc n) k h lt = elim (Bool-cases (k == n)) [
  | inl e ↦ rw ((==_iff k n).0 e) ((&&_iff (f n) (all_below f n)).0 h).0
  | inr e ↦ below f n k ((&&_iff (f n) (all_below f n)).0 h).1 (below_ne k n e lt)
]

-- A doubling wait from 2 seconds, at most 60.
abbrev pub is_doubling : ℕ → Bool
is_doubling k = backoff (k + 1) == min (2 ^ (k + 1) * 1000000000) 60000000000

doubling_below : all_below is_doubling 33 ≡ true
unfolding backoff
doubling_below = refl

none_below : all_below (λ k. backoff (k + 55) == 0) 9 ≡ true
unfolding backoff
none_below = refl

-- The wait after 1 to 33 failures in a row is 2, 4, 8, 16 and 32 seconds and then 60.
backoff_doubles : (k : ℕ) → k < 33 → backoff (k + 1) ≡ min (2 ^ (k + 1) * 1000000000) 60000000000
backoff_doubles k h = (==_iff _ _).0 (below is_doubling 33 k doubling_below h)

-- There is no wait after 34 failures in a row, nor after 55 to 63.
backoff_overflows : (k : ℕ) → k < 9 → (backoff 34 ≡ 0) × (backoff (k + 55) ≡ 0)
unfolding backoff
backoff_overflows k h = (refl, (==_iff _ _).0 (below (λ j. backoff (j + 55) == 0) 9 k none_below h))
