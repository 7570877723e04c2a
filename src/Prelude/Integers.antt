-- ===== src/Prelude/Integers.antt =====
-- Go's int: the tests against a constant that is not negative, and of two ints.
use Prim.Native.Nat.{ℕ, ◌≤◌}
use mathlib.Core.Path.{◌≡◌, refl}
use mathlib.Core.Logic.{◌↔◌}
use mathlib.Core.Bool.{Bool, true, false}
use native.Mathlib.Omega.{arith}
use digital_ghost.Prelude.Tests.{ltb}

-- `negsuc n` is -(n + 1).
pub data ℤ : Type 0 where
  pos negsuc : ℕ → ℤ

-- z > n, z < n
abbrev pub exceeds : ℤ → ℕ → Bool
exceeds (pos m) n = ltb n m
exceeds (negsuc m) n = false

abbrev pub is_below : ℤ → ℕ → Bool
is_below (pos m) n = ltb m n
is_below (negsuc m) n = true

-- y < z
abbrev pub ltℤ : ℤ → ℤ → Bool
ltℤ (pos m) (pos n) = ltb m n
ltℤ (pos m) (negsuc n) = false
ltℤ (negsuc m) (pos n) = true
ltℤ (negsuc m) (negsuc n) = ltb n m

abbrev pub AtLeast : ℕ → ℤ → Type 0
AtLeast lo (pos m) = lo ≤ m
AtLeast lo (negsuc m) = ⊥

abbrev pub AtMost : ℕ → ℤ → Type 0
AtMost hi (pos m) = m ≤ hi
AtMost hi (negsuc m) = Unit

pub exceeds_iff : (z : ℤ) (n : ℕ) → (exceeds z n ≡ false) ↔ AtMost n z
exceeds_iff (pos m) n = ground arith
exceeds_iff (negsuc m) n = (λ h. tt, λ h. refl)

pub is_below_iff : (z : ℤ) (n : ℕ) → (is_below z n ≡ false) ↔ AtLeast n z
is_below_iff (pos m) n = ground arith
is_below_iff (negsuc m) n = (λ h. absurd cc, λ h. absurd h)

-- A number at most another that is at most `n`.
pub AtMost-trans : (y z : ℤ) (n : ℕ) → ltℤ z y ≡ false → AtMost n z → AtMost n y
AtMost-trans (pos m) (pos k) n h b = ground arith
AtMost-trans (pos m) (negsuc k) n h b = absurd cc
AtMost-trans (negsuc m) z n h b = tt
