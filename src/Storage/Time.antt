-- ===== src/Storage/Time.antt =====
-- time.Time as internal/storage uses it: the nanoseconds since the zero Time, which is the first of
-- January of year 1. UnixNano is an int64, kept here as its 64-bit pattern.
use digital_ghost.Prelude.{
  ℕ, ◌+◌, ◌-◌, ◌*◌, ◌/◌, ◌%◌, ◌^◌, ◌≤◌, ◌<◌, ◌≡◌, sym, ap, ◌∙◌, [], ◌∷◌, Text, arith, ltb, Bool,
  ◌==◌, if◌then◌else◌,
}

abbrev pub Time : Type 0
Time = ℕ

-- time.Unix(0, 0)
abbrev pub unix_epoch : Time
unix_epoch = 62135596800 * 1000000000

abbrev pub is_zero : Time → Bool
is_zero t = t == 0

-- t.Before(u)
abbrev pub is_before : Time → Time → Bool
is_before t u = ltb t u

-- uint64(t.UnixNano())
abbrev pub unix_nano : Time → ℕ
unix_nano t = (t + 4 * 2 ^ 64 - unix_epoch) % 2 ^ 64

-- time.Unix(0, n), for the int64 with the bit pattern n
abbrev pub from_unix_nano : ℕ → Time
from_unix_nano n = if ltb n (2 ^ 63) then unix_epoch + n else unix_epoch + n - 2 ^ 64

-- The times whose UnixNano is an int64: the years 1678 to 2262.
pub record IsNano (t : Time) : Type 0 where
  pub from : unix_epoch ≤ t + 2 ^ 63
  pub until : t < unix_epoch + 2 ^ 63

pub from_unix_nano-unix_nano : (t : Time) → IsNano t → from_unix_nano (unix_nano t) ≡ t
from_unix_nano-unix_nano t h = ground arith

pub unix_nano-lt : (t : Time) → unix_nano t < 2 ^ 64
unix_nano-lt t = omega arith

-- binary.BigEndian.PutUint64
abbrev pub big_endian : ℕ → Text
big_endian n =
    n / 2 ^ 56 % 256
    ∷ n / 2 ^ 48 % 256
    ∷ n / 2 ^ 40 % 256
    ∷ n / 2 ^ 32 % 256
    ∷ n / 2 ^ 24 % 256
    ∷ n / 2 ^ 16 % 256
    ∷ n / 2 ^ 8 % 256
    ∷ n % 256
    ∷ []

-- binary.BigEndian.Uint64
abbrev from_bytes : ℕ → Text → ℕ
from_bytes acc [] = acc
from_bytes acc (b ∷ bs) = from_bytes (acc * 256 + b) bs

from_bytes-big_endian : (n : ℕ) → n < 2 ^ 64 → from_bytes 0 (big_endian n) ≡ n
from_bytes-big_endian n h = omega arith

pub big_endian-injective : (m n : ℕ) → m < 2 ^ 64 → n < 2 ^ 64 → big_endian m ≡ big_endian n → m ≡ n
big_endian-injective m n hm hn e =
    sym (from_bytes-big_endian m hm) ∙ ap (from_bytes 0) e ∙ from_bytes-big_endian n hn

pub from_unix_nano-IsNano : (n : ℕ) → n < 2 ^ 64 → IsNano (from_unix_nano n)
from_unix_nano-IsNano n h = record { from = ground arith; until = ground arith }
