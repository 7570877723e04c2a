-- ===== src/Prelude/Trimming.antt =====
-- More of Go's package `strings`: TrimSpace, Trim, LastIndex and Split, and the slices of a text.
use Prim.Native.Nat.{ℕ, zero, suc}
use mathlib.Core.Bool.{Bool, ◌&&◌, ◌||◌}
use mathlib.Core.Option.{Option, none, some}
use mathlib.Core.List.{List, [], ◌∷◌, reverse}
use digital_ghost.Prelude.Tests.{leb, ◌==◌, if◌then◌else◌}
use digital_ghost.Prelude.Lists.{length, take, drop}
use digital_ghost.Prelude.Strings.{Text, has_prefix}

abbrev pub is_ascii_space : ℕ → Bool
is_ascii_space c = c == 32 || (leb 9 c && leb c 13)

-- The three-byte spaces of unicode.IsSpace: U+1680, U+2000 to U+200A, U+2028, U+2029, U+202F,
-- U+205F and U+3000.
abbrev is_wide_space : ℕ → ℕ → ℕ → Bool
is_wide_space a b c =
    (a == 225 && b == 154 && c == 128)
    || (a == 226 && b == 128 && (leb 128 c && leb c 138 || c == 168 || c == 169 || c == 175))
    || (a == 226 && b == 129 && c == 159)
    || (a == 227 && b == 128 && c == 128)

-- How many bytes the space at the start of a text has; 0 if there is none. U+0085 and U+00A0 have two.
unfoldable pub space_len : Text → ℕ
space_len [] = 0
space_len (a ∷ []) = if is_ascii_space a then 1 else 0
space_len (a ∷ b ∷ []) =
    if is_ascii_space a then 1 else if a == 194 && (b == 133 || b == 160) then 2 else 0
space_len (a ∷ b ∷ c ∷ s) =
    if is_ascii_space a
    then 1
    else if a == 194 && (b == 133 || b == 160)
    then 2
    else if is_wide_space a b c
    then 3
    else 0

-- The same at the end of a text, whose bytes come in reverse.
unfoldable pub last_space_len : Text → ℕ
last_space_len [] = 0
last_space_len (a ∷ []) = if is_ascii_space a then 1 else 0
last_space_len (b ∷ a ∷ []) =
    if is_ascii_space b then 1 else if a == 194 && (b == 133 || b == 160) then 2 else 0
last_space_len (c ∷ b ∷ a ∷ s) =
    if is_ascii_space c
    then 1
    else if b == 194 && (c == 133 || c == 160)
    then 2
    else if is_wide_space a b c
    then 3
    else 0

-- The text behind its first spaces, of which `k` bytes are still to skip.
unfoldable pub skip_spaces : (Text → ℕ) → ℕ → Text → Text
skip_spaces len k [] = []
skip_spaces len (suc k) (c ∷ s) = skip_spaces len k s
skip_spaces len zero (c ∷ s) = elim (len (c ∷ s)) [ zero ↦ c ∷ s | suc k ↦ skip_spaces len k s ]

-- strings.TrimSpace
unfoldable pub trim_space : Text → Text
unfolding space_len last_space_len skip_spaces
trim_space s = reverse (skip_spaces last_space_len 0 (reverse (skip_spaces space_len 0 s)))

unfoldable pub trim_left : (ℕ → Bool) → Text → Text
trim_left f [] = []
trim_left f (c ∷ s) = let rest = trim_left f s in if f c then rest else c ∷ s

-- strings.Trim for a cutset of ASCII bytes
unfoldable pub trim : (ℕ → Bool) → Text → Text
unfolding trim_left
trim f s = reverse (trim_left f (reverse (trim_left f s)))

-- strings.LastIndex, where `none` is -1
unfoldable pub last_index : Text → Text → Option ℕ
unfolding has_prefix
last_index [] p = if has_prefix [] p then some 0 else none
last_index (c ∷ s) p = elim (last_index s p) [
  | some n ↦ some (suc n)
  | none ↦ if has_prefix (c ∷ s) p then some 0 else none
]

abbrev pub put_first : ℕ → List Text → List Text
put_first c [] = (c ∷ []) ∷ []
put_first c (p ∷ ps) = (c ∷ p) ∷ ps

-- strings.Split at one byte
unfoldable pub split : ℕ → Text → List Text
split sep [] = [] ∷ []
split sep (c ∷ s) = let rest = split sep s in if c == sep then [] ∷ rest else put_first c rest

-- s[:n] and s[n:], where `none` is the panic of a slice out of bounds
unfoldable pub slice_to : Text → ℕ → Option Text
slice_to s n = if leb n (length s) then some (take n s) else none

unfoldable pub slice_from : Text → ℕ → Option Text
slice_from s n = if leb n (length s) then some (drop n s) else none
