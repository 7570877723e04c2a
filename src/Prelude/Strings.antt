-- ===== src/Prelude/Strings.antt =====
-- Go strings as lists of bytes, with the operations of package `strings` that the program calls.
-- `unicode_lower` stands for the letter tables of Go's package `unicode`, which `strings.ToLower`
-- consults for a text with a byte of 128 or more.
use Prim.Native.Nat.{ℕ, ◌+◌, ◌/◌, ◌%◌}
use Prim.Native.Char.{code}
use Prim.Native.String.{String}
use mathlib.Core.Path.{◌≡◌, refl}
use mathlib.Core.Logic.{◌↔◌, inl, inr}
use mathlib.Core.Bool.{Bool, true, false, ◌&&◌, ◌||◌}
use mathlib.Core.List.{List, [], ◌∷◌, ◌++◌, map}
use native.Mathlib.Omega.{arith}
use digital_ghost.Prelude.Tests.{ltb, leb, ◌==◌, if◌then◌else◌, Bool-cases}

abbrev pub Text : Type 0
Text = List ℕ

-- The UTF-8 bytes of a code point.
utf8 : ℕ → List ℕ
utf8 c =
    if ltb c 128
    then c ∷ []
    else if ltb c 2048
    then (192 + c / 64) ∷ (128 + c % 64) ∷ []
    else if ltb c 65536
    then (224 + c / 4096) ∷ (128 + c / 64 % 64) ∷ (128 + c % 64) ∷ []
    else (240 + c / 262144) ∷ (128 + c / 4096 % 64) ∷ (128 + c / 64 % 64) ∷ (128 + c % 64) ∷ []

-- A string literal of the source.
unfoldable pub lit : String → Text
unfolding utf8
lit String.[] = []
lit (String.◌∷◌ c s) = utf8 (code c) ++ lit s

unfoldable pub lits : List String → List Text
unfolding lit
lits [] = []
lits (s ∷ l) = lit s ∷ lits l

unfoldable pub text_eq : Text → Text → Bool
text_eq [] [] = true
text_eq [] (b ∷ t) = false
text_eq (a ∷ s) [] = false
text_eq (a ∷ s) (b ∷ t) = a == b && text_eq s t

pub text_eq_refl : (s : Text) → text_eq s s ≡ true
unfolding text_eq
text_eq_refl [] = refl
text_eq_refl (a ∷ s) = ground (arith, text_eq_refl s)

pub text_eq→≡ : (s t : Text) → text_eq s t ≡ true → s ≡ t
unfolding text_eq
text_eq→≡ [] [] h = refl
text_eq→≡ [] (b ∷ t) h = ground arith
text_eq→≡ (a ∷ s) [] h = ground arith
text_eq→≡ (a ∷ s) (b ∷ t) h = ground (arith, text_eq→≡ s t)

pub text_eq_iff : (s t : Text) → (text_eq s t ≡ true) ↔ (s ≡ t)
text_eq_iff s t = (text_eq→≡ s t, λ e. rw e (text_eq_refl t))

abbrev pub is_empty : Text → Bool
is_empty [] = true
is_empty (c ∷ s) = false

-- strings.HasPrefix(s, p), strings.Contains(s, p)
unfoldable pub has_prefix : Text → Text → Bool
has_prefix s [] = true
has_prefix [] (c ∷ p) = false
has_prefix (x ∷ s) (c ∷ p) = x == c && has_prefix s p

unfoldable pub contains : Text → Text → Bool
unfolding has_prefix
contains [] p = has_prefix [] p
contains (x ∷ s) p = has_prefix (x ∷ s) p || contains s p

abbrev pub lower_byte : ℕ → ℕ
lower_byte c = if leb b'A' c && leb c b'Z' then c + 32 else c

unfoldable pub is_ascii : Text → Bool
is_ascii [] = true
is_ascii (c ∷ s) = ltb c 128 && is_ascii s

-- strings.ToLower: the path for ASCII, and the Unicode tables for the rest.
unfoldable pub to_lower : (unicode_lower : Text → Text) → Text → Text
unfolding is_ascii
to_lower unicode_lower s = if is_ascii s then map lower_byte s else unicode_lower s

has_prefix-append : (p v : Text) → has_prefix (p ++ v) p ≡ true
unfolding has_prefix
has_prefix-append [] [] = refl
has_prefix-append [] (x ∷ v) = refl
has_prefix-append (c ∷ p) v = ground (arith, has_prefix-append p v)

-- What stands in the middle of a text is contained in it.
pub contains-append : (u p v : Text) → contains (u ++ (p ++ v)) p ≡ true
unfolding contains
contains-append [] [] [] = refl
contains-append [] [] (x ∷ v) = refl
contains-append [] (c ∷ p) v = ground (arith, has_prefix-append (c ∷ p) v)
contains-append (x ∷ u) p v = ground (arith, contains-append u p v)

prefix_rest : (s p : Text) → has_prefix s p ≡ true → (v : Text) × (s ≡ p ++ v)
unfolding has_prefix
prefix_rest s [] h = (s, refl)
prefix_rest [] (c ∷ p) h = absurd (ground arith)
prefix_rest (x ∷ s) (c ∷ p) h = let (v, e) = prefix_rest s p (ground arith) in (v, ground arith)

-- A text that contains `p` is something, `p`, and something.
pub contains_parts :
    (s p : Text) → contains s p ≡ true → (u : Text) × (v : Text) × (s ≡ u ++ (p ++ v))
unfolding contains
contains_parts [] p h = let (v, e) = prefix_rest [] p h in ([], v, e)
contains_parts (x ∷ s) p h = elim (Bool-cases (has_prefix (x ∷ s) p)) [
  | inl e ↦ let (v, q) = prefix_rest (x ∷ s) p e in ([], v, q)
  | inr e ↦ let (u, v, q) = contains_parts s p (rw e at h) in (x ∷ u, v, ground arith)
]
