-- ===== src/Pipeline/Ids.antt =====
-- The IDs of new nodes: the random bytes with the version and the variant of a UUID.
use digital_ghost.Prelude.{
  ℕ, zero, suc, ◌+◌, ◌%◌, ◌==◌, ◌≡◌, refl, ◌∙◌, ap, Text, [], ◌∷◌, Option, none, some, Option-cases,
  arith, if◌then◌else◌, inl, inr,
}
use digital_ghost.Pipeline.{set_byte, uuid}

abbrev pub get_elem? : Text → ℕ → Option ℕ
get_elem? [] i = none
get_elem? (b ∷ s) zero = some b
get_elem? (b ∷ s) (suc i) = get_elem? s i

-- The byte number `i` of the ID, of the random byte.
abbrev pub uuid_byte : ℕ → ℕ → ℕ
uuid_byte i b = if i == 6 then b % 16 + 64 else if i == 8 then b % 64 + 128 else b

abbrev pub map_byte : (ℕ → ℕ) → Option ℕ → Option ℕ
map_byte f none = none
map_byte f (some b) = some (f b)

-- Byte by byte, the ID is the random text with version 4 in byte 6 and the variant in byte 8.
abbrev pub IsUuid : (raw id : Text) → Type 0
IsUuid raw id = (i : ℕ) → get_elem? id i ≡ map_byte (uuid_byte i) (get_elem? raw i)

abbrev set_at : (n keep bits i b : ℕ) → ℕ
set_at n keep bits i b = if i == n then b % keep + bits else b

get_elem-set_byte :
    (n keep bits : ℕ) (s : Text) (i : ℕ)
    → get_elem? (set_byte n keep bits s) i ≡ map_byte (set_at n keep bits i) (get_elem? s i)
get_elem-set_byte n keep bits [] i = refl
get_elem-set_byte zero keep bits (b ∷ s) zero = refl
get_elem-set_byte zero keep bits (b ∷ s) (suc i) = elim (Option-cases (get_elem? s i)) [
  | inl e ↦ rw e refl
  | inr (c, e) ↦ rw e (ground arith)
]
get_elem-set_byte (suc n) keep bits (b ∷ s) zero = ground arith
get_elem-set_byte (suc n) keep bits (b ∷ s) (suc i) = elim (Option-cases (get_elem? s i)) [
  | inl e ↦ get_elem-set_byte n keep bits s i ∙ rw e refl
  | inr (c, e) ↦ get_elem-set_byte n keep bits s i ∙ rw e (ground arith)
]

pub uuid-IsUuid : (raw : Text) → IsUuid raw (uuid raw)
unfolding uuid
uuid-IsUuid raw i =
    get_elem-set_byte 8 64 128 (set_byte 6 16 64 raw) i
    ∙ ap (map_byte (set_at 8 64 128 i)) (get_elem-set_byte 6 16 64 raw i)
    ∙ elim (Option-cases (get_elem? raw i)) [ inl e ↦ rw e refl | inr (b, e) ↦ rw e (ground arith) ]
