-- ===== src/Storage/Hex.antt =====
-- encoding/hex as internal/storage uses it, and node IDs.
use digital_ghost.Prelude.{
  ℕ, ◌+◌, ◌-◌, ◌*◌, ◌/◌, ◌%◌, ◌<◌, ◌≡◌, refl, sym, ap, ◌∙◌, [], ◌∷◌, Text, arith, ltb, leb, ◌&&◌,
  ◌==◌, if◌then◌else◌, Option, none, some, length, All,
}

-- [16]byte
abbrev pub NodeId : Type 0
NodeId = Text

pub record IsNodeId (id : NodeId) : Type 0 where
  pub length : length id ≡ 16
  pub bytes : All (λ b. b < 256) id

abbrev hex_digit : ℕ → ℕ
hex_digit n = if ltb n 10 then b'0' + n else b'a' + (n - 10)

abbrev digit_value : ℕ → Option ℕ
digit_value c =
    if leb b'0' c && leb c b'9'
    then some (c - b'0')
    else if leb b'a' c && leb c b'f'
    then some (c - b'a' + 10)
    else if leb b'A' c && leb c b'F'
    then some (c - b'A' + 10)
    else none

-- hex.EncodeToString
unfoldable pub hex_encode : Text → Text
hex_encode [] = []
hex_encode (b ∷ s) = hex_digit (b / 16) ∷ hex_digit (b % 16) ∷ hex_encode s

-- The byte of two digits before the bytes of the rest.
abbrev add_byte : Option ℕ → Option ℕ → Option Text → Option Text
add_byte (some h) (some l) (some s) = some ((16 * h + l) ∷ s)
add_byte (some h) (some l) none = none
add_byte (some h) none s = none
add_byte none l s = none

-- hex.DecodeString
unfoldable pub hex_decode : Text → Option Text
hex_decode [] = some []
hex_decode (c ∷ []) = none
hex_decode (c ∷ d ∷ s) = add_byte (digit_value c) (digit_value d) (hex_decode s)

-- `idBytes, err := hex.DecodeString(e.ID); err != nil || len(idBytes) != 16`
unfoldable pub parse_node_id : Text → Option NodeId
parse_node_id s = elim (hex_decode s) [
  | none ↦ none
  | some id ↦ if length id == 16 then some id else none
]

digit_value-hex_digit : (n : ℕ) → n < 16 → digit_value (hex_digit n) ≡ some n
digit_value-hex_digit n h = ground arith

pub hex_decode-hex_encode : (s : Text) → All (λ b. b < 256) s → hex_decode (hex_encode s) ≡ some s
unfolding hex_encode hex_decode
hex_decode-hex_encode [] h = refl
hex_decode-hex_encode (b ∷ s) (hb, h) = rw (digit_value-hex_digit (b / 16) (omega arith)) (
    rw (digit_value-hex_digit (b % 16) (omega arith))
      (rw (hex_decode-hex_encode s h) (ap (λ x. some (x ∷ s)) (omega arith))))

pub parse_node_id-hex_encode : (id : NodeId) → IsNodeId id → parse_node_id (hex_encode id) ≡ some id
unfolding parse_node_id
parse_node_id-hex_encode id h =
    rw (parse_node_id, hex_decode-hex_encode id h.bytes) (rw h.length refl)

abbrev text_or : Text → Option Text → Text
text_or d none = d
text_or d (some s) = s

pub hex_encode-injective :
    (s t : NodeId) → IsNodeId s → IsNodeId t → hex_encode s ≡ hex_encode t → s ≡ t
hex_encode-injective s t hs ht e =
    ap (text_or [])
      (sym (hex_decode-hex_encode s hs.bytes) ∙ ap hex_decode e ∙ hex_decode-hex_encode t ht.bytes)
