-- ===== src/Api/Timeline.antt =====
-- handleTimeline of internal/api/server.go, with strconv.Atoi on an int of 64 bits.
pub mod Paging
use digital_ghost.Prelude.{
  ℕ, zero, suc, ◌+◌, ◌-◌, ◌*◌, ◌^◌, ltb, leb, ◌==◌, ℤ, pos, negsuc, Text, Bool, ◌&&◌, List, [], ◌∷◌,
  ◌++◌, Option, none, some, lit, if◌then◌else◌,
}
use digital_ghost.Prelude.Result.{Result, ok, err}
use digital_ghost.Storage.Encrypt.{Crypto}
use digital_ghost.Storage.JsonStore.{IndexCodec, StoreError}
use digital_ghost.Storage.VectorStore.{NodeCodec, Store, timeline}
use digital_ghost.Api.Types.{Request, Body, error_message, page, Response, json}

abbrev is_digit : ℕ → Bool
is_digit c = leb b'0' c && leb c b'9'

-- The number that digits spell behind `n`; `none` where another byte comes.
unfoldable pub digits_from : ℕ → Text → Option ℕ
digits_from n [] = some n
digits_from n (c ∷ s) =
    let rest = digits_from (n * 10 + (c - b'0')) s in if is_digit c then rest else none

unfoldable pub magnitude : Text → Option ℕ
unfolding digits_from
magnitude [] = none
magnitude (c ∷ s) = digits_from 0 (c ∷ s)

abbrev minus : ℕ → ℤ
minus zero = pos 0
minus (suc n) = negsuc n

abbrev in_int64 : (limit : ℕ) → (ℕ → ℤ) → Option ℕ → Option ℤ
in_int64 limit sign none = none
in_int64 limit sign (some n) = if ltb n limit then some (sign n) else none

unfoldable pub atoi : Text → Option ℤ
unfolding magnitude
atoi [] = none
atoi (c ∷ s) =
    if c == b'-'
    then in_int64 (2 ^ 63 + 1) minus (magnitude s)
    else if c == b'+'
    then in_int64 (2 ^ 63) (λ n. pos n) (magnitude s)
    else in_int64 (2 ^ 63) (λ n. pos n) (magnitude (c ∷ s))

-- The numbers from 1 to 200 are limits; for the others the limit is 50.
abbrev pub limit_or_default : Option ℤ → ℕ
limit_or_default none = 50
limit_or_default (some (negsuc n)) = 50
limit_or_default (some (pos n)) = if ltb 0 n && leb n 200 then n else 50

abbrev pub offset_or_default : Option ℤ → ℕ
offset_or_default none = 0
offset_or_default (some (negsuc n)) = 0
offset_or_default (some (pos n)) = n

unfoldable pub limit_of : Text → ℕ
unfolding atoi
limit_of v = limit_or_default (atoi v)

unfoldable pub offset_of : Text → ℕ
unfolding atoi
offset_of v = offset_or_default (atoi v)

module _ {F : Type 0} (C : Crypto) (K : IndexCodec) (N : NodeCodec F)
    (error_text : StoreError → Text) where
  unfoldable pub handle_timeline : Request → Store F → Response F
  unfolding limit_of offset_of lit
  handle_timeline r s = elim (timeline C K N (limit_of r.limit) (offset_of r.offset) s) [
    | err e ↦ json 500 (error_message (lit "timeline failed: " ++ error_text e))
    | ok (entries, total) ↦ json 200 (page entries total (limit_of r.limit) (offset_of r.offset))
  ]
