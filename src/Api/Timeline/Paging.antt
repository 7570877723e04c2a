-- ===== src/Api/Timeline/Paging.antt =====
-- The size of a page of the timeline.
use digital_ghost.Prelude.{
  ℕ, zero, suc, ◌-◌, ◌≤◌, ℤ, pos, negsuc, ◌≡◌, inl, inr, Text, List, [], ◌∷◌, Option, none, some,
  arith, take, drop, length,
}
use digital_ghost.Prelude.Result.{ok, Result-cases}
use digital_ghost.Storage.Encrypt.{Crypto}
use digital_ghost.Storage.JsonStore.{IndexCodec, StoreError}
use digital_ghost.Storage.JsonStore.Records.{StoreEntry, list_entries_by_time}
use digital_ghost.Storage.VectorStore.{NodeCodec, Store, TimelineEntry, read_page, timeline}
use digital_ghost.Api.Types.{Request, page, json}
use digital_ghost.Api.Timeline.{limit_or_default, limit_of, offset_of, atoi, handle_timeline}

limit_or_default_bounds : (o : Option ℤ) → (1 ≤ limit_or_default o) × (limit_or_default o ≤ 200)
limit_or_default_bounds none = (omega arith, omega arith)
limit_or_default_bounds (some (pos n)) = ground arith
limit_or_default_bounds (some (negsuc n)) = (omega arith, omega arith)

length-take :
    {A : Type 0} (n : ℕ) (xs : List A) → (length (take n xs) ≤ n) × (length (take n xs) ≤ length xs)
length-take zero xs = (omega arith, omega arith)
length-take (suc n) [] = (omega arith, omega arith)
length-take (suc n) (x ∷ xs) = omega (arith, length-take n xs)

length-drop : {A : Type 0} (n : ℕ) (xs : List A) → length (drop n xs) ≡ length xs - n
length-drop zero xs = omega arith
length-drop (suc n) [] = omega arith
length-drop (suc n) (x ∷ xs) = omega (arith, length-drop n xs)

module _ {F : Type 0} (C : Crypto) (K : IndexCodec) (N : NodeCodec F) where
  length-read_page :
      (s : Store F) (xs : List StoreEntry) → length (read_page C K N s xs) ≤ length xs
  unfolding read_page
  length-read_page s [] = omega arith
  length-read_page s (x ∷ xs) = ground (arith, length-read_page s xs)

  timeline-bounds :
      (limit offset : ℕ) (s : Store F) (entries : List TimelineEntry) (total : ℕ)
      → timeline C K N limit offset s ≡ ok (entries, total)
      → (length entries ≤ limit) × (length entries ≤ total - offset)
  unfolding timeline
  timeline-bounds limit offset s entries total h =
      elim (Result-cases (list_entries_by_time C K s.encryptor s.disk)) [
        | inr (e, q) ↦ absurd (ground arith)
        | inl (xs, q) ↦
            let kept = drop offset xs in
            ground (
              arith,
              length-read_page s (take limit kept),
              length-take limit kept,
              length-drop offset xs,
            )
      ]

  module _ (error_text : StoreError → Text) where
    -- A page of the timeline comes with a limit from 1 to 200, whatever the request says, and has
    -- no more entries than the limit, nor than there are behind the offset.
    pub handle_timeline-bounds :
        (r : Request) (s : Store F) (entries : List TimelineEntry) (total limit offset : ℕ)
        → handle_timeline C K N error_text r s ≡ json 200 (page entries total limit offset)
        → (1 ≤ limit) × (limit ≤ 200) × (length entries ≤ limit) × (length entries ≤ total - offset)
    unfolding handle_timeline limit_of
    handle_timeline-bounds r s entries total limit offset h =
        elim (Result-cases (timeline C K N (limit_of r.limit) (offset_of r.offset) s)) [
          | inr (e, q) ↦ absurd (ground arith)
          | inl ((xs, n), q) ↦ ground (
            arith,
            timeline-bounds (limit_of r.limit) (offset_of r.offset) s xs n q,
            limit_or_default_bounds (atoi r.limit),
          )
        ]
