-- ===== src/Storage/JsonStore/Toy.antt =====
-- A codec for the index, for the tests: the time of an entry, its ID with 1 added to each byte, and 0.
use digital_ghost.Prelude.{
  suc, zero, ◌≡◌, refl, ap, ◌∙◌, Text, List, [], ◌∷◌, ◌++◌, map, Option, none, some, append_assoc,
  append-nil,
}
use digital_ghost.Storage.Time.{Time}
use digital_ghost.Storage.JsonStore.{IndexEntry, IndexCodec}
use digital_ghost.Storage.JsonStore.Index.Laws.{IsCodec}

abbrev print_index : List IndexEntry → Text
print_index [] = []
print_index (e ∷ es) = e.timestamp ∷ (map suc e.id ++ (0 ∷ print_index es))

abbrev scan : Option (Time × Text) → Text → List IndexEntry
scan none [] = []
scan (some (t, acc)) [] = []
scan none (t ∷ s) = scan (some (t, [])) s
scan (some (t, acc)) (zero ∷ s) = record { id = acc; timestamp = t } ∷ scan none s
scan (some (t, acc)) (suc c ∷ s) = scan (some (t, acc ++ (c ∷ []))) s

scan-id :
    (t : Time) (acc id s : Text)
    → scan (some (t, acc)) (map suc id ++ (0 ∷ s))
      ≡ record { id = acc ++ id; timestamp = t } ∷ scan none s
scan-id t acc [] s = rw (append-nil acc) refl
scan-id t acc (c ∷ id) s = scan-id t (acc ++ (c ∷ [])) id s ∙ rw (append_assoc acc (c ∷ []) id) refl

scan-print_index : (es : List IndexEntry) → scan none (print_index es) ≡ es
scan-print_index [] = refl
scan-print_index (e ∷ es) =
    scan-id e.timestamp [] e.id (print_index es) ∙ ap (λ r. e ∷ r) (scan-print_index es)

abbrev pub toy_codec : IndexCodec
toy_codec = record { marshal = λ es. some (print_index es); unmarshal = λ t. some (scan none t) }

pub toy_codec-IsCodec : IsCodec toy_codec
toy_codec-IsCodec = record {
  round_trip = λ es h. (print_index es, refl, ap some (scan-print_index es));
}
