-- ===== src/Storage/Similarity/Tests.antt =====
-- A search among three vectors of whole numbers, where the similarity is the dot product.
use digital_ghost.Prelude.{ℕ, ◌+◌, ◌*◌, ◌≡◌, refl, ltb, leb, ◌==◌, List, [], ◌∷◌, arith}
use digital_ghost.Storage.Hex.{NodeId, hex_encode}
use digital_ghost.Storage.Similarity.{
  VectorMath, nearest_neighbors, sort_candidates, cosine_similarity,
}
use digital_ghost.Storage.Similarity.Top.{IsOrder, IsNearest, nearest_neighbors-IsNearest}

abbrev pub whole : VectorMath ℕ
whole = record {
  compare = record { lt = ltb; le = leb; tenths = λ n. 0 };
  add = λ a b. a + b;
  mul = λ a b. a * b;
  div = λ a b. a;
  sqrt = λ a. a;
  is_zero = λ a. a == 0;
}

ltb-IsOrder : IsOrder ltb
ltb-IsOrder = record { asymmetric = λ a b h. ground arith; transitive = λ a b c h k. ground arith }

abbrev pub cache : List (NodeId × List ℕ)
cache = (1 ∷ [], 1 ∷ 0 ∷ []) ∷ (2 ∷ [], 3 ∷ 1 ∷ []) ∷ (3 ∷ [], 2 ∷ 5 ∷ []) ∷ []

two_nearest :
    nearest_neighbors whole cache (1 ∷ 1 ∷ []) 2
    ≡ record { node_id = hex_encode (3 ∷ []); similarity = 7 }
      ∷ record { node_id = hex_encode (2 ∷ []); similarity = 4 }
      ∷ []
unfolding nearest_neighbors sort_candidates cosine_similarity
two_nearest = refl

nearest_neighbors-IsNearest_example :
    IsNearest whole ltb-IsOrder cache (1 ∷ 1 ∷ []) 2 (nearest_neighbors whole cache (1 ∷ 1 ∷ []) 2)
nearest_neighbors-IsNearest_example =
    nearest_neighbors-IsNearest whole ltb-IsOrder cache (1 ∷ 1 ∷ []) 2 (omega arith)
