-- ===== src/Storage/Similarity.antt =====
-- internal/storage/jsonstore.go: the search for the nearest nodes among the cached embeddings, and
-- the similarity of vectors, which internal/graph/coherence.go has once more. `F` is the type of the
-- floats. A map is walked in any order, so the cache is a list in any order.
pub mod Top
pub mod Tests
use digital_ghost.Prelude.{
  ℕ, Text, Bool, List, [], ◌∷◌, map, take, length, ◌==◌, ◌||◌, not, if◌then◌else◌,
}
use digital_ghost.Config.{Floats}
use digital_ghost.Coherence.{ScoredNode}
use digital_ghost.Storage.Hex.{NodeId, hex_encode}

-- The operations of float64, math.Sqrt, and the test for 0. A float32 is a float64 too.
pub record VectorMath (F : Type 0) : Type 0 where
  pub compare : Floats F
  pub add : F → F → F
  pub mul : F → F → F
  pub div : F → F → F
  pub sqrt : F → F
  pub is_zero : F → Bool

-- The dot product and the sums of the squares.
pub record Sums (F : Type 0) : Type 0 where
  pub dot : F
  pub mag_a : F
  pub mag_b : F

abbrev pub scored_node : {F : Type 0} → NodeId × F → ScoredNode F
scored_node (id, s) = record { node_id = hex_encode id; similarity = s }

module _ {F : Type 0} (V : VectorMath F) where
  -- The loop over the components that both vectors have.
  unfoldable pub add_products : List F → List F → Sums F → Sums F
  add_products [] b s = s
  add_products (x ∷ a) [] s = s
  add_products (x ∷ a) (y ∷ b) s = add_products a b (record {
    dot = V.add s.dot (V.mul x y);
    mag_a = V.add s.mag_a (V.mul x x);
    mag_b = V.add s.mag_b (V.mul y y);
  })

  abbrev pub no_sums : Sums F
  no_sums = record {
    dot = V.compare.tenths 0;
    mag_a = V.compare.tenths 0;
    mag_b = V.compare.tenths 0;
  }

  abbrev pub quotient : Sums F → F
  quotient s =
      if V.is_zero s.mag_a || V.is_zero s.mag_b
      then V.compare.tenths 0
      else V.div s.dot (V.mul (V.sqrt s.mag_a) (V.sqrt s.mag_b))

  unfoldable pub cosine_similarity : List F → List F → F
  unfolding add_products
  cosine_similarity a b = quotient (add_products a b no_sums)

  -- CosineSimilarity of package graph: vectors of different lengths are not compared.
  unfoldable pub checked_similarity : List F → List F → F
  unfolding cosine_similarity
  checked_similarity a b =
      if not (length a == length b) || length a == 0
      then V.compare.tenths 0
      else cosine_similarity a b

  abbrev pub candidate : List F → NodeId × List F → NodeId × F
  candidate query (id, emb) = (id, cosine_similarity query emb)

  -- The order of the sort: the first node is more similar.
  abbrev pub is_nearer : NodeId × F → NodeId × F → Bool
  is_nearer (i, s) (j, t) = V.compare.lt t s

  unfoldable pub insert_candidate : NodeId × F → List (NodeId × F) → List (NodeId × F)
  insert_candidate x [] = x ∷ []
  insert_candidate x (y ∷ ys) =
      let rest = insert_candidate x ys in if is_nearer y x then y ∷ rest else x ∷ y ∷ ys

  -- sort.Slice
  unfoldable pub sort_candidates : List (NodeId × F) → List (NodeId × F)
  unfolding insert_candidate
  sort_candidates [] = []
  sort_candidates (x ∷ xs) = insert_candidate x (sort_candidates xs)

  -- A `k` that is larger than the number of nodes gives them all.
  unfoldable pub nearest_neighbors : List (NodeId × List F) → List F → ℕ → List (ScoredNode F)
  nearest_neighbors cache [] k = []
  nearest_neighbors cache (x ∷ query) k =
      map scored_node (take k (sort_candidates (map (candidate (x ∷ query)) cache)))
