-- ===== src/Coherence.antt =====
-- internal/graph/coherence.go: whether a new node is close enough to a node that is stored. `F` is the
-- type of the floats, and the answer of the vector store is an argument.
pub mod Laws
pub mod Tests
use digital_ghost.Prelude.{
  ℤ, pos, exceeds, Text, Bool, true, false, List, [], ◌∷◌, Option, none, some, if◌then◌else◌,
}
use digital_ghost.Config.{Floats}

pub record ScoredNode (F : Type 0) : Type 0 where
  pub node_id : Text
  pub similarity : F

pub record CoherenceConfig (F : Type 0) : Type 0 where
  pub threshold : F
  pub k : ℤ

pub record CoherenceScore (F : Type 0) : Type 0 where
  pub max_similarity : F
  pub nearest_node_id : Text
  pub is_coherent : Bool

module _ {F : Type 0} (floats : Floats F) (minus_one : F) where
  unfoldable pub new_checker : CoherenceConfig F → CoherenceConfig F
  new_checker cfg = record {
    threshold =
        if floats.le cfg.threshold (floats.tenths 0) then floats.tenths 4 else cfg.threshold;
    k = if exceeds cfg.k 0 then cfg.k else pos 5;
  }

  abbrev pub incoherent : CoherenceScore F
  incoherent = record {
    max_similarity = floats.tenths 0;
    nearest_node_id = [];
    is_coherent = false;
  }

  -- The loop that keeps the nearest node.
  unfoldable pub nearest : List (ScoredNode F) → F → Text → F × Text
  nearest [] max_sim id = (max_sim, id)
  nearest (n ∷ ns) max_sim id =
      if floats.lt max_sim n.similarity
      then nearest ns n.similarity n.node_id
      else nearest ns max_sim id

  abbrev pub score_of : F → F × Text → CoherenceScore F
  score_of threshold (max_sim, id) = record {
    max_similarity = max_sim;
    nearest_node_id = id;
    is_coherent = floats.le threshold max_sim;
  }

  -- The score, and whether an error comes with it. `none` is a query that fails.
  unfoldable pub check :
      CoherenceConfig F → List F → Option (List (ScoredNode F)) → CoherenceScore F × Bool
  check cfg [] answer = (incoherent, true)
  check cfg (x ∷ xs) none = (incoherent, true)
  check cfg (x ∷ xs) (some []) =
      (record { max_similarity = floats.tenths 0; nearest_node_id = []; is_coherent = true }, false)
  check cfg (x ∷ xs) (some (n ∷ ns)) =
      (score_of cfg.threshold (nearest (n ∷ ns) minus_one []), false)
