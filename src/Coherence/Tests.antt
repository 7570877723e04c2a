-- ===== src/Coherence/Tests.antt =====
-- The theorem of Coherence with natural numbers for floats.
use digital_ghost.Prelude.{
  ℕ, ltb, leb, ◌+◌, ◌≡◌, refl, ◌↔◌, ◌⊎◌, true, pos, List, [], ◌∷◌, some, arith,
}
use digital_ghost.Config.{Floats}
use digital_ghost.Coherence.{ScoredNode, CoherenceConfig, check}
use digital_ghost.Coherence.Laws.{IsOrder, HasSimilar, check-coherent}

-- A float is a number of tenths above -1.
abbrev tenths : Floats ℕ
tenths = record { lt = ltb; le = leb; tenths = λ n. 10 + n }

tenths-IsOrder : IsOrder tenths
tenths-IsOrder = record {
  trans = λ a b c h k. ground arith;
  lt_le = λ a b h. ground arith;
  not_lt = λ a b h. ground arith;
}

abbrev two_nodes : List (ScoredNode ℕ)
two_nodes =
    record { node_id = 1 ∷ []; similarity = 12 } ∷ record { node_id = 2 ∷ []; similarity = 17 } ∷ []

abbrev cfg : CoherenceConfig ℕ
cfg = record { threshold = 14; k = pos 5 }

check-coherent_example :
    ((check tenths 0 cfg (3 ∷ []) (some two_nodes)).0.is_coherent ≡ true)
    ↔ ((two_nodes ≡ []) ⊎ HasSimilar tenths 0 tenths-IsOrder 14 two_nodes)
check-coherent_example = check-coherent tenths 0 tenths-IsOrder cfg 3 [] two_nodes refl
