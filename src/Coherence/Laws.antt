-- ===== src/Coherence/Laws.antt =====
-- When the check of internal/graph/coherence.go calls a node coherent.
use digital_ghost.Prelude.{
  ◌≡◌, refl, ◌↔◌, ◌⊎◌, inl, inr, Text, true, false, List, [], ◌∷◌, some, Any, Bool-cases, ◌∙◌, sym,
  false≢true,
}
use digital_ghost.Config.{Floats}
use digital_ghost.Coherence.{ScoredNode, CoherenceConfig, nearest, check}

-- The comparisons of floats none of which is a NaN.
pub record IsOrder {F : Type 0} (floats : Floats F) : Type 0 where
  pub trans : (a b c : F) → floats.le a b ≡ true → floats.le b c ≡ true → floats.le a c ≡ true
  pub lt_le : (a b : F) → floats.lt a b ≡ true → floats.le a b ≡ true
  pub not_lt : (a b : F) → floats.lt a b ≡ false → floats.le b a ≡ true

module _ {F : Type 0} (floats : Floats F) (minus_one : F) (order : IsOrder floats) where
  -- Some node is at least as similar as the threshold.
  abbrev pub HasSimilar : F → List (ScoredNode F) → Type 0
  HasSimilar t ns = Any (λ n. floats.le t n.similarity ≡ true) ns

  nearest_iff :
      (t : F) (ns : List (ScoredNode F)) (m : F) (id : Text)
      → (floats.le t (nearest floats minus_one ns m id).0 ≡ true)
        ↔ ((floats.le t m ≡ true) ⊎ HasSimilar t ns)
  unfolding nearest
  nearest_iff t [] m id = (λ h. inl h, λ h. elim h [ inl a ↦ a | inr b ↦ absurd b ])
  nearest_iff t (n ∷ ns) m id = elim (Bool-cases (floats.lt m n.similarity)) [
    | inl q ↦
        let (to, from) = nearest_iff t ns n.similarity n.node_id in
        let up = λ (h : floats.le t m ≡ true).
          order.trans t m n.similarity h (order.lt_le m n.similarity q) in
        rw (nearest, q) (λ h. inr (to h), λ h. from (elim h [ inl a ↦ inl (up a) | inr b ↦ b ]))
    | inr q ↦
        let (to, from) = nearest_iff t ns m id in
        let down = λ (h : floats.le t n.similarity ≡ true).
          order.trans t n.similarity m h (order.not_lt m n.similarity q) in
        rw (nearest, q)
          (
            λ h. elim (to h) [ inl a ↦ inl a | inr b ↦ inr (inr b) ],
            λ h. from (elim h [
              | inl a ↦ inl a
              | inr b ↦ elim b [ inl c ↦ inl (down c) | inr d ↦ inr d ]
            ]),
          )
  ]

  not_below : (t : F) → floats.le t minus_one ≡ false → ¬ (floats.le t minus_one ≡ true)
  not_below t h k = false≢true (sym h ∙ k)

  -- If no float is a NaN and the threshold is above -1, a node with an embedding is coherent
  -- exactly if the query gives no nodes, or one that is at least as similar as the threshold.
  pub check-coherent :
      (cfg : CoherenceConfig F) (x : F) (xs : List F) (ns : List (ScoredNode F))
      → floats.le cfg.threshold minus_one ≡ false
      → ((check floats minus_one cfg (x ∷ xs) (some ns)).0.is_coherent ≡ true)
        ↔ ((ns ≡ []) ⊎ HasSimilar cfg.threshold ns)
  unfolding check
  check-coherent cfg x xs [] low = (λ h. inl refl, λ h. refl)
  check-coherent cfg x xs (n ∷ ns) low =
      let (to, from) = nearest_iff cfg.threshold (n ∷ ns) minus_one [] in
      (
        λ h. elim (to h) [ inl a ↦ absurd (not_below cfg.threshold low a) | inr b ↦ inr b ],
        λ h. from (elim h [ inl a ↦ absurd cc | inr b ↦ inr b ]),
      )
