-- ===== src/Storage/Similarity/Top.antt =====
-- The nodes that a search returns are the nearest.
use digital_ghost.Prelude.{
  ℕ, zero, suc, ◌≡◌, refl, ap, ◌<◌, min, ◌∙◌, ◌⊎◌, inl, inr, Bool, true, false, List, [], ◌∷◌, map,
  take, length, Any, Any-mono, All, All-mono, arith, Bool-cases,
}
use digital_ghost.Coherence.{ScoredNode}
use digital_ghost.Storage.Hex.{NodeId}
use digital_ghost.Storage.Similarity.{
  VectorMath, cosine_similarity, candidate, is_nearer, insert_candidate, sort_candidates,
  scored_node, nearest_neighbors,
}

-- The comparison of floats none of which is a NaN.
pub record IsOrder {F : Type 0} (lt : F → F → Bool) : Type 0 where
  pub asymmetric : (a b : F) → lt a b ≡ true → lt b a ≡ false
  pub transitive : (a b c : F) → lt a b ≡ false → lt b c ≡ false → lt a c ≡ false

abbrev pub In : {A : Type 0} → A → List A → Type 0
In a xs = Any (λ x. x ≡ a) xs

module _ {F : Type 0} (V : VectorMath F) (order : IsOrder V.compare.lt) where
  -- No element is nearer than one before it.
  abbrev IsSorted : List (NodeId × F) → Type 0
  IsSorted [] = Unit
  IsSorted (x ∷ xs) = All (λ y. is_nearer V y x ≡ false) xs × IsSorted xs

  farther_trans :
      (x y : NodeId × F) (zs : List (NodeId × F))
      → is_nearer V y x ≡ false
      → All (λ z. is_nearer V z y ≡ false) zs
      → All (λ z. is_nearer V z x ≡ false) zs
  farther_trans x y [] h k = tt
  farther_trans (i, s) (j, t) ((l, u) ∷ zs) h (p, k) =
      (order.transitive s t u h p, farther_trans (i, s) (j, t) zs h k)

  All-insert :
      (P : NodeId × F → Type 0) (x : NodeId × F) (ys : List (NodeId × F))
      → P x
      → All P ys
      → All P (insert_candidate V x ys)
  unfolding insert_candidate
  All-insert P x [] p h = (p, tt)
  All-insert P x (y ∷ ys) p (q, h) = elim (Bool-cases (is_nearer V y x)) [
    | inl e ↦ rw e (q, All-insert P x ys p h)
    | inr e ↦ rw e (p, (q, h))
  ]

  nearer-not : (x y : NodeId × F) → is_nearer V y x ≡ true → is_nearer V x y ≡ false
  nearer-not (i, s) (j, t) e = order.asymmetric s t e

  insert-IsSorted :
      (x : NodeId × F) (ys : List (NodeId × F)) → IsSorted ys → IsSorted (insert_candidate V x ys)
  unfolding insert_candidate
  insert-IsSorted x [] h = (tt, tt)
  insert-IsSorted x (y ∷ ys) (h, hs) = elim (Bool-cases (is_nearer V y x)) [
    | inl e ↦ rw e (All-insert _ x ys (nearer-not x y e) h, insert-IsSorted x ys hs)
    | inr e ↦ rw e ((e, farther_trans x y ys e h), (h, hs))
  ]

  sort-IsSorted : (xs : List (NodeId × F)) → IsSorted (sort_candidates V xs)
  unfolding sort_candidates
  sort-IsSorted [] = tt
  sort-IsSorted (x ∷ xs) = insert-IsSorted x _ (sort-IsSorted xs)

  Any-insert :
      (P : NodeId × F → Type 0) (x : NodeId × F) (ys : List (NodeId × F))
      → P x ⊎ Any P ys
      → Any P (insert_candidate V x ys)
  unfolding insert_candidate
  Any-insert P x [] h = h
  Any-insert P x (y ∷ ys) h = elim (Bool-cases (is_nearer V y x)) [
    | inl e ↦ rw e (elim h [
      | inl p ↦ inr (Any-insert P x ys (inl p))
      | inr a ↦ elim a [ inl q ↦ inl q | inr r ↦ inr (Any-insert P x ys (inr r)) ]
    ])
    | inr e ↦ rw e h
  ]

  Any-sort :
      (P : NodeId × F → Type 0) (xs : List (NodeId × F)) → Any P xs → Any P (sort_candidates V xs)
  unfolding sort_candidates
  Any-sort P [] h = h
  Any-sort P (x ∷ xs) (inl p) = Any-insert P x _ (inl p)
  Any-sort P (x ∷ xs) (inr h) = Any-insert P x _ (inr (Any-sort P xs h))

  All-sort :
      (P : NodeId × F → Type 0) (xs : List (NodeId × F)) → All P xs → All P (sort_candidates V xs)
  unfolding sort_candidates
  All-sort P [] h = tt
  All-sort P (x ∷ xs) (p, h) = All-insert P x _ p (All-sort P xs h)

  All-In :
      (x y : NodeId × F) (ys : List (NodeId × F))
      → All (λ z. is_nearer V z y ≡ false) ys
      → In x ys
      → is_nearer V x y ≡ false
  All-In x y [] h i = elim i [ ]
  All-In x y (z ∷ zs) (p, h) (inl e) = rw (← e) p
  All-In x y (z ∷ zs) (p, h) (inr i) = All-In x y zs h i

  -- An element of a sorted list is among the first, or none of the first is farther.
  in_take :
      (k : ℕ) (x : NodeId × F) (ys : List (NodeId × F))
      → IsSorted ys
      → In x ys
      → In x (take k ys) ⊎ All (λ y. is_nearer V x y ≡ false) (take k ys)
  in_take zero x ys h i = inr tt
  in_take (suc k) x [] h i = elim i [ ]
  in_take (suc k) x (y ∷ ys) h (inl e) = inl (inl e)
  in_take (suc k) x (y ∷ ys) (h, hs) (inr i) = elim (in_take k x ys hs i) [
    | inl j ↦ inl (inr j)
    | inr a ↦ inr (All-In x y ys h i, a)
  ]

  Any-map : {A B : Type 0} (f : A → B) (a : A) (xs : List A) → In a xs → In (f a) (map f xs)
  Any-map f a [] i = elim i [ ]
  Any-map f a (x ∷ xs) (inl e) = inl (ap f e)
  Any-map f a (x ∷ xs) (inr i) = inr (Any-map f a xs i)

  All-scored :
      (x : NodeId × F) (ys : List (NodeId × F))
      → All (λ y. is_nearer V x y ≡ false) ys
      → All (λ n. V.compare.lt n.similarity x.1 ≡ false) (map scored_node ys)
  All-scored x [] h = tt
  All-scored x ((j, t) ∷ ys) (p, h) = (p, All-scored x ys h)

  All-take : {A : Type 0} (P : A → Type 0) (k : ℕ) (xs : List A) → All P xs → All P (take k xs)
  All-take P zero xs h = tt
  All-take P (suc k) [] h = tt
  All-take P (suc k) (x ∷ xs) (p, h) = (p, All-take P k xs h)

  length-take : {A : Type 0} (k : ℕ) (xs : List A) → length (take k xs) ≡ min k (length xs)
  length-take zero xs = omega arith
  length-take (suc k) [] = omega arith
  length-take (suc k) (x ∷ xs) = omega (arith, length-take k xs)

  length-map : {A B : Type 0} (f : A → B) (xs : List A) → length (map f xs) ≡ length xs
  length-map f [] = refl
  length-map f (x ∷ xs) = ap suc (length-map f xs)

  length-insert :
      (x : NodeId × F) (ys : List (NodeId × F)) → length (insert_candidate V x ys) ≡ suc (length ys)
  unfolding insert_candidate
  length-insert x [] = refl
  length-insert x (y ∷ ys) = elim (Bool-cases (is_nearer V y x)) [
    | inl e ↦ rw e (ap suc (length-insert x ys))
    | inr e ↦ rw e refl
  ]

  length-sort : (xs : List (NodeId × F)) → length (sort_candidates V xs) ≡ length xs
  unfolding sort_candidates
  length-sort [] = refl
  length-sort (x ∷ xs) = length-insert x (sort_candidates V xs) ∙ ap suc (length-sort xs)

  -- A result is the node of a cache entry with its similarity to the query.
  abbrev pub IsCached : List (NodeId × List F) → List F → ScoredNode F → Type 0
  IsCached cache query n = Any (λ c. scored_node (candidate V query c) ≡ n) cache

  All-candidates :
      (query : List F) (cache : List (NodeId × List F))
      → All (λ x. Any (λ c. candidate V query c ≡ x) cache) (map (candidate V query) cache)
  All-candidates query [] = tt
  All-candidates query (c ∷ cache) =
      (inl refl, All-mono _ (λ x h. inr h) (All-candidates query cache))

  All-IsCached :
      (query : List F) (cache : List (NodeId × List F)) (xs : List (NodeId × F))
      → All (λ x. Any (λ c. candidate V query c ≡ x) cache) xs
      → All (IsCached cache query) (map scored_node xs)
  All-IsCached query cache [] h = tt
  All-IsCached query cache (x ∷ xs) (p, h) =
      (Any-mono cache (λ c e. ap scored_node e) p, All-IsCached query cache xs h)

  -- The results: as many as were asked for, or all; each is a node of the cache with its similarity;
  -- and a node of the cache that is not among them is no nearer than any of them.
  pub record IsNearest (cache : List (NodeId × List F)) (query : List F) (k : ℕ)
      (results : List (ScoredNode F)) : Type 0 where
    pub size : length results ≡ min k (length cache)
    pub cached : All (IsCached cache query) results
    pub nearest :
        (c : NodeId × List F)
        → In c cache
        → In (scored_node (candidate V query c)) results
          ⊎ All (λ n. V.compare.lt n.similarity (cosine_similarity V query c.1) ≡ false) results

  -- If the query has components and the floats are ordered as those are that are no NaN, the
  -- search gives as many nodes as were asked for, or all if there are fewer. Each is an entry of
  -- the cache with its similarity to the query, and an entry that is not among them is not more
  -- similar than any of them.
  pub nearest_neighbors-IsNearest :
      (cache : List (NodeId × List F)) (query : List F) (k : ℕ)
      → 0 < length query
      → IsNearest cache query k (nearest_neighbors V cache query k)
  unfolding nearest_neighbors
  nearest_neighbors-IsNearest cache [] k h = absurd (omega arith)
  nearest_neighbors-IsNearest cache (q ∷ query) k h =
      let xs = map (candidate V (q ∷ query)) cache in
      let sorted = sort_candidates V xs in
      record {
        size =
            length-map scored_node (take k sorted)
            ∙ length-take k sorted
            ∙ ap (min k) (length-sort xs ∙ length-map (candidate V (q ∷ query)) cache);
        cached =
            All-IsCached (q ∷ query) cache (take k sorted)
              (All-take _ k sorted (All-sort _ xs (All-candidates (q ∷ query) cache)));
        nearest = λ c i.
            elim (in_take k (candidate V (q ∷ query) c) sorted (sort-IsSorted xs)
              (Any-sort _ xs (Any-map (candidate V (q ∷ query)) c cache i))) [
                | inl j ↦ inl (Any-map scored_node (candidate V (q ∷ query) c) (take k sorted) j)
                | inr a ↦ inr (All-scored (candidate V (q ∷ query) c) (take k sorted) a)
              ];
      }
