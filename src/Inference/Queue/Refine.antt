-- ===== src/Inference/Queue/Refine.antt =====
-- The ring of internal/inference/queue.go and the bounded list that stands for it.
use native.Mathlib.Nat.{mod-eq_of_lt, mod-lt}
use digital_ghost.Prelude.{
  ℕ, zero, suc, ◌+◌, ◌-◌, ◌%◌, ◌≤◌, ◌<◌, ◌≡◌, refl, ap, ap₂, ◌∙◌, sym, List, [], ◌∷◌, ◌++◌, Option,
  none, some, arith, length, length-append, get_or, set, get_or-set_self, drop, map, ◌==◌,
  if◌then◌else◌, Bool-cases, true, inl, inr, append_assoc, append-nil,
}
use digital_ghost.Inference.Queue.{Queue, make_room, push, try_pop}
use digital_ghost.Inference.Queue.Ring.{
  window, length-window, window-set_outside, window_split, mod-ne, mod_next, IsValid,
  make_room-IsValid, push-IsValid,
}

module _ {ℓ} {A : Type ℓ} where
  -- A bounded list, oldest element first.
  abbrev pub but_first : List A → List A
  but_first [] = []
  but_first (x ∷ xs) = xs

  abbrev pub push_bounded : ℕ → List A → A → List A
  push_bounded cap xs x = (if length xs == cap then but_first xs else xs) ++ (x ∷ [])

  -- The last `n` elements of a list.
  abbrev pub newest : ℕ → List A → List A
  newest n l = drop (length l - n) l

  abbrev pub pop_first : List A → Option A × List A
  pop_first [] = (none, [])
  pop_first (x ∷ xs) = (some x, xs)

module _ {ℓ} {B : Type ℓ} where
  newest_all : (n : ℕ) (l : List B) → length l ≤ n → newest n l ≡ l
  newest_all n l h = let none_lost : length l - n ≡ 0 = omega arith in ap (λ k. drop k l) none_lost

  -- What is lost by a push to a full list is not among the newest.
  newest-push :
      (n : ℕ) (c m : List B) (x : B)
      → 0 < n
      → length c ≤ n
      → newest n (push_bounded n c x ++ m) ≡ newest n (c ++ (x ∷ m))
  newest-push n [] m x pos h = elim (Bool-cases (0 == n)) [ inl e ↦ rw e refl | inr e ↦ rw e refl ]
  newest-push n (y ∷ c) m x pos h = elim (Bool-cases (suc (length c) == n)) [
    | inl full ↦ rw full (
        ap (newest n) (append_assoc c (x ∷ []) m)
        ∙ sym (ap (λ k. drop k (y ∷ (c ++ (x ∷ m)))) (one_more full)))
    | inr fits ↦ rw fits (ap (newest n) (append_assoc (y ∷ c) (x ∷ []) m))
  ]
    where
      one_more :
          (suc (length c) == n) ≡ true
          → suc (length (c ++ (x ∷ m))) - n ≡ suc (length (c ++ (x ∷ m)) - n)
      one_more full = ground (arith, length-append c (x ∷ m))

module _ {ℓ} {A : Type ℓ} where
  -- The pointers that the ring holds, oldest first.
  abbrev pub contents : Queue A → List (Option A)
  contents q = window q.buf q.cap q.head q.count

  -- The code tests the count, and the window matches on it.
  window_first :
      (buf : List (Option A)) (c h n : ℕ)
      → h < c
      → 0 < n
      → window buf c h n ≡ get_or buf h none ∷ window buf c ((h + 1) % c) (n - 1)
  window_first buf c h zero hc pos = elim pos [ ]
  window_first buf c h (suc n) hc pos =
      let same : n ≡ suc n - 1 = omega arith in
      window_split buf c h n hc ∙ ap (λ k. get_or buf h none ∷ window buf c ((h + 1) % c) k) same

  length-contents : (q : Queue A) → length (contents q) ≡ q.count
  length-contents q = length-window q.buf q.cap q.head q.count

  contents-make_room :
      (q : Queue A)
      → IsValid q
      → contents (make_room q)
        ≡ (if length (contents q) == q.cap then but_first (contents q) else contents q)
  unfolding make_room
  contents-make_room q v =
      ground (arith, length-contents q, window_first q.buf q.cap q.head q.count)

  contents-append :
      (r : Queue A) (x : A)
      → IsValid r
      → r.count < r.cap
      → window (set r.buf r.tail (some x)) r.cap r.head (suc r.count) ≡ contents r ++ (some x ∷ [])
  contents-append r x w fits =
      ap₂ (λ l y. l ++ (y ∷ []))
        (window-set_outside r.buf r.cap r.head r.count r.tail (some x)
          (λ i l e. mod-ne r.head i r.count r.cap w.head_in l fits (e ∙ w.tail_at)))
        (rw (← w.tail_at) (
          get_or-set_self r.buf r.tail (some x) none
            (omega (arith, mod-lt (r.head + r.count) w.room))))

  contents-suc :
      (q : Queue A) (x : A)
      → contents (push q x)
        ≡ (let r = make_room q in window (set r.buf r.tail (some x)) r.cap r.head (suc r.count))
  unfolding push
  contents-suc q x =
      let r = make_room q in
      let one : r.count + 1 ≡ suc r.count = omega arith in
      ap (window (set r.buf r.tail (some x)) r.cap r.head) one

  -- Releasing the slot of the first frame does not change the others.
  window-set_head :
      (q : Queue A)
      → IsValid q
      → 0 < q.count
      → window (set q.buf q.head none) q.cap ((q.head + 1) % q.cap) (q.count - 1)
        ≡ window q.buf q.cap ((q.head + 1) % q.cap) (q.count - 1)
  window-set_head q v pos =
      window-set_outside q.buf q.cap ((q.head + 1) % q.cap) (q.count - 1) q.head none λ i l e.
        mod-ne q.head 0 (suc i) q.cap v.head_in (omega arith) (omega arith)
          (first ∙ sym (sym (mod_next q.head i q.cap) ∙ e))
    where
      first : (q.head + 0) % q.cap ≡ q.head
      first = ap (λ k. k % q.cap) (omega arith) ∙ mod-eq_of_lt v.head_in

  -- A push to a valid ring adds its frame behind what the ring holds, less the oldest frame if
  -- the ring is full.
  pub push_refines :
      (q : Queue A) (x : A)
      → IsValid q
      → contents (push q x) ≡ push_bounded q.cap (contents q) (some x)
  unfolding push
  push_refines q x v =
      let (w, fits) = make_room-IsValid q v in
      contents-suc q x
      ∙ contents-append (make_room q) x w fits
      ∙ ap (λ l. l ++ (some x ∷ [])) (contents-make_room q v)

  -- A pop from a valid ring returns the oldest frame that the ring holds and leaves the others,
  -- and finds none in an empty ring.
  pub try_pop_refines :
      (q : Queue A) → IsValid q → let (o, r) = try_pop q in (o, contents r) ≡ pop_first (contents q)
  unfolding try_pop
  try_pop_refines q v =
      ground
        (arith, length-contents q, window_first q.buf q.cap q.head q.count, window-set_head q v)

  -- The capture side pushes these frames in turn.
  pub push_all : Queue A → List A → Queue A
  push_all q [] = q
  push_all q (x ∷ xs) = push_all (push q x) xs

  cap-push : (q : Queue A) (x : A) → (push q x).cap ≡ q.cap
  unfolding push make_room
  cap-push q x = ground arith

  -- After any pushes to a valid ring it holds the newest frames, those that it held before
  -- included, in order and as many as its capacity allows.
  push_all-newest :
      (xs : List A) (q : Queue A)
      → IsValid q
      → contents (push_all q xs) ≡ newest q.cap (contents q ++ map some xs)
  unfolding push_all
  push_all-newest [] q v = sym (
      ap (newest q.cap) (append-nil (contents q))
      ∙ newest_all q.cap (contents q) (omega (arith, length-contents q, v.count_in)))
  push_all-newest (x ∷ xs) q v =
      push_all-newest xs (push q x) (push-IsValid q x v)
      ∙ ap₂ (λ c l. newest c (l ++ map some xs)) (cap-push q x) (push_refines q x v)
      ∙ newest-push q.cap (contents q) (map some xs) (some x) v.room
          (omega (arith, length-contents q, v.count_in))
