-- ===== src/Inference/Queue/Ring.antt =====
-- The indices of the ring buffer of internal/inference/queue.go, and what they reach.
use native.Mathlib.Nat.{mod-eq_of_lt, mod-eq-sub-mod, mod-add-mod, mod-lt}
use native.Mathlib.Decide.{dec_lt}
use digital_ghost.Prelude.{
  ℕ, zero, suc, ◌+◌, ◌-◌, ◌%◌, ◌≤◌, ◌<◌, ◌≡◌, refl, ap, ap₂, ◌∙◌, ◌≢◌, ◌⊎◌, inl, inr, sym,
  length-append, List, [], ◌∷◌, ◌++◌, Option, none, some, arith, length, length-set,
  length-replicate, get_or, set, get_or-set_ne,
}
use digital_ghost.Inference.Queue.{Queue, new_queue, make_room, push, try_pop}

-- An index that has passed the end once.
wrap : (x c : ℕ) → x < c + c → ((x < c) × (x % c ≡ x)) ⊎ ((c ≤ x) × (x % c ≡ x - c))
wrap x c h = elim (dec_lt x c) [
  | yes p ↦ inl (p, mod-eq_of_lt p)
  | no p ↦
      inr (omega arith, mod-eq-sub-mod {n = x} {m = c} (omega arith) ∙ mod-eq_of_lt (omega arith))
]

-- Two places of the ring that are less than a round apart differ.
pub mod-ne : (h i j c : ℕ) → h < c → i < j → j < c → (h + i) % c ≢ (h + j) % c
mod-ne h i j c hh ij jc e =
    ground (arith, wrap (h + i) c (omega arith), wrap (h + j) c (omega arith))

pub mod_next : (h i c : ℕ) → ((h + 1) % c + i) % c ≡ (h + suc i) % c
mod_next h i c = mod-add-mod (h + 1) c i ∙ ap (λ k. k % c) (omega arith)

tail_next : (h n c t : ℕ) → t ≡ (h + n) % c → (t + 1) % c ≡ (h + (n + 1)) % c
tail_next h n c t e =
    ap (λ k. (k + 1) % c) e ∙ mod-add-mod (h + n) c 1 ∙ ap (λ k. k % c) (omega arith)

module _ {ℓ} {A : Type ℓ} where
  -- The `n` pointers of the ring from index `h` on.
  abbrev pub window : List (Option A) → ℕ → ℕ → ℕ → List (Option A)
  window buf c h zero = []
  window buf c h (suc n) = window buf c h n ++ (get_or buf ((h + n) % c) none ∷ [])

  pub length-window : (buf : List (Option A)) (c h n : ℕ) → length (window buf c h n) ≡ n
  length-window buf c h zero = refl
  length-window buf c h (suc n) =
      length-append (window buf c h n) _ ∙ omega (arith, length-window buf c h n)

  -- A write at a place outside of the window is not seen.
  pub window-set_outside :
      (buf : List (Option A)) (c h n k : ℕ) (v : Option A)
      → ((i : ℕ) → i < n → (h + i) % c ≢ k)
      → window (set buf k v) c h n ≡ window buf c h n
  window-set_outside buf c h zero k v apart = refl
  window-set_outside buf c h (suc n) k v apart =
      ap₂ (λ l x. l ++ (x ∷ [])) (window-set_outside buf c h n k v (λ i l. apart i (omega arith)))
        (get_or-set_ne buf v none (λ e. apart n (omega arith) (sym e)))

  -- The window without its first pointer.
  pub window_split :
      (buf : List (Option A)) (c h n : ℕ)
      → h < c
      → window buf c h (suc n) ≡ get_or buf h none ∷ window buf c ((h + 1) % c) n
  window_split buf c h zero hc =
      ap (λ k. get_or buf k none ∷ []) (ap (λ k. k % c) (omega arith) ∙ mod-eq_of_lt hc)
  window_split buf c h (suc n) hc =
      ap₂ ◌++◌ (window_split buf c h n hc) (ap (λ k. get_or buf k none ∷ []) (sym (mod_next h n c)))

-- The representation invariant of the ring.
pub record IsValid {ℓ} {A : Type ℓ} (q : Queue A) : Type 0 where
  pub storage : length q.buf ≡ q.cap
  pub room : 0 < q.cap
  pub head_in : q.head < q.cap
  pub count_in : q.count ≤ q.cap
  pub tail_at : q.tail ≡ (q.head + q.count) % q.cap

module _ {ℓ} {A : Type ℓ} where
  pub new_queue-IsValid : (capacity : ℕ) → 0 < capacity → IsValid (new_queue {A = A} capacity)
  unfolding new_queue
  new_queue-IsValid capacity h = record {
    storage = length-replicate capacity none;
    room = h;
    head_in = h;
    count_in = omega arith;
    tail_at = omega arith;
  }

  make_room-tail :
      (q : Queue A)
      → IsValid q
      → q.count ≡ q.cap
      → q.tail ≡ ((q.head + 1) % q.cap + (q.count - 1)) % q.cap
  make_room-tail q v full =
      v.tail_at
      ∙ ap (λ k. (q.head + k) % q.cap) (omega arith)
      ∙ sym (mod_next q.head (q.count - 1) q.cap)

  -- After the first lines of `Push` the ring is valid and has room.
  pub make_room-IsValid :
      (q : Queue A) → IsValid q → IsValid (make_room q) × ((make_room q).count < (make_room q).cap)
  unfolding make_room
  make_room-IsValid q v = ground (arith, make_room-tail q v, mod-lt (q.head + 1) v.room)

  -- `Push` keeps the invariant, also where it drops a frame.
  pub push-IsValid : (q : Queue A) (x : A) → IsValid q → IsValid (push q x)
  unfolding push
  push-IsValid q x v =
      let r = make_room q in
      let (w, fits) = make_room-IsValid q v in
      record {
        storage = length-set r.buf r.tail (some x) ∙ w.storage;
        room = w.room;
        head_in = w.head_in;
        count_in = omega arith;
        tail_at = tail_next r.head r.count r.cap r.tail w.tail_at;
      }

  -- `Pop` keeps the invariant.
  pub try_pop-IsValid : (q : Queue A) → IsValid q → IsValid (try_pop q).1
  unfolding try_pop
  try_pop-IsValid q v = ground (
    arith,
    length-set q.buf q.head none,
    mod-lt (q.head + 1) v.room,
    mod_next q.head (q.count - 1) q.cap,
  )
