-- ===== src/Inference/Queue/Wakeup.antt =====
-- The wait of `Pop` in internal/inference/queue.go against the pushes of another goroutine: steps
-- of one producer and one consumer, interleaved in any way. The lock makes `Push` and each round
-- of `Pop` one step.
use digital_ghost.Prelude.{ℕ, ◌<◌, Bool, true, false, ◌≡◌, refl, Option, none, some, arith}
use digital_ghost.Inference.Queue.{Queue, new_queue, push, try_pop}
use digital_ghost.Inference.Queue.Ring.{IsValid, push-IsValid, try_pop-IsValid, new_queue-IsValid}

-- Where the consumer is: outside of `Pop` or at the top of its loop, at the `select` that waits,
-- or done, with what `Pop` returned (`none` after a stop).
pub data Consumer {ℓ} (A : Type ℓ) : Type ℓ where
  looking : Consumer A
  waiting : Consumer A
  returned : Option A → Consumer A

pub record System {ℓ} (A : Type ℓ) : Type ℓ where
  pub queue : Queue A
  pub consumer : Consumer A
  pub stopped : Bool

-- What the consumer does with the result of a round.
pub after_round {ℓ} : {A : Type ℓ} → Option (Option A) → Consumer A
after_round none = waiting
after_round (some frame) = returned frame

module _ {ℓ} {A : Type ℓ} where
  pub data Step : System A → System A → Type ℓ where
    produce : (s : System A) (x : A) → Step s (record s { queue = push s.queue x })
    stop : (s : System A) → Step s (record s { stopped = true })
    look :
        (s : System A)
        → s.consumer ≡ looking
        → Step s
            (record s { queue = (try_pop s.queue).1; consumer = after_round (try_pop s.queue).0 })
    wake :
        (s : System A)
        → s.consumer ≡ waiting
        → s.queue.signal ≡ true
        → Step s (record s { queue = record s.queue { signal = false }; consumer = looking })
    give_up :
        (s : System A)
        → s.consumer ≡ waiting
        → s.stopped ≡ true
        → Step s (record s { consumer = returned none })
    again :
        (s : System A) (o : Option A)
        → s.consumer ≡ returned o
        → Step s (record s { consumer = looking })

  pub data Reach (start : System A) : System A → Type ℓ where
    here : Reach start start
    next : {s t : System A} → Reach start s → Step s t → Reach start t

  -- A consumer that waits before a queue with a frame in it has a signal to wake it.
  pub record IsAwake (s : System A) : Type ℓ where
    pub valid : IsValid s.queue
    pub woken : s.consumer ≡ waiting → 0 < s.queue.count → s.queue.signal ≡ true

  pub start : ℕ → System A
  start capacity = record { queue = new_queue capacity; consumer = looking; stopped = false }

  start-IsAwake : (capacity : ℕ) → 0 < capacity → IsAwake (start capacity)
  unfolding start
  start-IsAwake capacity h = record { valid = new_queue-IsValid capacity h; woken = λ e p. cc }

  signal-push : (q : Queue A) (x : A) → (push q x).signal ≡ true
  unfolding push
  signal-push q x = refl

  round-empty : (q : Queue A) → after_round (try_pop q).0 ≡ waiting → 0 < (try_pop q).1.count → ⊥
  unfolding try_pop after_round
  round-empty q h p = ground arith

  Step-IsAwake : {s t : System A} → Step s t → IsAwake s → IsAwake t
  Step-IsAwake (produce s x) a = record {
    valid = push-IsValid s.queue x a.valid;
    woken = λ e p. signal-push s.queue x;
  }
  Step-IsAwake (stop s) a = record { valid = a.valid; woken = a.woken }
  Step-IsAwake (look s at) a = record {
    valid = try_pop-IsValid s.queue a.valid;
    woken = λ e p. absurd (round-empty s.queue e p);
  }
  Step-IsAwake (wake s at on) a = record {
    valid = record {
      storage = a.valid.storage;
      room = a.valid.room;
      head_in = a.valid.head_in;
      count_in = a.valid.count_in;
      tail_at = a.valid.tail_at;
    };
    woken = λ e p. cc;
  }
  Step-IsAwake (give_up s at on) a = record { valid = a.valid; woken = λ e p. cc }
  Step-IsAwake (again s o at) a = record { valid = a.valid; woken = λ e p. cc }

  -- In every interleaving of pushes and stops with one consumer, from an empty queue of positive
  -- capacity, the ring is valid, and a consumer that waits while the queue holds a frame finds
  -- the signal set.
  pub Reach-IsAwake :
      (capacity : ℕ) {s : System A} → 0 < capacity → Reach (start capacity) s → IsAwake s
  Reach-IsAwake capacity h here = start-IsAwake capacity h
  Reach-IsAwake capacity h (next r st) = Step-IsAwake st (Reach-IsAwake capacity h r)
