-- ===== src/Inference/Queue.antt =====
-- internal/inference/queue.go: a ring buffer of frames that drops the oldest frame when it is full.
-- A frame is a value of any type; `none` in the buffer is the nil pointer. A method that changes
-- the queue returns the new one. `signal` is whether the channel `notEmpty`, of capacity one,
-- holds its element.
pub mod Ring
pub mod Refine
pub mod Wakeup
pub mod Tests
use digital_ghost.Prelude.{
  ℕ, ◌+◌, ◌-◌, ◌%◌, Bool, true, false, List, Option, none, some, ltb, ◌==◌, if◌then◌else◌, get_or,
  set, replicate,
}

pub record Queue {ℓ} (A : Type ℓ) : Type ℓ where
  pub buf : List (Option A)
  pub head : ℕ
  pub tail : ℕ
  pub count : ℕ
  pub cap : ℕ
  pub signal : Bool

module _ {ℓ} {A : Type ℓ} where
  pub new_queue : ℕ → Queue A
  new_queue capacity = record {
    buf = replicate capacity none;
    head = 0;
    tail = 0;
    count = 0;
    cap = capacity;
    signal = false;
  }

  -- The first lines of `Push`: a full queue loses its oldest frame.
  pub make_room : Queue A → Queue A
  make_room q =
      if q.count == q.cap then record q { head = (q.head + 1) % q.cap; count = q.count - 1 } else q

  pub push : Queue A → A → Queue A
  push q frame =
      let r = make_room q in
      record r {
        buf = set r.buf r.tail (some frame);
        tail = (r.tail + 1) % r.cap;
        count = r.count + 1;
        signal = true;
      }

  -- One round of the loop of `Pop` under the lock: the frame that it returns, or `none` where the
  -- queue is empty and the caller goes on to wait.
  pub try_pop : Queue A → Option (Option A) × Queue A
  try_pop q =
      if ltb 0 q.count
      then (
        some (get_or q.buf q.head none),
        record q { buf = set q.buf q.head none; head = (q.head + 1) % q.cap; count = q.count - 1 },
      )
      else (none, q)

  pub len : Queue A → ℕ
  len q = q.count

  -- The numerator and the denominator of `FillRatio`.
  pub fill_ratio : Queue A → ℕ × ℕ
  fill_ratio q = (q.count, q.cap)
