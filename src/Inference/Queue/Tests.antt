-- ===== src/Inference/Queue/Tests.antt =====
-- Runs of internal/inference/queue.go at concrete inputs.
use digital_ghost.Prelude.{ℕ, true, [], ◌∷◌, ◌≡◌, refl, some, arith}
use digital_ghost.Inference.Queue.{Queue, make_room, push, try_pop}
use digital_ghost.Inference.Queue.Ring.{IsValid}
use digital_ghost.Inference.Queue.Refine.{
  contents, push_bounded, pop_first, push_refines, try_pop_refines,
}
use digital_ghost.Inference.Queue.Wakeup.{Reach, IsAwake, start, produce, here, next, Reach-IsAwake}

-- Frames 7 and 8 in a ring of two, the older at the end of the buffer.
abbrev full : Queue ℕ
full = record { buf = some 8 ∷ some 7 ∷ []; head = 1; tail = 1; count = 2; cap = 2; signal = true }

full-IsValid : IsValid full
full-IsValid = omega arith

oldest_is_dropped : contents (push full 9) ≡ some 8 ∷ some 9 ∷ []
unfolding push make_room
oldest_is_dropped = refl

push_refines_example : contents (push full 9) ≡ push_bounded 2 (some 7 ∷ some 8 ∷ []) (some 9)
push_refines_example = push_refines full 9 full-IsValid

try_pop_refines_example :
    let (o, r) = try_pop full in (o, contents r) ≡ pop_first (some 7 ∷ some 8 ∷ [])
try_pop_refines_example = try_pop_refines full full-IsValid

pushed : Reach (start 2) (record (start {A = ℕ} 2) { queue = push (start 2).queue 5 })
pushed = next here (produce (start 2) 5)

Reach-IsAwake_example : IsAwake (record (start {A = ℕ} 2) { queue = push (start 2).queue 5 })
Reach-IsAwake_example = Reach-IsAwake 2 (omega arith) pushed
