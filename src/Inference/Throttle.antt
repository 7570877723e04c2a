-- ===== src/Inference/Throttle.antt =====
-- internal/inference/throttle.go: the governor, with its token bucket and its measures of the load. One
-- goroutine calls Acquire; the refills, the measures and DrainBucket come in between in any order.
pub mod Rate
pub mod Tests
use digital_ghost.Prelude.{
  ◌≡◌, ℕ, suc, zero, ◌+◌, ◌-◌, ◌*◌, ◌/◌, ℤ, pos, negsuc, ltℤ, ltb, leb, Bool, true, false,
  if◌then◌else◌, ◌&&◌,
}
use digital_ghost.Config.{ResourceBudgetConfig}

pub record Governor : Type 0 where
  pub cfg : ResourceBudgetConfig
  pub cpu_percent : ℤ
  pub gpu_percent : ℤ
  pub prev_cpu_total : ℕ
  pub prev_cpu_idle : ℕ
  -- the tokens in the channel, and its capacity
  pub tokens : ℕ
  pub cap : ℕ

-- NewGovernor: `make` panics for a negative capacity, and a send on a channel without a buffer that
-- no one receives from blocks for ever.
pub data Start : Type 0 where
  panics blocks : Start
  running : Governor → Start

abbrev pub first_governor : ResourceBudgetConfig → ℕ → Governor
first_governor cfg cap = record {
  cfg = cfg;
  cpu_percent = pos 0;
  gpu_percent = pos 0;
  prev_cpu_total = 0;
  prev_cpu_idle = 0;
  tokens = 1;
  cap = cap;
}

abbrev pub start_with : ResourceBudgetConfig → ℤ → Start
start_with cfg (negsuc n) = panics
start_with cfg (pos zero) = blocks
start_with cfg (pos (suc k)) = running (first_governor cfg (suc k))

unfoldable pub new_governor : ResourceBudgetConfig → Start
new_governor cfg = start_with cfg cfg.max_inference_per_min

abbrev pub with_tokens : Governor → ℕ → Governor
with_tokens g n = record {
  cfg = g.cfg;
  cpu_percent = g.cpu_percent;
  gpu_percent = g.gpu_percent;
  prev_cpu_total = g.prev_cpu_total;
  prev_cpu_idle = g.prev_cpu_idle;
  tokens = n;
  cap = g.cap;
}

-- One tick of refillLoop.
unfoldable pub refill : Governor → Governor
refill g = if ltb g.tokens g.cap then with_tokens g (g.tokens + 1) else g

unfoldable pub drain_bucket : Governor → Governor
drain_bucket g = with_tokens g 0

abbrev neg : ℕ → ℤ
neg zero = pos 0
neg (suc n) = negsuc n

-- int(100 * (dtotal - didle) / dtotal), with dtotal > 0 and the division towards 0.
abbrev pub cpu_of : (dtotal prev_idle idle : ℕ) → ℤ
cpu_of dtotal prev_idle idle =
    if leb idle (dtotal + prev_idle)
    then pos (100 * (dtotal + prev_idle - idle) / dtotal)
    else neg (100 * (idle - (dtotal + prev_idle)) / dtotal)

-- updateMetrics, with what readCPURaw and readGPUPercent return. The counters are not negative.
unfoldable pub update_metrics : (total idle : ℕ) → (gpu : ℤ) → Governor → Governor
update_metrics total idle gpu g = record {
  cfg = g.cfg;
  cpu_percent =
      if ltb 0 g.prev_cpu_total && ltb g.prev_cpu_total total
      then cpu_of (total - g.prev_cpu_total) g.prev_cpu_idle idle
      else pos 0;
  gpu_percent = gpu;
  prev_cpu_total = total;
  prev_cpu_idle = idle;
  tokens = g.tokens;
  cap = g.cap;
}

-- Where the caller of Acquire is: outside, at the top of the loop, in the wait of five seconds, at the
-- receive that follows an empty bucket, back with a token, or back with an error.
pub data Caller : Type 0 where
  outside top sleeping receiving acquired cancelled : Caller

-- The receive that does not block, on a bucket with `n` tokens.
abbrev pub try_token : ℕ → Governor → Governor × Caller
try_token zero g = (g, receiving)
try_token (suc n) g = (with_tokens g n, acquired)

-- A round of the loop of Acquire.
unfoldable pub acquire_round : Governor → Governor × Caller
acquire_round g =
    if ltℤ g.cfg.cpu_idle_threshold g.cpu_percent
    then (g, sleeping)
    else if ltℤ g.cfg.gpu_idle_threshold g.gpu_percent
    then (g, sleeping)
    else try_token g.tokens g

-- What the steps count: a token taken, and a tick of the refill.
pub data Event : Type 0 where
  other token tick : Event

abbrev pub event_of : Caller → Event
event_of outside = other
event_of top = other
event_of sleeping = other
event_of receiving = other
event_of acquired = token
event_of cancelled = other

pub data Step : Governor × Caller → Event → Governor × Caller → Type 0 where
  calls : (g : Governor) → Step (g, outside) other (g, top)
  round : (g : Governor) → Step (g, top) (event_of (acquire_round g).1) (acquire_round g)
  wakes : (g : Governor) → Step (g, sleeping) other (g, top)
  receives :
      (g : Governor) (n : ℕ)
      → g.tokens ≡ suc n
      → Step (g, receiving) token (with_tokens g n, acquired)
  stops_at_top : (g : Governor) → Step (g, top) other (g, cancelled)
  stops_sleeping : (g : Governor) → Step (g, sleeping) other (g, cancelled)
  stops_receiving : (g : Governor) → Step (g, receiving) other (g, cancelled)
  returns : (g : Governor) → Step (g, acquired) other (g, outside)
  refills : (g : Governor) (c : Caller) → Step (g, c) tick (refill g, c)
  drains : (g : Governor) (c : Caller) → Step (g, c) other (drain_bucket g, c)
  measures :
      (g : Governor) (c : Caller) (total idle : ℕ) (gpu : ℤ)
      → Step (g, c) other (update_metrics total idle gpu g, c)

abbrev pub count_token : Event → ℕ → ℕ
count_token other n = n
count_token token n = n + 1
count_token tick n = n

abbrev pub count_tick : Event → ℕ → ℕ
count_tick other n = n
count_tick token n = n
count_tick tick n = n + 1

-- A system that some steps lead to from the start of `g`, with the tokens taken and the ticks so far.
pub data Reach (g : Governor) : Governor × Caller → ℕ → ℕ → Type 0 where
  here : Reach g (g, outside) 0 0
  then_step :
      {s s' : Governor × Caller} {taken ticks : ℕ} {e : Event}
      → Reach g s taken ticks
      → Step s e s'
      → Reach g s' (count_token e taken) (count_tick e ticks)
