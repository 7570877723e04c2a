-- ===== src/Inference/Throttle/Rate.antt =====
-- How many tokens the governor gives out, and under which load.
use digital_ghost.Prelude.{
  ℕ, suc, zero, ◌+◌, ◌≤◌, ◌≡◌, refl, sym, ap, ◌∙◌, inl, inr, ℤ, pos, negsuc, ltℤ, ltb, true, false,
  arith, Bool-cases,
}
use digital_ghost.Prelude.{Text, Option}
use digital_ghost.Prelude.Result.{ok}
use digital_ghost.Config.{ResourceBudgetConfig, Floats, Url, Config, validate}
use digital_ghost.Config.Laws.{with_rate, validate_any_rate}
use digital_ghost.Inference.Throttle.{
  Governor, Start, running, panics, blocks, first_governor, start_with, new_governor, with_tokens,
  refill, drain_bucket, update_metrics, Caller, top, receiving, acquired, acquire_round, try_token,
  Event, event_of, Step, calls, round, wakes, receives, stops_at_top, stops_sleeping,
  stops_receiving, returns, refills, drains, measures, count_token, count_tick, Reach, here,
  then_step,
}

-- The account of the tokens: those taken and those left are no more than one and the ticks, and no
-- more are left than the bucket holds.
pub record IsPaced (g g' : Governor) (taken ticks : ℕ) : Type 0 where
  pub paced : taken + g'.tokens ≤ g.tokens + ticks
  pub fits : g'.tokens ≤ g'.cap
  pub same_cap : g'.cap ≡ g.cap

try_token-IsPaced :
    (g g' : Governor) (taken ticks n : ℕ)
    → g'.tokens ≡ n
    → IsPaced g g' taken ticks
    → IsPaced g
        (try_token n g').0
        (count_token (event_of (try_token n g').1) taken)
        (count_tick (event_of (try_token n g').1) ticks)
try_token-IsPaced g g' taken ticks zero q h = h
try_token-IsPaced g g' taken ticks (suc n) q h = record {
  paced = omega (arith, h.paced, q);
  fits = omega (arith, h.fits, q);
  same_cap = h.same_cap;
}

round-IsPaced :
    (g g' : Governor) (taken ticks : ℕ)
    → IsPaced g g' taken ticks
    → IsPaced g
        (acquire_round g').0
        (count_token (event_of (acquire_round g').1) taken)
        (count_tick (event_of (acquire_round g').1) ticks)
unfolding acquire_round
round-IsPaced g g' taken ticks h =
    elim (Bool-cases (ltℤ g'.cfg.cpu_idle_threshold g'.cpu_percent)) [
      | inl q ↦ rw q h
      | inr q ↦ elim (Bool-cases (ltℤ g'.cfg.gpu_idle_threshold g'.gpu_percent)) [
        | inl p ↦ rw (q, p) h
        | inr p ↦ rw (q, p) (try_token-IsPaced g g' taken ticks g'.tokens refl h)
      ]
    ]

fits_one : (m n : ℕ) → ltb m n ≡ true → m + 1 ≤ n
fits_one m n h = ground arith

refill-IsPaced :
    (g g' : Governor) (taken ticks : ℕ)
    → IsPaced g g' taken ticks
    → IsPaced g (refill g') taken (ticks + 1)
unfolding refill
refill-IsPaced g g' taken ticks h = elim (Bool-cases (ltb g'.tokens g'.cap)) [
  | inl q ↦ simp q (record {
    paced = omega (arith, h.paced);
    fits = fits_one g'.tokens g'.cap q;
    same_cap = h.same_cap;
  })
  | inr q ↦ simp q (record { paced = omega (arith, h.paced); fits = h.fits; same_cap = h.same_cap })
]

Step-IsPaced :
    (g : Governor) {s s' : Governor × Caller} {e : Event} (taken ticks : ℕ)
    → Step s e s'
    → IsPaced g s.0 taken ticks
    → IsPaced g s'.0 (count_token e taken) (count_tick e ticks)
unfolding drain_bucket update_metrics
Step-IsPaced g taken ticks (calls g') h = h
Step-IsPaced g taken ticks (round g') h = round-IsPaced g g' taken ticks h
Step-IsPaced g taken ticks (wakes g') h = h
Step-IsPaced g taken ticks (receives g' n q) h = record {
  paced = omega (arith, h.paced, q);
  fits = omega (arith, h.fits, q);
  same_cap = h.same_cap;
}
Step-IsPaced g taken ticks (stops_at_top g') h = h
Step-IsPaced g taken ticks (stops_sleeping g') h = h
Step-IsPaced g taken ticks (stops_receiving g') h = h
Step-IsPaced g taken ticks (returns g') h = h
Step-IsPaced g taken ticks (refills g' c) h = refill-IsPaced g g' taken ticks h
Step-IsPaced g taken ticks (drains g' c) h = record {
  paced = omega (arith, h.paced);
  fits = omega arith;
  same_cap = h.same_cap;
}
Step-IsPaced g taken ticks (measures g' c total idle gpu) h = record {
  paced = h.paced;
  fits = h.fits;
  same_cap = h.same_cap;
}

-- The rate limit: in every run from the start with a positive rate, the tokens taken are no more than
-- one and the ticks of the refill, and the bucket never holds more than the rate.
pub Reach-IsPaced :
    (g : Governor) {s : Governor × Caller} {taken ticks : ℕ}
    → g.tokens ≤ g.cap
    → Reach g s taken ticks
    → IsPaced g s.0 taken ticks
Reach-IsPaced g h here = record { paced = omega arith; fits = h; same_cap = refl }
Reach-IsPaced g h (then_step {taken = taken} {ticks = ticks} r step) =
    Step-IsPaced g taken ticks step (Reach-IsPaced g h r)

-- The same for a governor that the program starts.
pub record IsLimited (rate : ℕ) (g' : Governor) (taken ticks : ℕ) : Type 0 where
  pub taken_most : taken ≤ 1 + ticks
  pub tokens_most : g'.tokens ≤ rate

abbrev governor_or : Governor → Start → Governor
governor_or d panics = d
governor_or d blocks = d
governor_or d (running g) = g

-- A governor that runs has one token and the capacity of its rate.
record IsFresh (rate : ℕ) (g : Governor) : Type 0 where
  one : g.tokens ≡ 1
  capacity : g.cap ≡ rate
  positive : 1 ≤ rate

start_with-IsFresh :
    (cfg : ResourceBudgetConfig) (rate : ℕ) (g : Governor)
    → start_with cfg (pos rate) ≡ running g
    → IsFresh rate g
start_with-IsFresh cfg zero g h = absurd cc
start_with-IsFresh cfg (suc k) g h =
    let e = ap (governor_or g) h in
    record {
      one = ap (λ x. x.tokens) (sym e);
      capacity = ap (λ x. x.cap) (sym e);
      positive = omega arith;
    }

-- In every run of a governor that starts with a positive rate, with refills, drains, measures and
-- calls in any order, the tokens taken are at most one more than the ticks of the refill, and the
-- bucket never holds more than the rate.
pub Reach-IsLimited :
    (cfg : ResourceBudgetConfig) (rate : ℕ) (g : Governor) {s : Governor × Caller} {taken ticks : ℕ}
    → cfg.max_inference_per_min ≡ pos rate
    → new_governor cfg ≡ running g
    → Reach g s taken ticks
    → IsLimited rate s.0 taken ticks
unfolding new_governor
Reach-IsLimited cfg rate g q start r =
    let fresh = start_with-IsFresh cfg rate g (ap (start_with cfg) (sym q) ∙ start) in
    let h = Reach-IsPaced g (omega (arith, fresh.one, fresh.capacity, fresh.positive)) r in
    record {
      taken_most = omega (arith, h.paced, fresh.one);
      tokens_most = omega (arith, h.fits, h.same_cap, fresh.capacity);
    }

-- If a configuration is valid, it is valid with the rate 0 too, with which the start of the
-- governor blocks, and with a negative rate, with which it panics.
new_governor_bad_rate :
    {F : Type 0} (floats : Floats F) (parse_url : Text → Option Url) (c : Config F) (n : ℕ)
    → validate floats parse_url c ≡ ok tt
    → (validate floats parse_url (with_rate (pos 0) c) ≡ ok tt)
      × (new_governor (with_rate (pos 0) c).resource_budget ≡ blocks)
      × (validate floats parse_url (with_rate (negsuc n) c) ≡ ok tt)
      × (new_governor (with_rate (negsuc n) c).resource_budget ≡ panics)
unfolding new_governor
new_governor_bad_rate floats parse_url c n h = (
  validate_any_rate floats parse_url c (pos 0) ∙ h,
  refl,
  validate_any_rate floats parse_url c (negsuc n) ∙ h,
  refl,
)

not_busy : (z : ℤ) (m : ℕ) → z ≡ pos m → ltℤ z (pos 0) ≡ false
not_busy z m q = rw q (ground arith)

some_room : (k : ℕ) → ltb 0 (suc k) ≡ true
some_room k = ground arith

first_round :
    (cfg : ResourceBudgetConfig) (cap m n : ℕ)
    → cfg.cpu_idle_threshold ≡ pos m
    → cfg.gpu_idle_threshold ≡ pos n
    → acquire_round (first_governor cfg cap) ≡ (with_tokens (first_governor cfg cap) 0, acquired)
unfolding acquire_round
first_round cfg cap m n c d =
    simp (acquire_round, not_busy cfg.cpu_idle_threshold m c, not_busy cfg.gpu_idle_threshold n d)
      refl

second_round :
    (cfg : ResourceBudgetConfig) (cap m n : ℕ)
    → cfg.cpu_idle_threshold ≡ pos m
    → cfg.gpu_idle_threshold ≡ pos n
    → acquire_round (with_tokens (first_governor cfg cap) 0)
      ≡ (with_tokens (first_governor cfg cap) 0, receiving)
unfolding acquire_round
second_round cfg cap m n c d =
    simp (acquire_round, not_busy cfg.cpu_idle_threshold m c, not_busy cfg.gpu_idle_threshold n d)
      refl

round_to :
    (g : Governor) (s : Governor × Caller) → acquire_round g ≡ s → Step (g, top) (event_of s.1) s
round_to g s q = rw q at (round g)

-- A governor after a measure of the GPU, and one more tick.
abbrev busy : ResourceBudgetConfig → ℕ → ℤ → Governor
busy cfg cap gpu = refill (update_metrics 0 0 gpu (with_tokens (first_governor cfg cap) 0))

busy_facts :
    (cfg : ResourceBudgetConfig) (k : ℕ) (gpu : ℤ)
    → ((busy cfg (suc k) gpu).tokens ≡ 1) × ((busy cfg (suc k) gpu).gpu_percent ≡ gpu)
unfolding refill update_metrics
busy_facts cfg k gpu = simp (refill, some_room k) (refl, refl)

-- With thresholds that are not negative and a positive rate there is a run with one tick in which
-- a second token is taken while the measured load of the GPU is whatever one likes.
Reach-acquired_busy :
    (cfg : ResourceBudgetConfig) (k m n : ℕ) (gpu : ℤ)
    → cfg.cpu_idle_threshold ≡ pos m
    → cfg.gpu_idle_threshold ≡ pos n
    → (g' : Governor) × (g'.gpu_percent ≡ gpu)
      × Reach (first_governor cfg (suc k)) (g', acquired) 2 1
Reach-acquired_busy cfg k m n gpu c d =
    let g = first_governor cfg (suc k) in
    let g1 = with_tokens g 0 in
    let g2 = busy cfg (suc k) gpu in
    let (one, load) = busy_facts cfg k gpu in
    let first : Reach g (g1, acquired) 1 0 =
      then_step (then_step here (calls g))
        (round_to g (g1, acquired) (first_round cfg (suc k) m n c d)) in
    let second : Reach g (g1, receiving) 1 0 =
      then_step (then_step (then_step first (returns g1)) (calls g1))
        (round_to g1 (g1, receiving) (second_round cfg (suc k) m n c d)) in
    let third : Reach g (g2, receiving) 1 1 =
      then_step (then_step second (measures g1 receiving 0 0 gpu))
        (refills (update_metrics 0 0 gpu g1) receiving) in
    (with_tokens g2 0, load, then_step third (receives g2 0 one))
