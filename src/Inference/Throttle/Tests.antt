-- ===== src/Inference/Throttle/Tests.antt =====
-- The theorems of Inference.Throttle on the default budget.
use digital_ghost.Prelude.{ℕ, ◌≡◌, refl, pos, ltb, leb, Text, Option, some, lit, text_eq}
use digital_ghost.Prelude.Result.{ok}
use digital_ghost.Config.{ResourceBudgetConfig, Floats, Url, defaults, validate, first_error}
use digital_ghost.Inference.Throttle.{
  outside, refills, refill, here, then_step, first_governor, new_governor, running,
}
use digital_ghost.Inference.Throttle.Rate.{IsLimited, Reach-IsLimited}

abbrev budget : ResourceBudgetConfig
budget = record {
  max_cpu_pct = pos 20;
  max_gpu_pct = pos 60;
  max_inference_per_min = pos 6;
  cpu_idle_threshold = pos 40;
  gpu_idle_threshold = pos 60;
}

started : new_governor budget ≡ running (first_governor budget 6)
unfolding new_governor
started = refl

Reach-IsLimited_example : IsLimited 6 (refill (first_governor budget 6)) 0 1
Reach-IsLimited_example =
    Reach-IsLimited budget 6 (first_governor budget 6) refl started
      (then_step here (refills (first_governor budget 6) outside))

abbrev tenths : Floats ℕ
tenths = record { lt = ltb; le = leb; tenths = λ n. n }

abbrev to_self : Text → Option Url
to_self t = some (record { scheme = lit "http"; hostname = lit "localhost" })

defaults_valid : validate tenths to_self (defaults tenths) ≡ ok tt
unfolding validate first_error defaults lit text_eq
defaults_valid = refl
