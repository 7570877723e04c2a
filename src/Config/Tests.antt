-- ===== src/Config/Tests.antt =====
-- The theorems of Config with natural numbers for floats.
use digital_ghost.Prelude.{ℕ, pos, ltb, leb, ◌≡◌, refl, ◌↔◌, Text, [], Option, some, lit, text_eq}
use digital_ghost.Prelude.Result.{ok}
use digital_ghost.Config.{
  Floats, Url, Config, present, first_error, validate, expand_paths, defaults, load_file, load,
}
use digital_ghost.Config.Laws.{IsSafe, validate_iff, validate_any_rate, with_rate}
use digital_ghost.Config.Loading.{IsLoaded, load-IsLoaded}

abbrev tenths : Floats ℕ
tenths = record { lt = ltb; le = leb; tenths = λ n. n }

abbrev to_self : Text → Option Url
to_self t = some (record { scheme = lit "http"; hostname = lit "localhost" })

abbrev same_config : Text → Config ℕ → Option (Config ℕ)
same_config t c = some c

validate_iff_example :
    (validate tenths to_self (defaults tenths) ≡ ok tt) ↔ IsSafe tenths to_self (defaults tenths)
validate_iff_example = validate_iff tenths to_self (defaults tenths)

validate_any_rate_example :
    validate tenths to_self (with_rate (pos 0) (defaults tenths))
    ≡ validate tenths to_self (defaults tenths)
validate_any_rate_example = validate_any_rate tenths to_self (defaults tenths) (pos 0)

loaded :
    load tenths to_self same_config (λ p. p) (present [])
    ≡ ok (expand_paths (λ p. p) (defaults tenths))
unfolding load load_file validate first_error defaults lit text_eq
loaded = refl

load-IsLoaded_example :
    IsLoaded tenths to_self same_config
      (λ p. p)
      (present [])
      (expand_paths (λ p. p) (defaults tenths))
load-IsLoaded_example =
    load-IsLoaded tenths to_self same_config (λ p. p) (present [])
      (expand_paths (λ p. p) (defaults tenths)) loaded
