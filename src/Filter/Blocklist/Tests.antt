-- ===== src/Filter/Blocklist/Tests.antt =====
-- Runs of internal/filter/blocklist.go at concrete inputs.
use digital_ghost.Prelude.{
  Text, true, false, List, [], ◌∷◌, map, ◌≡◌, refl, ◌↔◌, ◌||◌, Option, none, some, lit, text_eq,
  is_empty, contains, lower_byte, to_lower, drop, if◌then◌else◌,
}
use digital_ghost.Prelude.Result.{Result, ok, err, Returns}
use digital_ghost.Filter.Blocklist.{
  Libs, BlocklistConfig, CompiledBlocklist, WindowContext, Blocklist, CompileError, member, add_key,
  add_lowered, check_compiled, merge_with_defaults,
}
use digital_ghost.Filter.Blocklist.Defaults.{hardcoded_defaults}
use digital_ghost.Filter.Blocklist.Decision.{IsSensitive, check_iff}
use digital_ghost.Filter.Blocklist.Merge.{merge-blocked}
use digital_ghost.Filter.Blocklist.Reload.{FileEvent, run}
use digital_ghost.Filter.Blocklist.Reload.Safety.{Guards, run-Guards}

-- Patterns of the form `(?i)word`.
abbrev pub word_libs : Libs
word_libs = record {
  unicode_lower = λ s. s;
  regexp_compile = λ p. some (λ s. contains (map lower_byte s) (drop 4 p));
}

abbrev pub bare_config : BlocklistConfig
bare_config = record {
  apps = lit "Notes" ∷ [];
  auth_patterns = [];
  url_patterns = lit "(?i)wiki" ∷ [];
  title_patterns = [];
  sensitive_input_roles = [];
}

abbrev pub some_yaml : Text → Option BlocklistConfig
some_yaml s = if is_empty s then none else some bare_config

abbrev or_empty : Result CompileError CompiledBlocklist → CompiledBlocklist
or_empty (ok c) = c
or_empty (err e) = record {
  apps = [];
  auth_patterns = [];
  url_regexps = [];
  title_regexps = [];
  sensitive_inputs = [];
}

abbrev pub word_defaults : CompiledBlocklist
word_defaults = or_empty (hardcoded_defaults word_libs)

pub word_defaults_valid : hardcoded_defaults word_libs ≡ ok word_defaults
unfolding hardcoded_defaults lit add_lowered add_key member text_eq to_lower
word_defaults_valid = refl

abbrev pub vault : WindowContext
vault = record {
  process_name = lit "KeePassXC";
  window_title = lit "My passwords";
  browser_url = [];
  focused_input_role = [];
  pid = 7;
}

abbrev unloaded : Blocklist
unloaded = record { current = none; healthy = true; watching = false }

abbrev events : List FileEvent
events =
    record { has_write = true; has_create = false; content = none }
    ∷ record { has_write = false; has_create = true; content = some (lit "apps: []") }
    ∷ record { has_write = false; has_create = false; content = none }
    ∷ []

vault_is_blocked : (check_compiled word_libs word_defaults vault).blocked ≡ true
unfolding check_compiled hardcoded_defaults lit add_lowered add_key member text_eq to_lower
vault_is_blocked = refl

check_iff_example :
    ((check_compiled word_libs word_defaults vault).blocked ≡ true)
    ↔ IsSensitive word_libs word_defaults vault
check_iff_example = check_iff word_libs word_defaults vault

merge-blocked_example :
    (check_compiled word_libs (merge_with_defaults word_defaults word_defaults) vault).blocked ≡ (
      (check_compiled word_libs word_defaults vault).blocked
      || (check_compiled word_libs word_defaults vault).blocked)
merge-blocked_example = merge-blocked word_libs word_defaults word_defaults vault

run-Guards_example :
    Returns
      (Guards word_libs some_yaml word_defaults_valid)
      (run word_libs some_yaml (lit "b.yaml") (some []) true events)
run-Guards_example =
    run-Guards word_libs some_yaml word_defaults_valid (lit "b.yaml") (some []) true events
