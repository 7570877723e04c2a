-- ===== src/Capture/Gate/Tests.antt =====
-- Runs of internal/capture/privacy.go at concrete inputs.
use digital_ghost.Prelude.{
  Text, true, false, [], ◌∷◌, ◌≡◌, refl, ◌↔◌, none, some, lit, text_eq, to_lower, contains,
}
use digital_ghost.Prelude.Result.{Result, ok, Returns}
use digital_ghost.Filter.Blocklist.{
  Blocklist, check_compiled, add_lowered, add_key, member, first_match,
}
use digital_ghost.Filter.Blocklist
use digital_ghost.Filter.Blocklist.Defaults.{hardcoded_defaults}
use digital_ghost.Filter.Blocklist.Reload.{run}
use digital_ghost.Filter.Blocklist.Tests.{word_libs, word_defaults, word_defaults_valid, some_yaml}
use digital_ghost.Capture.Gate.{
  Gate, WindowMetadata, no_window, to_context, check, check_window, check_role_and_pause,
  background_block, pause,
}
use digital_ghost.Capture.Gate.Safety.{IsAllowed, check_pass_iff, check-window_ctx}
use digital_ghost.Capture.Gate.Reloads.{Refuses, gate-Refuses}

abbrev defaults_only : Blocklist
defaults_only = record { current = some word_defaults; healthy = true; watching = false }

abbrev running : Gate
running = record { blocklist = defaults_only; paused = false }

abbrev editor : WindowMetadata
editor = record {
  process_name = lit "emacs";
  window_title = lit "main.go";
  browser_url = [];
  focused_input_role = [];
  pid = 12;
}

editor_passes : (check word_libs running (ok editor) (lit "dock" ∷ [])).blocked ≡ false
unfolding check check_window background_block check_role_and_pause Blocklist.check check_compiled
    hardcoded_defaults lit add_lowered add_key member text_eq to_lower contains first_match
    Blocklist.check_url Blocklist.check_title Blocklist.check_role
editor_passes = refl

vault_behind_blocks : (check word_libs running (ok editor) (lit "KeePassXC" ∷ [])).blocked ≡ true
unfolding check check_window background_block check_role_and_pause Blocklist.check check_compiled
    hardcoded_defaults lit add_lowered add_key member text_eq to_lower contains first_match
    Blocklist.check_url Blocklist.check_title Blocklist.check_role
vault_behind_blocks = refl

pause_blocks : (check word_libs (pause running) (ok editor) []).blocked ≡ true
unfolding check check_window background_block check_role_and_pause Blocklist.check check_compiled
    pause hardcoded_defaults lit add_lowered add_key member text_eq to_lower contains first_match
    Blocklist.check_url Blocklist.check_title Blocklist.check_role
pause_blocks = refl

check_pass_iff_example :
    ((check word_libs running (ok editor) (lit "dock" ∷ [])).blocked ≡ false) ↔ (
      (m : WindowMetadata) × (◌≡◌ {A = Result Text WindowMetadata} (ok editor) (ok m))
      × IsAllowed word_libs running m (lit "dock" ∷ []))
check_pass_iff_example = check_pass_iff word_libs running (ok editor) (lit "dock" ∷ [])

check-window_ctx_example :
    let r = check word_libs running (ok editor) [] in
    (r.blocked ≡ true → r.window_ctx ≡ no_window)
    × (r.blocked ≡ false
        → (m : WindowMetadata) × (◌≡◌ {A = Result Text WindowMetadata} (ok editor) (ok m))
          × (r.window_ctx ≡ to_context m))
check-window_ctx_example = check-window_ctx word_libs running (ok editor) []

gate-Refuses_example : Returns (Refuses word_libs some_yaml word_defaults_valid) (
    run word_libs some_yaml
      (lit "b.yaml")
      none
      true
      (record { has_write = true; has_create = false; content = some (lit "x") } ∷ []))
gate-Refuses_example =
    gate-Refuses word_libs some_yaml word_defaults_valid (lit "b.yaml") none true
      (record { has_write = true; has_create = false; content = some (lit "x") } ∷ [])
