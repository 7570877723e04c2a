-- ===== src/Capture/Windows/Tests.antt =====
-- The window in front and the processes behind it on a small desktop.
use digital_ghost.Prelude.{
  ◌≡◌, refl, true, false, [], ◌∷◌, none, some, lit, lits, text_eq, to_lower, contains,
}
use digital_ghost.Filter.Blocklist.{Blocklist, add_lowered, add_key, member}
use digital_ghost.Filter.Blocklist.Defaults.{hardcoded_defaults}
use digital_ghost.Filter.Blocklist.Tests.{word_libs, word_defaults, word_defaults_valid}
use digital_ghost.Capture.Gate.{background_block}
use digital_ghost.Capture.Windows.{
  TopWindow, WindowEnv, background_processes, query_window_context, strip_exe, extract_browser_url,
  omnibox_url, known_browsers,
}
use digital_ghost.Capture.Windows.Names.{background_block-exe}

abbrev defaults_only : Blocklist
defaults_only = record { current = some word_defaults; healthy = true; watching = false }

abbrev behind : TopWindow
behind = record {
  is_foreground = false;
  is_visible = true;
  pid = 7;
  image_path = some (lit "keepassxc.exe");
}

abbrev in_front : WindowEnv
in_front = record {
  has_foreground = true;
  title = lit "Start";
  pid = 5;
  image_path = some (lit "chrome.exe");
  children = record { class_name = lit "OmniboxViewViews"; text = lit "a.org" } ∷ [];
  uia_url = [];
  focused_password = true;
}

front_context : query_window_context (λ t. t) (λ t. t) in_front ≡ record {
  process_name = lit "chrome";
  window_title = lit "Start";
  browser_url = lit "a.org";
  focused_input_role = lit "password";
  pid = 5;
}
unfolding query_window_context strip_exe extract_browser_url omnibox_url known_browsers lit lits
    text_eq contains to_lower
front_context = refl

behind_names : background_processes (λ t. t) (λ t. t) (behind ∷ []) ≡ lit "keepassxc.exe" ∷ []
unfolding background_processes lit to_lower
behind_names = refl

background_block-exe_example :
    background_block word_libs defaults_only (lit "keepassxc.exe" ∷ []) ≡ none
unfolding lit to_lower contains add_lowered add_key member text_eq hardcoded_defaults
background_block-exe_example =
    background_block-exe word_libs defaults_only word_defaults (lit "keepassxc.exe" ∷ [])
      word_defaults_valid refl (record { stem = lit "keepassxc"; ends = refl; no_auth = refl }, tt)
