-- ===== src/Capture/Windows.antt =====
-- What internal/capture/capture_windows.go reports to the privacy gate: the window in front, the URL of
-- a browser, and the processes behind. What Windows answers is an argument, and so is filepath.Base.
pub mod Names
pub mod Tests
use digital_ghost.Prelude.{
  ℕ, zero, suc, ◌+◌, ◌-◌, ◌^◌, ◌%◌, ltb, ◌==◌, Text, Bool, true, false, ◌&&◌, not, List, [], ◌∷◌,
  Option, none, some, is_empty, any, lit, lits, text_eq, contains, to_lower, length, take, drop,
  ◌||◌, if◌then◌else◌,
}
use digital_ghost.Capture.Gate.{WindowMetadata}

-- The class and the text of a child window.
pub record ChildWindow : Type 0 where
  pub class_name : Text
  pub text : Text

-- A top-level window: whether it is the one in front and visible, the ID of its process, and the path
-- of its program, if the process can be opened and has one.
pub record TopWindow : Type 0 where
  pub is_foreground : Bool
  pub is_visible : Bool
  pub pid : ℕ
  pub image_path : Option Text

-- The answers about the window in front.
pub record WindowEnv : Type 0 where
  pub has_foreground : Bool
  pub title : Text
  pub pid : ℕ
  pub image_path : Option Text
  pub children : List ChildWindow
  pub uia_url : Text
  pub focused_password : Bool

abbrev pub is_omnibox : Text → Bool
is_omnibox c = text_eq c (lit "Chrome_OmniboxView") || text_eq c (lit "OmniboxViewViews")

-- EnumChildWindows with its callback: the first omnibox ends it, with a text or without one.
unfoldable pub omnibox_url : List ChildWindow → Text
unfolding lit text_eq
omnibox_url [] = []
omnibox_url (w ∷ ws) = let rest = omnibox_url ws in if is_omnibox w.class_name then w.text else rest

unfoldable pub known_browsers : List Text
unfolding lits
known_browsers =
    lits ("opera" ∷ "chrome" ∷ "firefox" ∷ "msedge" ∷ "brave" ∷ "vivaldi" ∷ "chromium" ∷ [])

-- `if len(name) > 4 && name[len(name)-4:] == ".exe" { name = name[:len(name)-4] }`
unfoldable pub strip_exe : Text → Text
unfolding lit text_eq
strip_exe name =
    if ltb 4 (length name) && text_eq (drop (length name - 4) name) (lit ".exe")
    then take (length name - 4) name
    else name

-- secondsSinceLastInput, in milliseconds: a difference of two uint32. `none` is a failed call.
unfoldable pub since_last_input : (last_input : Option ℕ) → (tick : ℕ) → ℕ
since_last_input none tick = 0
since_last_input (some t) tick = (tick % 2 ^ 32 + 2 ^ 32 - t) % 2 ^ 32

module _ (unicode_lower : Text → Text) (base : Text → Text) where
  unfoldable pub extract_browser_url : (process_name : Text) → WindowEnv → Text
  unfolding omnibox_url known_browsers contains to_lower
  extract_browser_url process_name env =
      if not (any (λ b. contains (to_lower unicode_lower process_name) b) known_browsers)
      then []
      else if not (is_empty (omnibox_url env.children))
      then omnibox_url env.children
      else env.uia_url

  abbrev pub name_of : ℕ → Option Text → Text
  name_of zero path = lit "unknown"
  name_of (suc pid) none = lit "unknown"
  name_of (suc pid) (some path) = strip_exe (base path)

  unfoldable pub query_window_context : WindowEnv → WindowMetadata
  unfolding extract_browser_url strip_exe lit
  query_window_context env =
      let name = name_of env.pid env.image_path in
      if not env.has_foreground
      then record {
        process_name = lit "unknown";
        window_title = [];
        browser_url = [];
        focused_input_role = [];
        pid = 0;
      }
      else record {
        process_name = name;
        window_title = env.title;
        browser_url = extract_browser_url name env;
        focused_input_role = if env.focused_password then lit "password" else [];
        pid = env.pid;
      }

  abbrev pub background_name : Text → Text
  background_name path = to_lower unicode_lower (base path)

  abbrev pub is_skipped : TopWindow → Bool
  is_skipped w = w.is_foreground || (not w.is_visible || w.pid == 0)

  -- EnumWindows with its callback.
  unfoldable pub background_processes : List TopWindow → List Text
  unfolding to_lower
  background_processes [] = []
  background_processes (w ∷ ws) =
      let rest = background_processes ws in
      if is_skipped w
      then rest
      else elim w.image_path [ none ↦ rest | some path ↦ background_name path ∷ rest ]
