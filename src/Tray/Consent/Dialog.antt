-- ===== src/Tray/Consent/Dialog.antt =====
-- internal/tray/consent.go: the text of the consent dialog.
use digital_ghost.Prelude.{Text, List, [], ◌∷◌, ◌++◌, lits}

-- The lines with a newline between two of them.
abbrev join_lines : List Text → Text
join_lines [] = []
join_lines (l ∷ []) = l
join_lines (l ∷ m ∷ ls) = l ++ (10 ∷ join_lines (m ∷ ls))

unfoldable pub consent_dialog_text : Text
consent_dialog_text = join_lines (
    lits (
      "Digital Ghost will run in the background and capture"
      ∷ "screenshots of your screen at a low frame rate (default: 2 frames per second)." ∷ ""
      ∷ "These screenshots are:" ∷ "  • Processed locally by an AI model on YOUR computer"
      ∷ "  • Never sent to any server or external service"
      ∷ "  • Stored in an encrypted local database"
      ∷ "  • Used only to power a personal memory search feature" ∷ "" ∷ "Digital Ghost ALSO:"
      ∷ "  • Captures all connected monitors (multi-monitor setups are fully recorded)"
      ∷ "  • Reads the URL from your browser's address bar when a browser is the active window"
      ∷ "    (supported browsers: Chrome, Edge, Firefox, Opera, Brave, Vivaldi, Chromium)"
      ∷ "  • Measures keyboard/mouse activity to assess engagement (no keystrokes are recorded,"
      ∷ "    only the time elapsed since the last input event)" ∷ ""
      ∷ "Digital Ghost will NOT capture:"
      ∷ "  • Password managers (1Password, Bitwarden, KeePass, etc.)"
      ∷ "  • Banking or financial websites" ∷ "  • Login / authentication screens"
      ∷ "  • Medical records portals" ∷ "" ∷ "You can stop Digital Ghost at any time by:"
      ∷ "  • Right-clicking the tray icon and selecting \"Stop\"" ∷ "  • Running: digitalghost stop"
      ∷ "  • Wiping all data: digitalghost wipe --confirm" ∷ ""
      ∷ "A tray icon (◉) will always be visible while Digital Ghost is running."
      ∷ "There is no silent or hidden mode." ∷ ""
      ∷ "Do you agree to allow Digital Ghost to capture your screen?" ∷ []))
