-- ===== src/Capture/Gate.antt =====
-- internal/capture/privacy.go: the gate that decides, before a pixel is read, whether to capture.
-- What the operating system answers (the window's metadata or an error, and the names of the visible
-- background processes) is an argument of `check`.
pub mod Safety
pub mod Reloads
pub mod Tests
use digital_ghost.Prelude.{
  ℕ, Text, Bool, true, false, ◌||◌, List, [], ◌∷◌, ◌++◌, Option, none, some, lit, text_eq, is_empty,
  if◌then◌else◌,
}
use digital_ghost.Prelude.Result.{Result, ok, err}
use digital_ghost.Filter.Blocklist.{Libs, WindowContext, BlockDecision, Blocklist}
use digital_ghost.Filter.Blocklist

pub record Gate : Type 0 where
  pub blocklist : Blocklist
  pub paused : Bool

pub record WindowMetadata : Type 0 where
  pub process_name : Text
  pub window_title : Text
  pub browser_url : Text
  pub focused_input_role : Text
  pub pid : ℕ

pub record GateResult : Type 0 where
  pub blocked : Bool
  pub reason : Text
  pub window_ctx : WindowContext

pub new_gate : Blocklist → Gate
new_gate bl = record { blocklist = bl; paused = false }

pub pause : Gate → Gate
pause g = record g { paused = true }

pub resume : Gate → Gate
resume g = record g { paused = false }

-- filter.WindowContext{}
abbrev pub no_window : WindowContext
no_window = record {
  process_name = [];
  window_title = [];
  browser_url = [];
  focused_input_role = [];
  pid = 0;
}

unfoldable pub to_context : WindowMetadata → WindowContext
to_context m = record {
  process_name = m.process_name;
  window_title = m.window_title;
  browser_url = m.browser_url;
  focused_input_role = m.focused_input_role;
  pid = m.pid;
}

-- filter.WindowContext{ProcessName: p}
abbrev pub process_only : Text → WindowContext
process_only p = record no_window { process_name = p }

abbrev blocked_result : Text → GateResult
blocked_result why = record { blocked = true; reason = why; window_ctx = no_window }

unfoldable pub is_sensitive_role : Text → Bool
is_sensitive_role role = text_eq role (lit "password") || text_eq role (lit "spinbutton")

module _ (L : Libs) where
  -- The reason for which the loop over the background processes ends, if it ends early.
  unfoldable pub background_block : Blocklist → List Text → Option Text
  background_block bl [] = none
  background_block bl (p ∷ ps) =
      let d = Blocklist.check L bl (process_only p) in
      let rest = background_block bl ps in
      if d.blocked then some (lit "background_window:" ++ d.reason) else rest

  -- Steps 3 and 4 of `Check`.
  pub check_role_and_pause : Gate → WindowMetadata → GateResult
  unfolding is_sensitive_role to_context
  check_role_and_pause g m =
      if is_empty m.focused_input_role
      then paused_or_pass
      else if is_sensitive_role m.focused_input_role
      then blocked_result (lit "sensitive_input_focused:" ++ m.focused_input_role)
      else paused_or_pass
    where
      paused_or_pass : GateResult
      paused_or_pass =
          if g.paused
          then blocked_result (lit "capture_paused")
          else record { blocked = false; reason = lit "pass"; window_ctx = to_context m }

  -- Steps 2 to 4 of `Check`.
  pub check_window : Gate → WindowMetadata → List Text → GateResult
  check_window g m background =
      let d = Blocklist.check L g.blocklist (to_context m) in
      if d.blocked
      then blocked_result d.reason
      else elim (background_block g.blocklist background) [
        | some why ↦ blocked_result why
        | none ↦ check_role_and_pause g m
      ]

  pub check : Gate → Result Text WindowMetadata → List Text → GateResult
  check g (err e) background = blocked_result (lit "metadata_query_failed:" ++ e)
  check g (ok m) background = check_window g m background
