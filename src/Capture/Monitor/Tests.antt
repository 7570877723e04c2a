-- ===== src/Capture/Monitor/Tests.antt =====
-- The theorems of Capture.Monitor, with images whose hash is one of their pixels.
use digital_ghost.Prelude.{
  ℕ, ◌++◌, ◌-◌, ◌*◌, ◌/◌, ltb, leb, ◌≡◌, refl, pos, Bool, true, false, List, [], ◌∷◌, All, none,
  some, arith, lit, text_eq, if◌then◌else◌,
}
use digital_ghost.Prelude.Result.{ok}
use digital_ghost.Filter.Blocklist.{WindowContext, Blocklist}
use digital_ghost.Filter.Blocklist.Reload.{run, new_blocklist, watch}
use digital_ghost.Filter.Blocklist.Tests.{word_libs, word_defaults, word_defaults_valid, some_yaml}
use digital_ghost.Capture.Gate.{GateResult, WindowMetadata, check}
use digital_ghost.Capture.Image.{Image, Field, black, mask_rect}
use digital_ghost.Capture.Image.Masking.{covers, mask_rect-pixel}
use digital_ghost.Capture.Gdi.{dc, GdiEnv, release_handles}
use digital_ghost.Capture.Gdi.Selected.{DeletesSelected, captures-DeletesSelected}
use digital_ghost.Capture.Gdi.Handles.{
  captures, no_handles, created_count, delete_count, captures-released,
}
use digital_ghost.Capture.Downscale.{ScaleMath}
use digital_ghost.Capture.Monitor.{
  Hashing, Frame, MonitorLoop, TickEnv, frame, build_frame, capture_frame, tick, run_ticks,
}
use digital_ghost.Capture.Monitor.Frames.{IsDistinct, AllFrom, run_ticks-Sent}
use digital_ghost.Capture.Monitor.Dwell.{after_ticks}
use digital_ghost.Capture.Monitor.Private.{IsPrivate, run_ticks-IsPrivate}

abbrev scale : ScaleMath ℕ
scale = record {
  of_int = λ n. n;
  mul = λ a b. a * b / 1000;
  div = λ a b. a * 1000 / b;
  lt = ltb;
  trunc = λ n. n;
}

abbrev first_pixel : Hashing ℕ
first_pixel = record {
  hash = λ img. some ((img.pixel 0 0).red);
  distance = λ a b. some (if leb a b then b - a else a - b);
}

abbrev editor : WindowContext
editor = record {
  process_name = lit "code";
  window_title = lit "main.go";
  browser_url = [];
  focused_input_role = [];
  pid = 7;
}

abbrev gate_result : Bool → GateResult
gate_result b = record { blocked = b; reason = lit "pass"; window_ctx = editor }

abbrev grey : Image
grey = record {
  width = 4;
  height = 2;
  pixel = λ x y. record { red = 9; green = 9; blue = 9; alpha = 255 };
}

abbrev gdi_env : GdiEnv
gdi_env = record { screen_dc = 1; mem_dc = 2; bitmap = 3; copies = true; bits = some [] }

abbrev tick_env : Bool → ℕ → TickEnv
tick_env blocked now = record {
  idle_for = 0;
  since_input = 0;
  gate = gate_result blocked;
  now = now;
  dxgi = some grey;
  gdi = gdi_env;
  password = none;
  window = none;
  accepted = true;
}

abbrev start : MonitorLoop ℕ
start = record {
  origin_x = pos 0;
  origin_y = pos 0;
  width = 4;
  height = 2;
  display_index = 0;
  gdi = no_handles;
  prev_frame = none;
  last_window_key = lit "code|main.go";
  window_since = 100;
  is_idle = false;
}

abbrev ticks : List TickEnv
ticks = tick_env false 200 ∷ tick_env true 300 ∷ tick_env false 400 ∷ []

run_ticks-Sent_example :
    IsDistinct scale first_pixel
      (pos 10)
      none
      (run_ticks scale first_pixel (pos 10) (pos 30) ticks start).1
    × AllFrom scale first_pixel ticks (run_ticks scale first_pixel (pos 10) (pos 30) ticks start).1
run_ticks-Sent_example = run_ticks-Sent scale first_pixel (pos 10) (pos 30) ticks start

abbrev defaults_only : Blocklist
defaults_only = record { current = some word_defaults; healthy = true; watching = false }

abbrev editor_window : WindowMetadata
editor_window = record {
  process_name = lit "code";
  window_title = lit "main.go";
  browser_url = [];
  focused_input_role = [];
  pid = 7;
}

-- A tick with the answer of the gate for the editor.
abbrev gated_env : TickEnv
gated_env = record {
  idle_for = 0;
  since_input = 0;
  gate =
      check word_libs (record { blocklist = defaults_only; paused = false }) (ok editor_window) [];
  now = 200;
  dxgi = some grey;
  gdi = gdi_env;
  password = none;
  window = none;
  accepted = true;
}

no_file_loads : run word_libs some_yaml [] none true [] ≡ ok defaults_only
unfolding run new_blocklist watch
no_file_loads = rw word_defaults_valid refl

run_ticks-IsPrivate_example :
    All
      (IsPrivate word_libs word_defaults)
      (run_ticks scale first_pixel (pos 10) (pos 30) (gated_env ∷ []) start).1
run_ticks-IsPrivate_example =
    run_ticks-IsPrivate word_libs some_yaml word_defaults_valid scale first_pixel [] none true
      (pos 10) (pos 30) (gated_env ∷ []) start
      (
        record {
          events = [];
          blocklist = defaults_only;
          loaded = no_file_loads;
          paused = false;
          metadata = ok editor_window;
          background = [];
          answer = refl;
        },
        tt,
      )

abbrev away : List TickEnv
away = tick_env true 200 ∷ tick_env true 300 ∷ []

abbrev back : Frame ℕ
back =
    build_frame scale first_pixel (tick_env false 400)
      (after_ticks scale first_pixel (pos 10) (pos 30) away start) grey

back_captured :
    (capture_frame scale first_pixel
      (tick_env false 400)
      (after_ticks scale first_pixel (pos 10) (pos 30) away start)).1
    ≡ frame back
unfolding capture_frame after_ticks tick lit text_eq
back_captured = refl

key_same : start.last_window_key ≡ lit "code" ++ (lit "|" ++ lit "main.go")
unfolding lit
key_same = refl

abbrev field : Field
field = record { left = pos 1; top = pos 0; width = pos 2; height = pos 1 }

mask_rect-pixel_example :
    (mask_rect field grey).pixel 1 0 ≡ (if covers field 1 0 then black else grey.pixel 1 0)
mask_rect-pixel_example = mask_rect-pixel field grey 1 0 (omega arith) (omega arith)

abbrev two_captures : List (ℕ × ℕ × GdiEnv)
two_captures = (4, 2, gdi_env) ∷ (8, 2, gdi_env) ∷ []

captures-released_example :
    created_count dc 1 (release_handles (captures two_captures no_handles)).calls
    ≡ delete_count dc 1 (release_handles (captures two_captures no_handles)).calls
captures-released_example = captures-released two_captures dc 1 (omega arith)

captures-DeletesSelected_example :
    DeletesSelected (release_handles (captures two_captures no_handles)).calls
captures-DeletesSelected_example = captures-DeletesSelected two_captures
