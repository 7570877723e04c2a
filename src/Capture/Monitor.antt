-- ===== src/Capture/Monitor.antt =====
-- The loop of a monitor in internal/capture/capture_windows.go, with HashFrame and IsDuplicate of
-- internal/capture/frame.go. `F` is the type of the floats and `H` that of the hashes of goimagehash.
pub mod Frames
pub mod Dwell
pub mod Private
pub mod Tests
use digital_ghost.Prelude.{
  ℕ, zero, suc, ◌+◌, ◌-◌, ◌*◌, ltb, ℤ, pos, negsuc, ltℤ, Text, Bool, true, false, ◌&&◌, ◌==◌, not,
  List, [], ◌∷◌, ◌++◌, Option, none, some, text_eq, lit, if◌then◌else◌,
}
use digital_ghost.Storage.Time.{Time}
use digital_ghost.Filter.Blocklist.{WindowContext}
use digital_ghost.Capture.Gate.{GateResult}
use digital_ghost.Capture.Image.{Image, Field, mask_rect, ◌+ℤ◌, clamp_start, clamp_end}
use digital_ghost.Capture.Gdi.{
  Gdi, GdiEnv, GdiError, GdiResult, image, failed, capture_gdi, release_handles,
}
use digital_ghost.Capture.Downscale.{ScaleMath, Rectangle, Scaled, downscale_for_queue}

-- The hash of an image, and the distance of two hashes; `none` is an error.
pub record Hashing (H : Type 0) : Type 0 where
  pub hash : Image → Option H
  pub distance : H → H → Option ℕ

-- RECT of Windows, in coordinates of the virtual screen.
pub record WinRect : Type 0 where
  pub left : ℤ
  pub top : ℤ
  pub right : ℤ
  pub bottom : ℤ

-- The dwell time is in nanoseconds, the time since the last input in milliseconds.
pub record Frame (H : Type 0) : Type 0 where
  pub image : Image
  pub captured_at : Time
  pub window_ctx : WindowContext
  pub window : Rectangle
  pub hash : Option H
  pub display_index : ℕ
  pub dwell : ℕ
  pub since_input : ℕ

pub record MonitorLoop (H : Type 0) : Type 0 where
  pub origin_x : ℤ
  pub origin_y : ℤ
  pub width : ℕ
  pub height : ℕ
  pub display_index : ℕ
  pub gdi : Gdi
  pub prev_frame : Option (Frame H)
  pub last_window_key : Text
  pub window_since : Time
  pub is_idle : Bool

-- What a tick meets: the time since the last input, before and in the capture; the answer of the gate;
-- the time; the frame of DXGI, if there is a session and it gives one; the answers of GDI; the field of
-- a password that has the focus; the window in front; and whether the channel takes a frame.
pub record TickEnv : Type 0 where
  pub idle_for : ℕ
  pub since_input : ℕ
  pub gate : GateResult
  pub now : Time
  pub dxgi : Option Image
  pub gdi : GdiEnv
  pub password : Option Field
  pub window : Option WinRect
  pub accepted : Bool

pub data Captured (H : Type 0) : Type 0 where
  nothing : Captured H
  failure : GdiError → Captured H
  frame : Frame H → Captured H

abbrev pub neg : ℤ → ℤ
neg (pos zero) = pos 0
neg (pos (suc n)) = negsuc n
neg (negsuc n) = pos (n + 1)

abbrev pub no_rect : Rectangle
no_rect = record { min_x = 0; min_y = 0; max_x = 0; max_y = 0 }

abbrev pub window_key : WindowContext → Text
window_key c = c.process_name ++ (lit "|" ++ c.window_title)

abbrev pub mask : Option Field → Image → Image
mask none img = img
mask (some f) img = mask_rect f img

-- image.Rect, which puts corners in the other order right.
abbrev pub image_rect : WinRect → WinRect
image_rect r = record {
  left = if ltℤ r.right r.left then r.right else r.left;
  top = if ltℤ r.bottom r.top then r.bottom else r.top;
  right = if ltℤ r.right r.left then r.left else r.right;
  bottom = if ltℤ r.bottom r.top then r.top else r.bottom;
}

-- The window in front inside the image, if it is larger than 32 pixels there.
unfoldable pub active_window : (x y : ℤ) → Option WinRect → Image → Rectangle
active_window x y none img = no_rect
active_window x y (some w) img =
    let r = image_rect w in
    let x0 = clamp_start (r.left +ℤ neg x) in
    let y0 = clamp_start (r.top +ℤ neg y) in
    let x1 = clamp_end (r.right +ℤ neg x) img.width in
    let y1 = clamp_end (r.bottom +ℤ neg y) img.height in
    if (ltℤ r.left r.right && ltℤ r.top r.bottom) && (ltb 32 (x1 - x0) && ltb 32 (y1 - y0))
    then record { min_x = x0; min_y = y0; max_x = x1; max_y = y1 }
    else no_rect

-- The rate of the ticker: an fps that is not positive counts as 1.
abbrev pub idle_threshold : ℤ → ℕ
idle_threshold (pos zero) = 30
idle_threshold (pos (suc n)) = suc n
idle_threshold (negsuc n) = 30

module _ {F H : Type 0} (S : ScaleMath F) (hashing : Hashing H) where
  -- IsDuplicate, with `none` for its error
  unfoldable pub is_duplicate : Frame H → Frame H → ℤ → Option Bool
  is_duplicate a b threshold = elim a.hash [
    | none ↦ some false
    | some h ↦ elim b.hash [
      | none ↦ some false
      | some k ↦ elim (hashing.distance h k) [ none ↦ none | some d ↦ some (ltℤ (pos d) threshold) ]
    ]
  ]

  abbrev pub with_gdi : Gdi → MonitorLoop H → MonitorLoop H
  with_gdi g m = record m { gdi = g }

  -- A window with another key begins its time now.
  abbrev pub track : Text → Time → MonitorLoop H → MonitorLoop H
  track key now m =
      if text_eq key m.last_window_key
      then m
      else record m { last_window_key = key; window_since = now }

  -- The frame of an image, from the masking on.
  unfoldable pub build_frame : TickEnv → MonitorLoop H → Image → Frame H
  unfolding active_window
  build_frame env m img =
      let masked = mask env.password img in
      let scaled =
        downscale_for_queue S masked (active_window m.origin_x m.origin_y env.window masked) in
      record {
        image = scaled.image;
        captured_at = env.now;
        window_ctx = env.gate.window_ctx;
        window = scaled.window;
        hash = hashing.hash masked;
        display_index = m.display_index;
        dwell = env.now - m.window_since;
        since_input = env.since_input;
      }

  abbrev pub framed : TickEnv → MonitorLoop H → Gdi × GdiResult → MonitorLoop H × Captured H
  framed env m (g, failed e) = (with_gdi g m, failure e)
  framed env m (g, image img) = (with_gdi g m, frame (build_frame env (with_gdi g m) img))

  -- captureFrame behind the test of the gate, with the image of DXGI if there is one.
  abbrev pub captured_by :
      (blocked : Bool) → Option Image → TickEnv → MonitorLoop H → MonitorLoop H × Captured H
  captured_by true img env m = (m, nothing)
  captured_by false (some img) env m =
      let tracked = track (window_key env.gate.window_ctx) env.now m in
      (tracked, frame (build_frame env tracked img))
  captured_by false none env m =
      let tracked = track (window_key env.gate.window_ctx) env.now m in
      framed env tracked (capture_gdi tracked.width tracked.height env.gdi tracked.gdi)

  -- captureFrame. DXGI serves the first display; without a frame of it, GDI does.
  unfoldable pub capture_frame : TickEnv → MonitorLoop H → MonitorLoop H × Captured H
  unfolding build_frame
  capture_frame env m =
      captured_by env.gate.blocked (if m.display_index == 0 then env.dxgi else none) env m

  abbrev pub duplicates : Frame H → Option (Frame H) → ℤ → Bool
  duplicates f none threshold = false
  duplicates f (some p) threshold = elim (is_duplicate f p threshold) [ none ↦ false | some d ↦ d ]

  abbrev pub send_if :
      (duplicate accepted : Bool) → MonitorLoop H → Frame H → MonitorLoop H × Option (Frame H)
  send_if true accepted m f = (m, none)
  send_if false true m f = (record m { prev_frame = some f }, some f)
  send_if false false m f = (m, none)

  -- What becomes of a captured frame: the loop, and the frame if it is sent.
  unfoldable pub send :
      (threshold : ℤ)
      → (accepted : Bool) → MonitorLoop H × Captured H
      → MonitorLoop H × Option (Frame H)
  unfolding is_duplicate
  send threshold accepted (m, nothing) = (m, none)
  send threshold accepted (m, failure e) = (m, none)
  send threshold accepted (m, frame f) = send_if (duplicates f m.prev_frame threshold) accepted m f

  -- More than the threshold without an input: the ticker goes at the idle rate.
  abbrev pub set_idle : (idle_sec : ℤ) → TickEnv → MonitorLoop H → MonitorLoop H
  set_idle idle_sec env m = record m { is_idle = ltb (idle_threshold idle_sec * 1000) env.idle_for }

  -- A tick of the loop in `run`.
  unfoldable pub tick :
      (threshold idle_sec : ℤ) → TickEnv → MonitorLoop H → MonitorLoop H × Option (Frame H)
  unfolding send capture_frame
  tick threshold idle_sec env m =
      send threshold env.accepted (capture_frame env (set_idle idle_sec env m))

  abbrev pub sent : Option (Frame H) → List (Frame H) → List (Frame H)
  sent none fs = fs
  sent (some f) fs = f ∷ fs

  -- The ticks until the stop channel is closed, which releases the handles: the frames that were sent.
  unfoldable pub run_ticks :
      (threshold idle_sec : ℤ) → List TickEnv → MonitorLoop H → MonitorLoop H × List (Frame H)
  unfolding tick release_handles
  run_ticks threshold idle_sec [] m = (record m { gdi = release_handles m.gdi }, [])
  run_ticks threshold idle_sec (env ∷ es) m =
      let (m', f) = tick threshold idle_sec env m in
      let (m'', fs) = run_ticks threshold idle_sec es m' in (m'', sent f fs)
