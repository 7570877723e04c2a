-- ===== src/Capture/Dxgi.antt =====
-- internal/capture/dxgi_windows.go: the session of desktop duplication and the capturer over it. What COM
-- answers to each call is an argument: `none` is a failure, and a pointer is not 0. The calls that
-- count references are kept, the latest first.
pub mod Counts
pub mod References
pub mod Tests
use digital_ghost.Prelude.{
  ℕ, zero, suc, ◌+◌, ◌*◌, ◌==◌, Text, Bool, List, [], ◌∷◌, Option, none, some, get_or,
  if◌then◌else◌,
}
use digital_ghost.Capture.Image.{Rgba, Image}

pub data ComCall : Type 0 where
  acquired released : (pointer : ℕ) → ComCall
  frame_acquired frame_released mapped unmapped : ComCall

-- The pointers of a session; 0 is none.
pub record Session : Type 0 where
  pub device : ℕ
  pub ctx : ℕ
  pub dupl : ℕ
  pub width : ℕ
  pub height : ℕ

-- The pointers that the calls of OpenDXGISession give: the device with its context, the device of
-- DXGI, the adapter, the output, the output of version 1 and the duplication. Then the screen.
pub record OpenEnv : Type 0 where
  pub device : Option (ℕ × ℕ)
  pub dxgi_device : Option ℕ
  pub adapter : Option ℕ
  pub output : Option ℕ
  pub output1 : Option ℕ
  pub dupl : Option ℕ
  pub width : ℕ
  pub height : ℕ

-- AcquireNextFrame
pub data NextFrame : Type 0 where
  wait_timeout access_lost not_acquired : NextFrame
  resource : (pointer : ℕ) → NextFrame

-- The answers to the calls of CaptureFrame; a mapped texture has a row pitch and bytes.
pub record CaptureEnv : Type 0 where
  pub next : NextFrame
  pub texture : Option ℕ
  pub staging : Option ℕ
  pub map : Option (ℕ × List ℕ)

pub data DxgiError : Type 0 where
  acquire_failed no_texture no_staging map_failed lost reinit_failed : DxgiError

-- `crashed` is a call through a null pointer.
pub data DxgiResult : Type 0 where
  frame : Image → DxgiResult
  no_frame crashed : DxgiResult
  failed : DxgiError → DxgiResult

-- `defer dxgiRelease(p)` around the rest of a function
abbrev pub defer_release : {R : Type 0} → ℕ → List ComCall × R → List ComCall × R
defer_release p (calls, r) = (released p ∷ calls, r)

-- An error of OpenDXGISession once there is a device.
abbrev pub give_up : (device ctx : ℕ) → List ComCall → List ComCall × Option Session
give_up device ctx calls = (released device ∷ (released ctx ∷ calls), none)

-- A call that gives a pointer, which is released at the end: the rest of the function, or giving up.
abbrev pub holding :
    (device ctx : ℕ)
    → Option ℕ
    → (List ComCall → List ComCall × Option Session)
    → List ComCall
    → List ComCall × Option Session
holding device ctx none rest calls = give_up device ctx calls
holding device ctx (some p) rest calls = defer_release p (rest (acquired p ∷ calls))

abbrev pub duplicated :
    (device ctx : ℕ) → OpenEnv → Option ℕ → List ComCall → List ComCall × Option Session
duplicated device ctx env none calls = give_up device ctx calls
duplicated device ctx env (some dupl) calls = (
  acquired dupl ∷ calls,
  some (record { device = device; ctx = ctx; dupl = dupl; width = env.width; height = env.height }),
)

unfoldable pub open_device :
    (device ctx : ℕ) → OpenEnv → List ComCall → List ComCall × Option Session
open_device device ctx env calls =
    holding device ctx env.dxgi_device
      (holding device ctx env.adapter (
        holding device ctx env.output
          (holding device ctx env.output1 (duplicated device ctx env env.dupl))))
      calls

-- OpenDXGISession
unfoldable pub open_session : OpenEnv → List ComCall → List ComCall × Option Session
unfolding open_device
open_session env calls = elim env.device [
  | none ↦ (calls, none)
  | some (device, ctx) ↦ open_device device ctx env (acquired ctx ∷ (acquired device ∷ calls))
]

-- The bytes of a row are blue, green, red and unused.
abbrev pub pixel_at : (pitch : ℕ) → List ℕ → ℕ → ℕ → Rgba
pixel_at pitch bytes x y = record {
  red = get_or bytes (y * pitch + x * 4 + 2) 0;
  green = get_or bytes (y * pitch + x * 4 + 1) 0;
  blue = get_or bytes (y * pitch + x * 4) 0;
  alpha = 255;
}

abbrev pub read_map : Session → Option (ℕ × List ℕ) → List ComCall → List ComCall × DxgiResult
read_map s none calls = (calls, failed map_failed)
read_map s (some (pitch, bytes)) calls = (
  unmapped ∷ (mapped ∷ calls),
  frame (record { width = s.width; height = s.height; pixel = pixel_at pitch bytes }),
)

abbrev pub with_staging : Session → CaptureEnv → Option ℕ → List ComCall → List ComCall × DxgiResult
with_staging s env none calls = (calls, failed no_staging)
with_staging s env (some p) calls = defer_release p (read_map s env.map (acquired p ∷ calls))

abbrev pub with_texture : Session → CaptureEnv → Option ℕ → List ComCall → List ComCall × DxgiResult
with_texture s env none calls = (calls, failed no_texture)
with_texture s env (some p) calls =
    defer_release p (with_staging s env env.staging (acquired p ∷ calls))

-- `defer s.releaseFrame()`
abbrev pub defer_release_frame : List ComCall × DxgiResult → List ComCall × DxgiResult
defer_release_frame (calls, r) = (frame_released ∷ calls, r)

abbrev pub with_next : Session → CaptureEnv → NextFrame → List ComCall → List ComCall × DxgiResult
with_next s env wait_timeout calls = (calls, no_frame)
with_next s env access_lost calls = (calls, failed lost)
with_next s env not_acquired calls = (calls, failed acquire_failed)
with_next s env (resource p) calls =
    defer_release p
      (defer_release_frame (with_texture s env env.texture (frame_acquired ∷ (acquired p ∷ calls))))

-- CaptureFrame of a session: its first call goes through the duplication.
unfoldable pub capture_session : Session → CaptureEnv → List ComCall → List ComCall × DxgiResult
capture_session s env calls =
    if s.dupl == 0 then (calls, crashed) else with_next s env env.next calls

abbrev pub release : ℕ → List ComCall → List ComCall
release zero calls = calls
release (suc p) calls = released (suc p) ∷ calls

-- Close of a session: the calls
unfoldable pub close_session : Session → List ComCall → List ComCall
close_session s calls = release s.device (release s.ctx (release s.dupl calls))

abbrev pub closed : Session → Session
closed s = record { device = 0; ctx = 0; dupl = 0; width = s.width; height = s.height }

-- DXGICapturer, with the calls so far
pub record Capturer : Type 0 where
  pub session : Session
  pub calls : List ComCall

abbrev pub reopened : Session → List ComCall × Option Session → Capturer × DxgiResult
reopened s (calls, none) = (record { session = closed s; calls = calls }, failed reinit_failed)
reopened s (calls, some new) = (record { session = new; calls = calls }, no_frame)

abbrev pub after_session : Session → OpenEnv → List ComCall × DxgiResult → Capturer × DxgiResult
after_session s env (calls, failed lost) = reopened s (open_session env (close_session s calls))
after_session s env (calls, failed e) = (record { session = s; calls = calls }, failed e)
after_session s env (calls, frame img) = (record { session = s; calls = calls }, frame img)
after_session s env (calls, no_frame) = (record { session = s; calls = calls }, no_frame)
after_session s env (calls, crashed) = (record { session = s; calls = calls }, crashed)

-- captureFrame of the capturer
unfoldable pub capture_dxgi : CaptureEnv → OpenEnv → Capturer → Capturer × DxgiResult
unfolding capture_session open_session close_session
capture_dxgi env reopen c = after_session c.session reopen (capture_session c.session env c.calls)

-- Close of the capturer
unfoldable pub close_dxgi : Capturer → Capturer
unfolding close_session
close_dxgi c = record { session = closed c.session; calls = close_session c.session c.calls }
