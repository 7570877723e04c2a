-- ===== src/Capture/Monitor/Frames.antt =====
-- Which frames a monitor loop sends, and what it does while the gate blocks.
use digital_ghost.Prelude.{
  ◌==◌, ◌≡◌, refl, ap, ◌∙◌, inl, inr, ℤ, Text, Bool, true, false, List, [], ◌∷◌, Any, All, All-mono,
  Option, none, some, text_eq, if◌then◌else◌, Bool-cases,
}
use digital_ghost.Storage.Time.{Time}
use digital_ghost.Capture.Image.{Image}
use digital_ghost.Capture.Gdi.{Gdi, GdiResult, image, failed, capture_gdi}
use digital_ghost.Capture.Downscale.{ScaleMath}
use digital_ghost.Capture.Monitor.{
  Hashing, Frame, MonitorLoop, TickEnv, Captured, nothing, failure, frame, window_key, duplicates,
  track, build_frame, framed, captured_by, capture_frame, send_if, send, set_idle, tick, sent,
  run_ticks,
}

module _ {F H : Type 0} (S : ScaleMath F) (hashing : Hashing H) where
  track-prev :
      (key : Text) (now : Time) (m : MonitorLoop H)
      → (track S hashing key now m).prev_frame ≡ m.prev_frame
  track-prev key now m = elim (Bool-cases (text_eq key m.last_window_key)) [
    | inl e ↦ rw e refl
    | inr e ↦ rw e refl
  ]

  framed-prev :
      (env : TickEnv) (m : MonitorLoop H) (r : Gdi × GdiResult)
      → (framed S hashing env m r).0.prev_frame ≡ m.prev_frame
  framed-prev env m (g, failed e) = refl
  framed-prev env m (g, image img) = refl

  -- A frame comes from a tick that the gate let through, with the window and the time of that tick.
  abbrev pub IsFrom : Frame H → TickEnv → Type 0
  IsFrom f env =
      (env.gate.blocked ≡ false) × (f.window_ctx ≡ env.gate.window_ctx) × (f.captured_at ≡ env.now)

  -- What a capture gives is nothing, a failure, or such a frame.
  abbrev IsCapture : TickEnv → Captured H → Type 0
  IsCapture env nothing = Unit
  IsCapture env (failure e) = Unit
  IsCapture env (frame f) = IsFrom f env

  framed-IsCapture :
      (env : TickEnv) (m : MonitorLoop H) (r : Gdi × GdiResult)
      → env.gate.blocked ≡ false
      → IsCapture env (framed S hashing env m r).1
  framed-IsCapture env m (g, failed e) h = tt
  framed-IsCapture env m (g, image img) h =
      (h, unfold build_frame in refl, unfold build_frame in refl)

  record Captures (env : TickEnv) (m : MonitorLoop H) (r : MonitorLoop H × Captured H)
      : Type 0 where
    prev : r.0.prev_frame ≡ m.prev_frame
    capture : IsCapture env r.1

  captured_by-Captures :
      (blocked : Bool) (img : Option Image) (env : TickEnv) (m : MonitorLoop H)
      → env.gate.blocked ≡ blocked
      → Captures env m (captured_by S hashing blocked img env m)
  captured_by-Captures true img env m h = record { prev = refl; capture = tt }
  captured_by-Captures false (some img) env m h = record {
    prev = track-prev (window_key env.gate.window_ctx) env.now m;
    capture = (h, unfold build_frame in refl, unfold build_frame in refl);
  }
  captured_by-Captures false none env m h =
      let tracked = track S hashing (window_key env.gate.window_ctx) env.now m in
      let r = capture_gdi tracked.width tracked.height env.gdi tracked.gdi in
      record {
        prev = framed-prev env tracked r ∙ track-prev (window_key env.gate.window_ctx) env.now m;
        capture = framed-IsCapture env tracked r h;
      }

  -- What a tick sends: nothing, and the frame to compare with stays; or a frame from it that is no
  -- duplicate of that one, and takes its place.
  abbrev pub Sends :
      (threshold : ℤ) → TickEnv → Option (Frame H) → MonitorLoop H × Option (Frame H) → Type 0
  Sends threshold env prev (m, none) = m.prev_frame ≡ prev
  Sends threshold env prev (m, some f) =
      (m.prev_frame ≡ some f) × (duplicates S hashing f prev threshold ≡ false) × IsFrom f env

  send_if-Sends :
      (threshold : ℤ) (duplicate accepted : Bool) (env : TickEnv) (m : MonitorLoop H) (f : Frame H)
      → duplicates S hashing f m.prev_frame threshold ≡ duplicate
      → IsFrom f env
      → Sends threshold env m.prev_frame (send_if S hashing duplicate accepted m f)
  send_if-Sends threshold true accepted env m f h from = refl
  send_if-Sends threshold false true env m f h from = (refl, h, from)
  send_if-Sends threshold false false env m f h from = refl

  send-Sends :
      (threshold : ℤ) (accepted : Bool) (env : TickEnv) (m : MonitorLoop H)
      (r : MonitorLoop H × Captured H)
      → Captures env m r
      → Sends threshold env m.prev_frame (send S hashing threshold accepted r)
  unfolding send
  send-Sends threshold accepted env m (m', nothing) c = c.prev
  send-Sends threshold accepted env m (m', failure e) c = c.prev
  send-Sends threshold accepted env m (m', frame f) c = rw (← c.prev) (
      send_if-Sends threshold (duplicates S hashing f m'.prev_frame threshold) accepted env m' f
        refl c.capture)

  tick-Sends :
      (threshold idle_sec : ℤ) (env : TickEnv) (m : MonitorLoop H)
      → Sends threshold env m.prev_frame (tick S hashing threshold idle_sec env m)
  unfolding tick capture_frame
  tick-Sends threshold idle_sec env m =
      let m' = set_idle S hashing idle_sec env m in
      send-Sends threshold env.accepted env m' (capture_frame S hashing env m') (
        captured_by-Captures env.gate.blocked (if m'.display_index == 0 then env.dxgi else none) env
          m' refl)

  -- Each frame is no duplicate of the one sent before it.
  abbrev pub IsDistinct : (threshold : ℤ) → Option (Frame H) → List (Frame H) → Type 0
  IsDistinct threshold prev [] = Unit
  IsDistinct threshold prev (f ∷ fs) =
      (duplicates S hashing f prev threshold ≡ false) × IsDistinct threshold (some f) fs

  -- Each frame comes from one of the ticks, which the gate let through.
  abbrev pub AllFrom : List TickEnv → List (Frame H) → Type 0
  AllFrom es fs = All (λ f. Any (IsFrom f) es) fs

  sent-IsDistinct :
      (threshold : ℤ) (env : TickEnv) (prev : Option (Frame H))
      (r : MonitorLoop H × Option (Frame H)) (fs : List (Frame H))
      → Sends threshold env prev r
      → IsDistinct threshold r.0.prev_frame fs
      → IsDistinct threshold prev (sent S hashing r.1 fs)
  sent-IsDistinct threshold env prev (m, none) fs same h = rw (← same) h
  sent-IsDistinct threshold env prev (m, some f) fs (p, d, from) h = (d, rw p at h)

  sent-AllFrom :
      (threshold : ℤ) (env : TickEnv) (es : List TickEnv) (prev : Option (Frame H))
      (r : MonitorLoop H × Option (Frame H)) (fs : List (Frame H))
      → Sends threshold env prev r
      → AllFrom es fs
      → AllFrom (env ∷ es) (sent S hashing r.1 fs)
  sent-AllFrom threshold env es prev (m, none) fs same h = All-mono fs (λ f a. inr a) h
  sent-AllFrom threshold env es prev (m, some f) fs (p, d, from) h =
      (inl from, All-mono fs (λ g a. inr a) h)

  -- In a run of a monitor loop through any ticks, each frame that is sent is no duplicate of the
  -- one sent before it, and comes from a tick that the gate let through, with the window that the
  -- gate reported and the time of that tick.
  pub run_ticks-Sent :
      (threshold idle_sec : ℤ) (es : List TickEnv) (m : MonitorLoop H)
      → IsDistinct threshold m.prev_frame (run_ticks S hashing threshold idle_sec es m).1
        × AllFrom es (run_ticks S hashing threshold idle_sec es m).1
  unfolding run_ticks
  run_ticks-Sent threshold idle_sec [] m = (tt, tt)
  run_ticks-Sent threshold idle_sec (env ∷ es) m =
      let r = tick S hashing threshold idle_sec env m in
      let s = tick-Sends threshold idle_sec env m in
      let (distinct, from) = run_ticks-Sent threshold idle_sec es r.0 in
      (
        sent-IsDistinct threshold env m.prev_frame r _ s distinct,
        sent-AllFrom threshold env es m.prev_frame r _ s from,
      )

  captured_by-blocked :
      (blocked : Bool) (img : Option Image) (env : TickEnv) (m : MonitorLoop H)
      → blocked ≡ true
      → captured_by S hashing blocked img env m ≡ (m, nothing)
  captured_by-blocked true img env m h = refl
  captured_by-blocked false img env m h = cc

  -- A tick that the gate blocks sends nothing and makes no call of GDI: of the loop it changes only
  -- whether the system is idle.
  pub tick-blocked :
      (threshold idle_sec : ℤ) (env : TickEnv) (m : MonitorLoop H)
      → env.gate.blocked ≡ true
      → tick S hashing threshold idle_sec env m ≡ (set_idle S hashing idle_sec env m, none)
  unfolding tick capture_frame send
  tick-blocked threshold idle_sec env m h =
      ap (send S hashing threshold env.accepted)
        (captured_by-blocked env.gate.blocked _ env (set_idle S hashing idle_sec env m) h)
