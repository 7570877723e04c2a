-- ===== src/Capture/Monitor/Dwell.antt =====
-- The time that a window is said to have been in front.
use mathlib.Core.Path.{subst}
use digital_ghost.Prelude.{
  ℕ, ◌-◌, ◌==◌, ◌≡◌, refl, ap, ◌∙◌, ℤ, Text, Bool, true, false, List, [], ◌∷◌, All, Option, none,
  some, text_eq, text_eq_refl, if◌then◌else◌,
}
use digital_ghost.Storage.Time.{Time}
use digital_ghost.Capture.Image.{Image}
use digital_ghost.Capture.Gdi.{Gdi, GdiResult, image, failed, capture_gdi}
use digital_ghost.Capture.Downscale.{ScaleMath}
use digital_ghost.Capture.Monitor.{
  Hashing, Frame, MonitorLoop, TickEnv, Captured, nothing, failure, frame, window_key, track,
  build_frame, framed, captured_by, capture_frame, set_idle, tick,
}
use digital_ghost.Capture.Monitor.Frames.{tick-blocked}

module _ {F H : Type 0} (S : ScaleMath F) (hashing : Hashing H) where
  -- The loop after some ticks.
  unfoldable pub after_ticks :
      (threshold idle_sec : ℤ) → List TickEnv → MonitorLoop H → MonitorLoop H
  unfolding tick
  after_ticks threshold idle_sec [] m = m
  after_ticks threshold idle_sec (env ∷ es) m =
      after_ticks threshold idle_sec es (tick S hashing threshold idle_sec env m).0

  abbrev pub IsBlocked : TickEnv → Type 0
  IsBlocked env = env.gate.blocked ≡ true

  after_blocked :
      (threshold idle_sec : ℤ) (es : List TickEnv) (m : MonitorLoop H)
      → All IsBlocked es
      → ((after_ticks threshold idle_sec es m).window_since ≡ m.window_since)
        × ((after_ticks threshold idle_sec es m).last_window_key ≡ m.last_window_key)
  unfolding after_ticks
  after_blocked threshold idle_sec [] m h = (refl, refl)
  after_blocked threshold idle_sec (env ∷ es) m (b, h) =
      let step = ap (λ r. r.0) (tick-blocked S hashing threshold idle_sec env m b) in
      let (since, key) =
        after_blocked threshold idle_sec es (set_idle S hashing idle_sec env m) h in
      (
        ap (λ n. (after_ticks threshold idle_sec es n).window_since) step ∙ since,
        ap (λ n. (after_ticks threshold idle_sec es n).last_window_key) step ∙ key,
      )

  track_same :
      (key : Text) (now : Time) (m : MonitorLoop H)
      → m.last_window_key ≡ key
      → (track S hashing key now m).window_since ≡ m.window_since
  track_same key now m e = rw (ap (text_eq key) e ∙ text_eq_refl key) refl

  -- The dwell time of a captured frame.
  abbrev HasDwell : ℕ → Captured H → Type 0
  HasDwell d nothing = Unit
  HasDwell d (failure e) = Unit
  HasDwell d (frame f) = f.dwell ≡ d

  framed-HasDwell :
      (env : TickEnv) (m : MonitorLoop H) (r : Gdi × GdiResult)
      → HasDwell (env.now - m.window_since) (framed S hashing env m r).1
  framed-HasDwell env m (g, failed e) = tt
  framed-HasDwell env m (g, image img) = unfold build_frame in refl

  captured_by-HasDwell :
      (blocked : Bool) (img : Option Image) (env : TickEnv) (m : MonitorLoop H)
      → m.last_window_key ≡ window_key env.gate.window_ctx
      → HasDwell (env.now - m.window_since) (captured_by S hashing blocked img env m).1
  unfolding build_frame text_eq
  captured_by-HasDwell true img env m e = tt
  captured_by-HasDwell false (some img) env m e =
      ap (λ t. env.now - t) (track_same (window_key env.gate.window_ctx) env.now m e)
  captured_by-HasDwell false none env m e =
      let tracked = track S hashing (window_key env.gate.window_ctx) env.now m in
      subst
        (λ t.
          HasDwell (env.now - t)
            (framed S hashing env tracked
              (capture_gdi tracked.width tracked.height env.gdi tracked.gdi)).1)
        (track_same (window_key env.gate.window_ctx) env.now m e)
        (framed-HasDwell env tracked (capture_gdi tracked.width tracked.height env.gdi tracked.gdi))

  HasDwell-frame : (d : ℕ) (c : Captured H) (f : Frame H) → c ≡ frame f → HasDwell d c → f.dwell ≡ d
  HasDwell-frame d c f e h = rw e at h

  -- A window that comes back after ticks that the gate blocked counts as in front all the while: the
  -- dwell time of its frame starts where it started before them.
  dwell-counts_blocked :
      (threshold idle_sec : ℤ) (es : List TickEnv) (env : TickEnv) (m : MonitorLoop H) (f : Frame H)
      → All IsBlocked es
      → m.last_window_key ≡ window_key env.gate.window_ctx
      → (capture_frame S hashing env (after_ticks threshold idle_sec es m)).1 ≡ frame f
      → f.dwell ≡ env.now - m.window_since
  unfolding capture_frame
  dwell-counts_blocked threshold idle_sec es env m f h key e =
      let m' = after_ticks threshold idle_sec es m in
      let (since, same) = after_blocked threshold idle_sec es m h in
      HasDwell-frame _ (capture_frame S hashing env m').1 f e (
        captured_by-HasDwell env.gate.blocked (if m'.display_index == 0 then env.dxgi else none) env
          m' (same ∙ key))
      ∙ ap (λ t. env.now - t) since
