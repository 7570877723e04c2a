-- ===== src/Capture/Gdi/Selected.antt =====
-- In which state of GDI the bitmap of a monitor is deleted.
use digital_ghost.Prelude.{
  ℕ, ◌==◌, ◌≡◌, refl, Bool, true, false, ◌||◌, not, List, [], ◌∷◌, Option, none, some, arith, inl,
  inr, ◌⊎◌, Bool-cases, Option-cases,
}
use digital_ghost.Capture.Gdi.{
  dc, bmp, GdiCall, created, delete, selected, copied_screen, read_bits, Gdi, GdiEnv, GdiError, log,
  delete_call, release_handles, open_handles, read_pixels, after_open, capture_gdi,
}
use digital_ghost.Capture.Gdi.Handles.{captures, no_handles}

-- The bitmap is the one that was selected last, and no DC was deleted after that.
abbrev pub is_selected : ℕ → List GdiCall → Bool
is_selected b [] = false
is_selected b (selected d c ∷ cs) = c == b
is_selected b (delete dc d ∷ cs) = false
is_selected b (delete bmp c ∷ cs) = is_selected b cs
is_selected b (created k h ∷ cs) = is_selected b cs
is_selected b (copied_screen ∷ cs) = is_selected b cs
is_selected b (read_bits ∷ cs) = is_selected b cs

-- DeleteObject is only called for bitmaps that are selected.
abbrev pub DeletesSelected : List GdiCall → Type 0
DeletesSelected [] = Unit
DeletesSelected (delete bmp b ∷ cs) = (is_selected b cs ≡ true) × DeletesSelected cs
DeletesSelected (delete dc d ∷ cs) = DeletesSelected cs
DeletesSelected (selected d c ∷ cs) = DeletesSelected cs
DeletesSelected (created k h ∷ cs) = DeletesSelected cs
DeletesSelected (copied_screen ∷ cs) = DeletesSelected cs
DeletesSelected (read_bits ∷ cs) = DeletesSelected cs

-- The bitmap that is held is selected.
record IsDrawn (g : Gdi) : Type 0 where
  held : (g.bitmap ≡ 0) ⊎ (is_selected g.bitmap g.calls ≡ true)
  calls : DeletesSelected g.calls

delete_call-bmp :
    (b : ℕ) (calls : List GdiCall)
    → (b ≡ 0) ⊎ (is_selected b calls ≡ true)
    → DeletesSelected calls
    → DeletesSelected (delete_call bmp b calls)
delete_call-bmp b calls (inl z) s = rw z s
delete_call-bmp b calls (inr e) s = elim (Bool-cases (b == 0)) [
  | inl z ↦ rw z s
  | inr z ↦ rw z (e, s)
]

delete_call-dc :
    (d : ℕ) (calls : List GdiCall)
    → DeletesSelected calls
    → DeletesSelected (delete_call dc d calls)
delete_call-dc d calls s = elim (Bool-cases (d == 0)) [ inl z ↦ rw z s | inr z ↦ rw z s ]

release_handles-IsDrawn : (g : Gdi) → IsDrawn g → IsDrawn (release_handles g)
unfolding release_handles
release_handles-IsDrawn g i = record {
  held = inl refl;
  calls =
      delete_call-dc g.screen_dc _
        (delete_call-dc g.mem_dc _ (delete_call-bmp g.bitmap g.calls i.held i.calls));
}

bitmap-release_handles : (g : Gdi) → (release_handles g).bitmap ≡ 0
unfolding release_handles
bitmap-release_handles g = refl

open_handles-IsDrawn :
    (width height : ℕ) (env : GdiEnv) (g : Gdi)
    → g.bitmap ≡ 0
    → IsDrawn g
    → IsDrawn (open_handles width height env g).0
unfolding open_handles
open_handles-IsDrawn width height env g z i = elim (Bool-cases (env.screen_dc == 0)) [
  | inl s ↦ rw s i
  | inr s ↦ elim (Bool-cases (env.mem_dc == 0)) [
    | inl m ↦ rw (s, m) (record { held = inl z; calls = i.calls })
    | inr m ↦ elim (Bool-cases (env.bitmap == 0)) [
      | inl b ↦ rw (s, m, b) (record { held = inl z; calls = i.calls })
      | inr b ↦ rw (s, m, b) (record { held = inr (ground arith); calls = i.calls })
    ]
  ]
]

read_pixels-IsDrawn :
    (width height : ℕ) (env : GdiEnv) (g : Gdi)
    → IsDrawn g
    → IsDrawn (read_pixels width height env g).0
unfolding read_pixels
read_pixels-IsDrawn width height env g i =
    let copied : IsDrawn (log copied_screen g) = record { held = i.held; calls = i.calls } in
    let read : IsDrawn (log read_bits (log copied_screen g)) = record {
      held = i.held;
      calls = i.calls;
    } in
    elim (Bool-cases (not env.copies)) [
      | inl e ↦ rw e (release_handles-IsDrawn (log copied_screen g) copied)
      | inr e ↦ elim (Option-cases env.bits) [
        | inl q ↦ rw (e, q) (release_handles-IsDrawn (log read_bits (log copied_screen g)) read)
        | inr (bytes, q) ↦ rw (e, q) read
      ]
    ]

after_open-IsDrawn :
    (width height : ℕ) (env : GdiEnv) (r : Gdi × Option GdiError)
    → IsDrawn r.0
    → IsDrawn (after_open width height env r).0
after_open-IsDrawn width height env (g, some e) i = i
after_open-IsDrawn width height env (g, none) i = read_pixels-IsDrawn width height env g i

capture_gdi-IsDrawn :
    (width height : ℕ) (env : GdiEnv) (g : Gdi)
    → IsDrawn g
    → IsDrawn (capture_gdi width height env g).0
unfolding capture_gdi
capture_gdi-IsDrawn width height env g i = elim (Bool-cases (width == 0 || height == 0)) [
  | inl e ↦ rw e i
  | inr e ↦ elim (Bool-cases (not (width == g.cached_w) || not (height == g.cached_h))) [
    | inr q ↦ rw (e, q) (read_pixels-IsDrawn width height env g i)
    | inl q ↦
        rw (e, q)
          (after_open-IsDrawn width height env (open_handles width height env (release_handles g)) (
            open_handles-IsDrawn width height env (release_handles g) (bitmap-release_handles g)
              (release_handles-IsDrawn g i)))
  ]
]

captures-IsDrawn : (es : List (ℕ × ℕ × GdiEnv)) (g : Gdi) → IsDrawn g → IsDrawn (captures es g)
unfolding captures
captures-IsDrawn [] g i = i
captures-IsDrawn ((width, height, env) ∷ es) g i =
    captures-IsDrawn es _ (capture_gdi-IsDrawn width height env g i)

-- From a monitor without handles, after any captures and the release at the end of the loop, each
-- call of DeleteObject was made for the bitmap that was selected last, before any DC was deleted
-- after the selection: the bitmap is still selected, which Windows documents as a failure of the
-- call.
pub captures-DeletesSelected :
    (es : List (ℕ × ℕ × GdiEnv)) → DeletesSelected (release_handles (captures es no_handles)).calls
captures-DeletesSelected es =
    (release_handles-IsDrawn (captures es no_handles)
      (captures-IsDrawn es no_handles (record { held = inl refl; calls = tt }))).calls
