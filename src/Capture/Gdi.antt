-- ===== src/Capture/Gdi.antt =====
-- The capture of a monitor with GDI in internal/capture/capture_windows.go: captureGDI and
-- releaseHandles. What Windows answers to each call is an argument; a handle is a number, and 0 is
-- none. The calls are kept, the latest first: the source does not look at the results of its deletions, which
-- may be failures, so a deletion here is the call alone.
pub mod Handles
pub mod Selected
use digital_ghost.Prelude.{
  ℕ, zero, suc, ◌+◌, ◌*◌, ◌==◌, Bool, true, false, ◌||◌, not, List, [], ◌∷◌, Option, none, some,
  get_or, if◌then◌else◌,
}
use digital_ghost.Capture.Image.{Rgba, Image}

-- The two kinds of handles: DeleteDC deletes the one and DeleteObject the other.
pub data Kind : Type 0 where
  dc bmp : Kind

-- A handle that was created, a call of the deletion for it, SelectObject of a bitmap into a DC, BitBlt and
-- GetDIBits.
pub data GdiCall : Type 0 where
  created delete : Kind → (handle : ℕ) → GdiCall
  selected : (mem_dc bitmap : ℕ) → GdiCall
  copied_screen read_bits : GdiCall

-- The cached handles of a monitor and the calls so far.
pub record Gdi : Type 0 where
  pub screen_dc : ℕ
  pub mem_dc : ℕ
  pub bitmap : ℕ
  pub cached_w : ℕ
  pub cached_h : ℕ
  pub calls : List GdiCall

-- What CreateDC, CreateCompatibleDC and CreateCompatibleBitmap give, whether BitBlt works, and the
-- bytes of GetDIBits, if it works.
pub record GdiEnv : Type 0 where
  pub screen_dc : ℕ
  pub mem_dc : ℕ
  pub bitmap : ℕ
  pub copies : Bool
  pub bits : Option (List ℕ)

pub data GdiError : Type 0 where
  zero_dimensions create_dc_failed create_compatible_dc_failed create_bitmap_failed : GdiError
  bit_blt_failed get_bits_failed : GdiError

pub data GdiResult : Type 0 where
  image : Image → GdiResult
  failed : GdiError → GdiResult

abbrev pub log : GdiCall → Gdi → Gdi
log c g = record {
  screen_dc = g.screen_dc;
  mem_dc = g.mem_dc;
  bitmap = g.bitmap;
  cached_w = g.cached_w;
  cached_h = g.cached_h;
  calls = c ∷ g.calls;
}

-- `if h != 0 { Delete…(h) }`
abbrev pub delete_call : Kind → ℕ → List GdiCall → List GdiCall
delete_call k h calls = if h == 0 then calls else delete k h ∷ calls

unfoldable pub release_handles : Gdi → Gdi
release_handles g = record {
  screen_dc = 0;
  mem_dc = 0;
  bitmap = 0;
  cached_w = 0;
  cached_h = 0;
  calls = delete_call dc g.screen_dc (delete_call dc g.mem_dc (delete_call bmp g.bitmap g.calls));
}

-- The handles for a monitor of another size than the cached one; the old ones are released first.
unfoldable pub open_handles : (width height : ℕ) → GdiEnv → Gdi → Gdi × Option GdiError
open_handles width height env g =
    let screen = log (created dc env.screen_dc) g in
    let mem = log (created dc env.mem_dc) screen in
    let drawn = log (selected env.mem_dc env.bitmap) (log (created bmp env.bitmap) mem) in
    if env.screen_dc == 0
    then (g, some create_dc_failed)
    else if env.mem_dc == 0
    then (log (delete dc env.screen_dc) screen, some create_compatible_dc_failed)
    else if env.bitmap == 0
    then (log (delete dc env.screen_dc) (log (delete dc env.mem_dc) mem), some create_bitmap_failed)
    else (
      record {
        screen_dc = env.screen_dc;
        mem_dc = env.mem_dc;
        bitmap = env.bitmap;
        cached_w = width;
        cached_h = height;
        calls = drawn.calls;
      },
      none,
    )

-- The bytes are blue, green, red and unused; the pixel (x, y) is number y * width + x.
abbrev pub pixel_of : (width : ℕ) → List ℕ → ℕ → ℕ → Rgba
pixel_of width bytes x y = record {
  red = get_or bytes ((y * width + x) * 4 + 2) 0;
  green = get_or bytes ((y * width + x) * 4 + 1) 0;
  blue = get_or bytes ((y * width + x) * 4) 0;
  alpha = 255;
}

-- BitBlt and GetDIBits with handles that are open; a failure releases them.
unfoldable pub read_pixels : (width height : ℕ) → GdiEnv → Gdi → Gdi × GdiResult
unfolding release_handles
read_pixels width height env g =
    let copied = log copied_screen g in
    let read = log read_bits copied in
    if not env.copies then (release_handles copied, failed bit_blt_failed) else elim env.bits [
      | none ↦ (release_handles read, failed get_bits_failed)
      | some bytes ↦
          (read, image (record { width = width; height = height; pixel = pixel_of width bytes }))
    ]

abbrev pub after_open : (width height : ℕ) → GdiEnv → Gdi × Option GdiError → Gdi × GdiResult
after_open width height env (g, some e) = (g, failed e)
after_open width height env (g, none) = read_pixels width height env g

unfoldable pub capture_gdi : (width height : ℕ) → GdiEnv → Gdi → Gdi × GdiResult
unfolding open_handles read_pixels
capture_gdi width height env g =
    if width == 0 || height == 0
    then (g, failed zero_dimensions)
    else if not (width == g.cached_w) || not (height == g.cached_h)
    then after_open width height env (open_handles width height env (release_handles g))
    else read_pixels width height env g
