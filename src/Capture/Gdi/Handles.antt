-- ===== src/Capture/Gdi/Handles.antt =====
-- No handle of GDI is lost.
use digital_ghost.Prelude.{
  ℕ, ◌+◌, ◌==◌, ◌≡◌, ◌≢◌, refl, Bool, true, false, ◌&&◌, ◌||◌, not, List, [], ◌∷◌, Option, none,
  some, arith, inl, inr, if◌then◌else◌, Bool-cases, Option-cases,
}
use digital_ghost.Capture.Gdi.{
  Kind, dc, bmp, GdiCall, created, delete, selected, copied_screen, read_bits, Gdi, GdiEnv,
  GdiError, log, delete_call, release_handles, open_handles, read_pixels, after_open, capture_gdi,
}

abbrev one_if : Bool → ℕ
one_if b = if b then 1 else 0

abbrev same_kind : Kind → Kind → Bool
same_kind dc dc = true
same_kind dc bmp = false
same_kind bmp dc = false
same_kind bmp bmp = true

-- How often a handle of the kind was created.
abbrev pub created_count : Kind → ℕ → List GdiCall → ℕ
created_count k h [] = 0
created_count k h (created j i ∷ cs) = one_if (same_kind k j && i == h) + created_count k h cs
created_count k h (delete j i ∷ cs) = created_count k h cs
created_count k h (selected d b ∷ cs) = created_count k h cs
created_count k h (copied_screen ∷ cs) = created_count k h cs
created_count k h (read_bits ∷ cs) = created_count k h cs

-- How often the deletion of the kind was called for a handle.
abbrev pub delete_count : Kind → ℕ → List GdiCall → ℕ
delete_count k h [] = 0
delete_count k h (delete j i ∷ cs) = one_if (same_kind k j && i == h) + delete_count k h cs
delete_count k h (created j i ∷ cs) = delete_count k h cs
delete_count k h (selected d b ∷ cs) = delete_count k h cs
delete_count k h (copied_screen ∷ cs) = delete_count k h cs
delete_count k h (read_bits ∷ cs) = delete_count k h cs

abbrev pub held : Kind → ℕ → Gdi → ℕ
held k h g =
    one_if (same_kind k dc && g.screen_dc == h)
    + one_if (same_kind k dc && g.mem_dc == h)
    + one_if (same_kind k bmp && g.bitmap == h)

-- The deletion was called for each handle as often as it was created, less the times that it is held.
abbrev pub IsBalanced : Gdi → Type 0
IsBalanced g =
    (k : Kind) (h : ℕ) → h ≢ 0 → created_count k h g.calls ≡ delete_count k h g.calls + held k h g

delete_count-delete_call :
    (j k : Kind) (i h : ℕ) (calls : List GdiCall)
    → h ≢ 0
    → delete_count k h (delete_call j i calls)
      ≡ one_if (same_kind k j && i == h) + delete_count k h calls
delete_count-delete_call j k i h calls n = ground arith

created_count-delete_call :
    (j k : Kind) (i h : ℕ) (calls : List GdiCall)
    → created_count k h (delete_call j i calls) ≡ created_count k h calls
created_count-delete_call j k i h calls = ground arith

release_handles-IsBalanced : (g : Gdi) → IsBalanced g → IsBalanced (release_handles g)
unfolding release_handles
release_handles-IsBalanced g b k h n =
    let bits = delete_call bmp g.bitmap g.calls in
    let mem = delete_call dc g.mem_dc bits in
    ground (
      arith,
      b k h n,
      delete_count-delete_call dc k g.screen_dc h mem n,
      delete_count-delete_call dc k g.mem_dc h bits n,
      delete_count-delete_call bmp k g.bitmap h g.calls n,
      created_count-delete_call dc k g.screen_dc h mem,
      created_count-delete_call dc k g.mem_dc h bits,
      created_count-delete_call bmp k g.bitmap h g.calls,
    )

abbrev IsReleased : Gdi → Type 0
IsReleased g = (g.screen_dc ≡ 0) × (g.mem_dc ≡ 0) × (g.bitmap ≡ 0)

release_handles-IsReleased : (g : Gdi) → IsReleased (release_handles g)
unfolding release_handles
release_handles-IsReleased g = (refl, refl, refl)

open_handles-IsBalanced :
    (width height : ℕ) (env : GdiEnv) (g : Gdi)
    → IsReleased g
    → IsBalanced g
    → IsBalanced (open_handles width height env g).0
unfolding open_handles
open_handles-IsBalanced width height env g (s, m, o) b k h n = ground (arith, b k h n)

read_pixels-IsBalanced :
    (width height : ℕ) (env : GdiEnv) (g : Gdi)
    → IsBalanced g
    → IsBalanced (read_pixels width height env g).0
unfolding read_pixels
read_pixels-IsBalanced width height env g b = elim (Bool-cases (not env.copies)) [
  | inl e ↦ rw e (release_handles-IsBalanced (log copied_screen g) b)
  | inr e ↦ elim (Option-cases env.bits) [
    | inl q ↦ rw (e, q) (release_handles-IsBalanced (log read_bits (log copied_screen g)) b)
    | inr (bytes, q) ↦ rw (e, q) b
  ]
]

after_open-IsBalanced :
    (width height : ℕ) (env : GdiEnv) (r : Gdi × Option GdiError)
    → IsBalanced r.0
    → IsBalanced (after_open width height env r).0
after_open-IsBalanced width height env (g, some e) b = b
after_open-IsBalanced width height env (g, none) b = read_pixels-IsBalanced width height env g b

pub capture_gdi-IsBalanced :
    (width height : ℕ) (env : GdiEnv) (g : Gdi)
    → IsBalanced g
    → IsBalanced (capture_gdi width height env g).0
unfolding capture_gdi
capture_gdi-IsBalanced width height env g b = elim (Bool-cases (width == 0 || height == 0)) [
  | inl e ↦ rw e b
  | inr e ↦ elim (Bool-cases (not (width == g.cached_w) || not (height == g.cached_h))) [
    | inr q ↦ rw (e, q) (read_pixels-IsBalanced width height env g b)
    | inl q ↦
        rw (e, q)
          (after_open-IsBalanced width height env
            (open_handles width height env (release_handles g))
            (open_handles-IsBalanced width height env (release_handles g)
              (release_handles-IsReleased g) (release_handles-IsBalanced g b)))
  ]
]

-- One capture after the other, with the size of the monitor at each.
unfoldable pub captures : List (ℕ × ℕ × GdiEnv) → Gdi → Gdi
captures [] g = g
captures ((width, height, env) ∷ es) g = captures es (capture_gdi width height env g).0

captures-IsBalanced :
    (es : List (ℕ × ℕ × GdiEnv)) (g : Gdi) → IsBalanced g → IsBalanced (captures es g)
unfolding captures
captures-IsBalanced [] g b = b
captures-IsBalanced ((width, height, env) ∷ es) g b =
    captures-IsBalanced es _ (capture_gdi-IsBalanced width height env g b)

-- A monitor loop before its first capture.
abbrev pub no_handles : Gdi
no_handles = record {
  screen_dc = 0;
  mem_dc = 0;
  bitmap = 0;
  cached_w = 0;
  cached_h = 0;
  calls = [];
}

none_held : IsBalanced no_handles
none_held k h n = ground arith

-- From a monitor without handles, after any captures with any sizes of the monitor, any failures
-- to create, to copy and to read, and the release at the end of the loop, DeleteDC has been
-- called for each DC, and DeleteObject for each bitmap, as often as it has been created. Whether
-- these calls succeed is left open.
pub captures-released :
    (es : List (ℕ × ℕ × GdiEnv)) (k : Kind) (h : ℕ)
    → h ≢ 0
    → created_count k h (release_handles (captures es no_handles)).calls
      ≡ delete_count k h (release_handles (captures es no_handles)).calls
unfolding release_handles
captures-released es k h n =
    let g = captures es no_handles in
    ground (arith, release_handles-IsBalanced g (captures-IsBalanced es no_handles none_held) k h n)
