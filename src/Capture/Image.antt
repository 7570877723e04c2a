-- ===== src/Capture/Image.antt =====
-- Images, rectangles, and the blacking out of a password field in internal/capture/capture_windows.go.
-- An image.RGBA whose bounds start at (0, 0) is its size and its pixels.
pub mod Masking
use digital_ghost.Prelude.{
  ℕ, zero, suc, ◌+◌, ◌-◌, min, ltb, leb, ◌==◌, ℤ, pos, negsuc, Bool, ◌&&◌, Option, none, some,
  if◌then◌else◌,
}

pub record Rgba : Type 0 where
  pub red : ℕ
  pub green : ℕ
  pub blue : ℕ
  pub alpha : ℕ

pub record Image : Type 0 where
  pub width : ℕ
  pub height : ℕ
  pub pixel : ℕ → ℕ → Rgba

abbrev pub black : Rgba
black = record { red = 0; green = 0; blue = 0; alpha = 255 }

abbrev pub set_pixel : ℕ → ℕ → Rgba → Image → Image
set_pixel x y c img = record {
  width = img.width;
  height = img.height;
  pixel = λ i j. if i == x && j == y then c else img.pixel i j;
}

-- [left, top, width, height] of a field in coordinates of the screen, each cut to an int.
pub record Field : Type 0 where
  pub left : ℤ
  pub top : ℤ
  pub width : ℤ
  pub height : ℤ

-- a - b and a + b
abbrev pub sub_ℕ : ℕ → ℕ → ℤ
sub_ℕ a b = if leb b a then pos (a - b) else negsuc (b - a - 1)

infixl 65 ◌+ℤ◌
abbrev pub ◌+ℤ◌ : ℤ → ℤ → ℤ
pos a +ℤ pos b = pos (a + b)
pos a +ℤ negsuc b = sub_ℕ a (b + 1)
negsuc a +ℤ pos b = sub_ℕ b (a + 1)
negsuc a +ℤ negsuc b = negsuc (a + b + 1)

-- `if z < 0 { z = 0 }`, and `if z > n { z = n }` for the end of a loop that starts at 0 or above.
abbrev pub clamp_start : ℤ → ℕ
clamp_start (pos n) = n
clamp_start (negsuc n) = 0

abbrev pub clamp_end : ℤ → ℕ → ℕ
clamp_end (pos n) size = if ltb size n then size else n
clamp_end (negsuc n) size = 0

-- The inner loop over `k` columns from `x` on.
unfoldable pub mask_columns : (k x y : ℕ) → Image → Image
mask_columns zero x y img = img
mask_columns (suc k) x y img = mask_columns k (x + 1) y (set_pixel x y black img)

-- The outer loop over `k` rows from `y` on.
unfoldable pub mask_rows : (k x columns y : ℕ) → Image → Image
unfolding mask_columns
mask_rows zero x columns y img = img
mask_rows (suc k) x columns y img = mask_rows k x columns (y + 1) (mask_columns columns x y img)

-- maskRect
unfoldable pub mask_rect : Field → Image → Image
unfolding mask_rows
mask_rect f img =
    let x = clamp_start f.left in
    let y = clamp_start f.top in
    mask_rows (clamp_end (f.top +ℤ f.height) img.height - y) x
      (clamp_end (f.left +ℤ f.width) img.width - x) y img
