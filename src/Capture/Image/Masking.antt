-- ===== src/Capture/Image/Masking.antt =====
-- Which pixels are blacked out.
use digital_ghost.Prelude.{
  ℕ, zero, suc, ◌+◌, ◌-◌, ◌≤◌, ◌<◌, ltb, leb, ◌==◌, ltℤ, not, ℤ, pos, negsuc, ◌≡◌, refl, ap₂, ◌∙◌,
  Bool, false, ◌&&◌, arith, if◌then◌else◌,
}
use digital_ghost.Capture.Image.{
  Image, black, set_pixel, Field, ◌+ℤ◌, clamp_start, clamp_end, mask_columns, mask_rows, mask_rect,
}

-- a ≤ i < a + k
abbrev pub is_within : (a k i : ℕ) → Bool
is_within a k i = leb a i && ltb i (a + k)

mask_columns-pixel :
    (k x y : ℕ) (img : Image) (i j : ℕ)
    → (mask_columns k x y img).pixel i j
      ≡ (if is_within x k i && j == y then black else img.pixel i j)
unfolding mask_columns
mask_columns-pixel zero x y img i j = ground arith
mask_columns-pixel (suc k) x y img i j =
    mask_columns-pixel k (x + 1) y (set_pixel x y black img) i j ∙ ground arith

mask_rows-pixel :
    (k x columns y : ℕ) (img : Image) (i j : ℕ)
    → (mask_rows k x columns y img).pixel i j
      ≡ (if is_within x columns i && is_within y k j then black else img.pixel i j)
unfolding mask_rows
mask_rows-pixel zero x columns y img i j = ground arith
mask_rows-pixel (suc k) x columns y img i j =
    mask_rows-pixel k x columns (y + 1) (mask_columns columns x y img) i j
    ∙ ground (arith, mask_columns-pixel columns x y img i j)

-- The pixel (i, j) lies in the field.
abbrev pub covers : Field → (i j : ℕ) → Bool
covers f i j =
    (not (ltℤ (pos i) f.left) && ltℤ (pos i) (f.left +ℤ f.width))
    && (not (ltℤ (pos j) f.top) && ltℤ (pos j) (f.top +ℤ f.height))

within_clamped :
    (start end : ℤ) (size i : ℕ)
    → i < size
    → is_within (clamp_start start) (clamp_end end size - clamp_start start) i
      ≡ (not (ltℤ (pos i) start) && ltℤ (pos i) end)
within_clamped (pos m) (pos n) size i h = ground arith
within_clamped (pos m) (negsuc n) size i h = ground arith
within_clamped (negsuc m) (pos n) size i h = ground arith
within_clamped (negsuc m) (negsuc n) size i h = ground arith

-- A pixel of the image is black after the masking exactly if it lies in the field, wherever the
-- field begins and ends, and is as it was if it does not.
pub mask_rect-pixel :
    (f : Field) (img : Image) (i j : ℕ)
    → i < img.width
    → j < img.height
    → (mask_rect f img).pixel i j ≡ (if covers f i j then black else img.pixel i j)
unfolding mask_rect
mask_rect-pixel f img i j hi hj =
    mask_rows-pixel _ _ _ _ img i j
    ∙ ap₂ (λ a b. if a && b then black else img.pixel i j)
        (within_clamped f.left (f.left +ℤ f.width) img.width i hi)
        (within_clamped f.top (f.top +ℤ f.height) img.height j hj)

below_left :
    (l i w : ℕ) (e : ℤ) → w ≤ l → i < w → (not (ltℤ (pos i) (pos l)) && ltℤ (pos i) e) ≡ false
below_left l i w e h k = ground arith

-- On a monitor that begins at or right of the width of its image, such as the second of two equal
-- monitors side by side, no pixel of the image changes when a field on that monitor is masked.
mask_rect-second_monitor :
    (origin left : ℕ) (f : Field) (img : Image) (i j : ℕ)
    → img.width ≤ origin
    → origin ≤ left
    → f.left ≡ pos left
    → i < img.width
    → j < img.height
    → (mask_rect f img).pixel i j ≡ img.pixel i j
mask_rect-second_monitor origin left f img i j wide on e hi hj =
    mask_rect-pixel f img i j hi hj
    ∙ rw e (rw (below_left left i img.width (pos left +ℤ f.width) (omega arith) hi) refl)

-- A field without a rectangle is masked nowhere.
mask_rect-zero :
    (img : Image) (i j : ℕ)
    → i < img.width
    → j < img.height
    → (mask_rect (record { left = pos 0; top = pos 0; width = pos 0; height = pos 0 }) img).pixel i
        j
      ≡ img.pixel i j
mask_rect-zero img i j hi hj = mask_rect-pixel _ img i j hi hj ∙ ground arith
