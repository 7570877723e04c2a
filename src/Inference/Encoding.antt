-- ===== src/Inference/Encoding.antt =====
-- internal/inference/ollama.go: the image that goes to the model. jpeg.Encode and base64 are arguments.
-- The crop is an image of its own here, whose pixels start at (0, 0).
use digital_ghost.Prelude.{
  ℕ, ◌+◌, ◌-◌, ◌≤◌, ◌≡◌, refl, min, ltb, Text, Bool, inl, inr, ◌&&◌, ◌||◌, Option, none, some,
  arith, if◌then◌else◌, Bool-cases,
}
use digital_ghost.Capture.Image.{Image}
use digital_ghost.Capture.Downscale.{ScaleMath, Rectangle, nearest_neighbor}

-- Intersect with the bounds of the image
abbrev pub intersect : Rectangle → Image → Rectangle
intersect r img = record {
  min_x = r.min_x;
  min_y = r.min_y;
  max_x = min r.max_x img.width;
  max_y = min r.max_y img.height;
}

-- Dx() > 32 && Dy() > 32
abbrev pub is_large : Rectangle → Bool
is_large r = ltb 32 (r.max_x - r.min_x) && ltb 32 (r.max_y - r.min_y)

abbrev pub sub_image : Rectangle → Image → Image
sub_image r img = record {
  width = r.max_x - r.min_x;
  height = r.max_y - r.min_y;
  pixel = λ x y. img.pixel (r.min_x + x) (r.min_y + y);
}

-- The part of the image in the active window, if the window is large enough.
unfoldable pub crop : Rectangle → Image → Image
crop r img =
    if is_large r && is_large (intersect r img) then sub_image (intersect r img) img else img

module _ {F : Type 0} (S : ScaleMath F) where
  unfoldable pub downscale_nearest : (w h : ℕ) → Image → Image
  downscale_nearest w h src =
      let scale_x = S.div (S.of_int src.width) (S.of_int w) in
      let scale_y = S.div (S.of_int src.height) (S.of_int h) in
      record {
        width = w;
        height = h;
        pixel = λ x y.
            src.pixel (S.trunc (S.mul (S.of_int x) scale_x)) (S.trunc (S.mul (S.of_int y) scale_y));
      }

  abbrev pub fit : Image → Image
  fit src = if ltb 672 src.width || ltb 378 src.height then downscale_nearest 672 378 src else src

  unfoldable pub encode_frame_for_vlm :
      (jpeg : Image → Option Text) → (base64 : Text → Text) → Option Image → Rectangle → Option Text
  unfolding crop downscale_nearest
  encode_frame_for_vlm jpeg base64 none window = none
  encode_frame_for_vlm jpeg base64 (some img) window = elim (jpeg (fit (crop window img))) [
    | none ↦ none
    | some bytes ↦ some (base64 bytes)
  ]

  -- What is encoded is never larger than 672 by 378.
  fit-size : (img : Image) → ((fit img).width ≤ 672) × ((fit img).height ≤ 378)
  unfolding downscale_nearest
  fit-size img = elim (Bool-cases (ltb 672 img.width || ltb 378 img.height)) [
    | inl e ↦ rw e (omega arith, omega arith)
    | inr e ↦ rw e (ground arith, ground arith)
  ]

  -- The scaling is the one of internal/capture/frame.go.
  downscale_nearest-nearest_neighbor :
      (w h : ℕ) (img : Image) → downscale_nearest w h img ≡ nearest_neighbor S w h img
  unfolding downscale_nearest nearest_neighbor
  downscale_nearest-nearest_neighbor w h img = refl
