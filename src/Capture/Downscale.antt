-- ===== src/Capture/Downscale.antt =====
-- The scaling of an image for the queue, and the time between two ticks, in internal/capture/frame.go. `F` is the type of the floats.
-- A pixel of an opaque image.RGBA goes through color.RGBA and back as it is.
use digital_ghost.Prelude.{ℕ, ltb, leb, Bool, ◌&&◌, if◌then◌else◌}
use digital_ghost.Capture.Image.{Image}

-- float64 of an int, and int of a float64 that is not negative.
pub record ScaleMath (F : Type 0) : Type 0 where
  pub of_int : ℕ → F
  pub mul : F → F → F
  pub div : F → F → F
  pub lt : F → F → Bool
  pub trunc : F → ℕ

-- image.Rectangle inside an image.
pub record Rectangle : Type 0 where
  pub min_x : ℕ
  pub min_y : ℕ
  pub max_x : ℕ
  pub max_y : ℕ

pub record Scaled : Type 0 where
  pub image : Image
  pub window : Rectangle

abbrev pub queue_target_w : ℕ
queue_target_w = 672

abbrev pub queue_target_h : ℕ
queue_target_h = 378

-- image.Rect puts the corners in order.
abbrev pub make_rect : (x0 y0 x1 y1 : ℕ) → Rectangle
make_rect x0 y0 x1 y1 = record {
  min_x = if ltb x1 x0 then x1 else x0;
  min_y = if ltb y1 y0 then y1 else y0;
  max_x = if ltb x1 x0 then x0 else x1;
  max_y = if ltb y1 y0 then y0 else y1;
}

module _ {F : Type 0} (S : ScaleMath F) where
  -- nearestNeighbor
  unfoldable pub nearest_neighbor : (w h : ℕ) → Image → Image
  nearest_neighbor w h src =
      let scale_x = S.div (S.of_int src.width) (S.of_int w) in
      let scale_y = S.div (S.of_int src.height) (S.of_int h) in
      record {
        width = w;
        height = h;
        pixel = λ x y.
            src.pixel (S.trunc (S.mul (S.of_int x) scale_x)) (S.trunc (S.mul (S.of_int y) scale_y));
      }

  -- The factor that brings both sides within the target.
  abbrev pub scale_for : (w h : ℕ) → F
  scale_for w h =
      let scale_x = S.div (S.of_int queue_target_w) (S.of_int w) in
      let scale_y = S.div (S.of_int queue_target_h) (S.of_int h) in
      if S.lt scale_y scale_x then scale_y else scale_x

  abbrev pub at_least_one : ℕ → ℕ
  at_least_one n = if ltb n 1 then 1 else n

  abbrev pub scale_int : F → ℕ → ℕ
  scale_int scale n = S.trunc (S.mul (S.of_int n) scale)

  abbrev pub scale_window : F → Rectangle → Rectangle
  scale_window scale r =
      if ltb r.min_x r.max_x && ltb r.min_y r.max_y
      then make_rect (scale_int scale r.min_x) (scale_int scale r.min_y) (scale_int scale r.max_x)
          (scale_int scale r.max_y)
      else r

  -- DownscaleForQueue
  unfoldable pub downscale_for_queue : Image → Rectangle → Scaled
  unfolding nearest_neighbor
  downscale_for_queue img r =
      let scale = scale_for img.width img.height in
      if leb img.width queue_target_w && leb img.height queue_target_h
      then record { image = img; window = r }
      else record {
        image =
            nearest_neighbor (at_least_one (scale_int scale img.width))
              (at_least_one (scale_int scale img.height)) img;
        window = scale_window scale r;
      }

  -- frameDuration in nanoseconds; `fps` is no NaN.
  unfoldable pub frame_duration : F → ℕ
  frame_duration fps =
      S.trunc (S.div (S.of_int 1000000000) (if S.lt (S.of_int 0) fps then fps else S.of_int 1))
