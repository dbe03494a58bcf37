-- ===== src/Pixels/Size.antt =====
-- The size that `encode_avif` of src/worker/src/avif.rs encodes an image at. Its floating-point
-- computations are parameters.
use ginbar.Prelude.{
  ℕ, ◌+◌, ◌%◌, ◌≤◌, ◌<◌, ◌≡◌, ◌⊎◌, max, Bool, true, ◌&&◌, ◌||◌, arith, ltb, if◌then◌else◌,
}
use ginbar.Pixels.{align}

pub record Floats : Type 0 where
  -- `src_w as f64 / max_width as f64 <= 1.15`
  pub is_near : ℕ → ℕ → Bool
  -- `(src_h as f64 * (max_width as f64 / src_w as f64)).round() as u32`
  pub scaled : ℕ → ℕ → ℕ → ℕ

unfoldable pub encode_size : Floats → ℕ → ℕ → ℕ → ℕ × ℕ
unfolding align
encode_size floats max_width src_w src_h =
    if ltb 0 max_width && ltb max_width src_w
    then if floats.is_near src_w max_width
      then (align src_w, align src_h)
      else (align max_width, align (max (floats.scaled src_h max_width src_w) 1))
    else (align src_w, align src_h)

-- Below the minimum of SVT-AV1 the image goes to ravif.
unfoldable pub below_minimum : ℕ × ℕ → Bool
below_minimum (width, height) = ltb width 64 || ltb height 64

-- The size is a multiple of eight in both directions and no larger than the image, if scaling to a
-- smaller width gives no larger height. At most seven columns and rows are cut off, unless the image is
-- wider than `max_width`; and there are at least 64 of each, unless the image goes to ravif.
pub encode_size-aligned :
    (floats : Floats) (max_width src_w src_h : ℕ)
    → 0 < src_h
    → (max_width < src_w → floats.scaled src_h max_width src_w ≤ src_h)
    → let size = encode_size floats max_width src_w src_h in
      (size.0 % 8 ≡ 0)
      × (size.1 % 8 ≡ 0)
      × (size.0 ≤ src_w)
      × (size.1 ≤ src_h)
      × ((max_width < src_w) ⊎ ((src_w < size.0 + 8) × (src_h < size.1 + 8)))
      × ((below_minimum size ≡ true) ⊎ ((64 ≤ size.0) × (64 ≤ size.1)))
unfolding encode_size align below_minimum
encode_size-aligned floats max_width src_w src_h pos shrinks = ground arith
