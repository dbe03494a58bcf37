-- ===== src/Pixels/Colors.antt =====
-- What `rgb_to_yuv420_full_range` and `rgb_to_yuv420` return (src/worker/src/avif.rs).
use ginbar.Prelude.{ℕ, ◌*◌, ◌/◌, ◌≤◌, ◌≡◌, refl, some, List, arith, length}
use ginbar.Prelude.Int.{ℤ, pos, negsuc, ◌+ℤ◌}
use ginbar.Pixels.{
  Plane, Formulas, full_range, limited_range, shift_8, clamp, pixel_at, grid, block_at, planes,
  and_then, rgb_to_yuv420_full_range, rgb_to_yuv420,
}
use ginbar.Pixels.Planes.{
  Yields, IsPlane, and_then-Yields, pixel_at-Yields, block_at-Yields, grid-Yields,
}

clamp_bounds :
    (low high : ℕ) (x : ℤ) → low ≤ high → (low ≤ clamp low high x) × (clamp low high x ≤ high)
unfolding clamp
clamp_bounds low high (pos n) h = (omega arith, omega arith)
clamp_bounds low high (negsuc n) h = (omega arith, h)

-- The three planes of an image of `w` times `h` pixels, with the bounds of luma and of chroma.
abbrev pub ArePlanes : ℕ → ℕ → ℕ → ℕ → ℕ → Plane × Plane × Plane → Type 0
ArePlanes w h low luma_high chroma_high p =
    IsPlane (h * w) low luma_high p.0
    × IsPlane (h / 2 * (w / 2)) low chroma_high p.1
    × IsPlane (h / 2 * (w / 2)) low chroma_high p.2

module _ (f : Formulas) (low luma_high chroma_high : ℕ) where
  record IsBounded : Type 0 where
    luma_bounds : (r g b : ℕ) → (low ≤ f.luma r g b) × (f.luma r g b ≤ luma_high)
    cb_bounds : (r g b : ℕ) → (low ≤ f.cb r g b) × (f.cb r g b ≤ chroma_high)
    cr_bounds : (r g b : ℕ) → (low ≤ f.cr r g b) × (f.cr r g b ≤ chroma_high)

  chroma-Yields :
      (c : ℕ → ℕ → ℕ → ℕ) (raw : List ℕ) (w h : ℕ)
      → ((r g b : ℕ) → (low ≤ c r g b) × (c r g b ≤ chroma_high))
      → length raw ≡ h * w * 3
      → Yields (IsPlane (h / 2 * (w / 2)) low chroma_high) (
          grid
            (λ cy cx. and_then (block_at raw w cy cx) λ p. some (c p.0 p.1 p.2))
            (w / 2)
            0
            (h / 2))
  chroma-Yields c raw w h bounds len =
      grid-Yields low chroma_high _ (w / 2) 0 (h / 2) (h / 2) (omega arith) λ cy cx r k.
        and_then-Yields (λ p. Unit {0}) (λ x. (low ≤ x) × (x ≤ chroma_high)) (block_at raw w cy cx)
          _ (block_at-Yields raw w h cy cx len r k) λ p _. (c p.0 p.1 p.2, refl, bounds p.0 p.1 p.2)

  planes-Yields :
      (raw : List ℕ) (w h : ℕ)
      → IsBounded
      → length raw ≡ h * w * 3
      → Yields (ArePlanes w h low luma_high chroma_high) (planes f raw w h)
  unfolding planes
  planes-Yields raw w h bounds len =
      let Q = ArePlanes w h low luma_high chroma_high in
      let luma =
        grid-Yields low luma_high
          (λ row col. and_then (pixel_at raw w row col) λ p. some (f.luma p.0 p.1 p.2)) w 0 h h
          (omega arith)
          (λ row col r k.
            and_then-Yields (λ p. Unit {0}) (λ x. (low ≤ x) × (x ≤ luma_high))
              (pixel_at raw w row col) _ (pixel_at-Yields raw w h row col len r k)
              λ p _. (f.luma p.0 p.1 p.2, refl, bounds.luma_bounds p.0 p.1 p.2)) in
      and_then-Yields (IsPlane (h * w) low luma_high) Q _ _ luma λ y py.
        and_then-Yields (IsPlane (h / 2 * (w / 2)) low chroma_high) Q _ _
          (chroma-Yields f.cb raw w h bounds.cb_bounds len)
          λ u pu.
            and_then-Yields (IsPlane (h / 2 * (w / 2)) low chroma_high) Q _ _
              (chroma-Yields f.cr raw w h bounds.cr_bounds len)
              λ v pv. ((y, u, v), refl, (py, pu, pv))

-- For the three bytes of each of `w` times `h` pixels, the full-range conversion reads no byte out of
-- bounds; the luma plane has a byte for each pixel and each chroma plane one for each whole block of
-- four, and every byte is at most 255.
pub rgb_to_yuv420_full_range-Yields :
    (raw : List ℕ) (w h : ℕ)
    → length raw ≡ h * w * 3
    → Yields (ArePlanes w h 0 255 255) (rgb_to_yuv420_full_range raw w h)
unfolding rgb_to_yuv420_full_range
rgb_to_yuv420_full_range-Yields raw w h len =
    planes-Yields full_range 0 255 255 raw w h
      (record {
        luma_bounds = λ r g b. clamp_bounds 0 255 _ (omega arith);
        cb_bounds = λ r g b. clamp_bounds 0 255 _ (omega arith);
        cr_bounds = λ r g b. clamp_bounds 0 255 _ (omega arith);
      })
      len

-- For the three bytes of each of `w` times `h` pixels, the limited-range conversion reads no byte out
-- of bounds; the luma plane has a byte from 16 to 235 for each pixel, and each chroma plane one from 16
-- to 240 for each whole block of four.
pub rgb_to_yuv420-Yields :
    (raw : List ℕ) (w h : ℕ)
    → length raw ≡ h * w * 3
    → Yields (ArePlanes w h 16 235 240) (rgb_to_yuv420 raw w h)
unfolding rgb_to_yuv420
rgb_to_yuv420-Yields raw w h len =
    planes-Yields limited_range 16 235 240 raw w h
      (record {
        luma_bounds = λ r g b. clamp_bounds 16 235 _ (omega arith);
        cb_bounds = λ r g b. clamp_bounds 16 240 _ (omega arith);
        cr_bounds = λ r g b. clamp_bounds 16 240 _ (omega arith);
      })
      len

-- A grey pixel keeps its byte as its full-range luma, and in both ranges its chroma is neutral.
pub grey_neutral :
    (x : ℕ)
    → x ≤ 255
    → (full_range.luma x x x ≡ x)
      × (full_range.cb x x x ≡ 128)
      × (full_range.cr x x x ≡ 128)
      × (limited_range.cb x x x ≡ 128)
      × (limited_range.cr x x x ≡ 128)
unfolding clamp shift_8 ◌+ℤ◌
grey_neutral x h = (ground arith, ground arith, ground arith, ground arith, ground arith)
