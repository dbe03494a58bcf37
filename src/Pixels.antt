-- ===== src/Pixels.antt =====
-- The numbers of the AVIF encoder, src/worker/src/avif.rs: RGB to YUV420, and the planes that are cut
-- to the sizes that SVT-AV1 takes. A pixel's component is a byte, `none` is a panic of an index out
-- of bounds.
pub mod Planes
pub mod Colors
pub mod Crop
pub mod Size
use ginbar.Prelude.{
  ℕ, zero, suc, ◌+◌, ◌-◌, ◌*◌, ◌/◌, ◌%◌, min, max, Bool, true, false, Option, none, some, List, [],
  ◌∷◌, ◌++◌, ◌&&◌, ◌==◌, leb, ltb, if◌then◌else◌, get_elem?, take, drop, length,
}
use ginbar.Prelude.Int.{ℤ, pos, negsuc, sub_ℕ, ◌+ℤ◌}

abbrev pub Plane : Type 0
Plane = List ℕ

abbrev pub and_then : {A B : Type 0} → Option A → (A → Option B) → Option B
and_then none f = none
and_then (some a) f = f a

-- `n & !7`
unfoldable pub align : ℕ → ℕ
align n = n - n % 8

-- `>> 8` on an `i32`: the shift keeps the sign and rounds down.
unfoldable pub shift_8 : ℤ → ℤ
shift_8 (pos n) = pos (n / 256)
shift_8 (negsuc n) = negsuc (n / 256)

-- `x.clamp(low, high) as u8`
unfoldable pub clamp : ℕ → ℕ → ℤ → ℕ
clamp low high (pos n) = min (max n low) high
clamp low high (negsuc n) = low

-- The formulas for one pixel, with the negative terms of a sum taken together.
pub record Formulas : Type 0 where
  pub luma : ℕ → ℕ → ℕ → ℕ
  pub cb : ℕ → ℕ → ℕ → ℕ
  pub cr : ℕ → ℕ → ℕ → ℕ

abbrev pub full_range : Formulas
full_range = record {
  luma = λ r g b. clamp 0 255 (pos ((77 * r + 150 * g + 29 * b + 128) / 256));
  cb = λ r g b. clamp 0 255 (pos 128 +ℤ shift_8 (sub_ℕ (128 * b + 128) (43 * r + 85 * g)));
  cr = λ r g b. clamp 0 255 (pos 128 +ℤ shift_8 (sub_ℕ (128 * r + 128) (107 * g + 21 * b)));
}

abbrev pub limited_range : Formulas
limited_range = record {
  luma = λ r g b. clamp 16 235 (pos (16 + (66 * r + 129 * g + 25 * b + 128) / 256));
  cb = λ r g b. clamp 16 240 (pos 128 +ℤ shift_8 (sub_ℕ (112 * b + 128) (38 * r + 74 * g)));
  cr = λ r g b. clamp 16 240 (pos 128 +ℤ shift_8 (sub_ℕ (112 * r + 128) (94 * g + 18 * b)));
}

abbrev pub Rgb : Type 0
Rgb = ℕ × ℕ × ℕ

-- `raw[idx]`, `raw[idx + 1]` and `raw[idx + 2]` at `idx = (row * w + col) * 3`
unfoldable pub pixel_at : List ℕ → ℕ → ℕ → ℕ → Option Rgb
pixel_at raw w row col = and_then (get_elem? raw ((row * w + col) * 3)) λ r.
    and_then (get_elem? raw ((row * w + col) * 3 + 1))
      λ g. and_then (get_elem? raw ((row * w + col) * 3 + 2)) λ b. some (r, g, b)

-- A row of a plane from column `col` on, and the rows from `row` on.
unfoldable pub line : (ℕ → Option ℕ) → ℕ → ℕ → Option Plane
line f col zero = some []
line f col (suc n) = and_then (f col) λ x. and_then (line f (suc col) n) λ xs. some (x ∷ xs)

unfoldable pub grid : (ℕ → ℕ → Option ℕ) → ℕ → ℕ → ℕ → Option Plane
unfolding line
grid f w row zero = some []
grid f w row (suc n) =
    and_then (line (f row) 0 w) λ xs. and_then (grid f w (suc row) n) λ ys. some (xs ++ ys)

-- The mean of the block of four pixels at twice the position.
unfoldable pub block_at : List ℕ → ℕ → ℕ → ℕ → Option Rgb
unfolding pixel_at
block_at raw w cy cx = and_then (pixel_at raw w (cy * 2) (cx * 2)) λ p.
    and_then (pixel_at raw w (cy * 2) (cx * 2 + 1)) λ q.
      and_then (pixel_at raw w (cy * 2 + 1) (cx * 2)) λ s.
        and_then (pixel_at raw w (cy * 2 + 1) (cx * 2 + 1)) λ t.
          some
            ((p.0 + q.0 + s.0 + t.0) / 4, (p.1 + q.1 + s.1 + t.1) / 4, (p.2 + q.2 + s.2 + t.2) / 4)

unfoldable pub planes : Formulas → List ℕ → ℕ → ℕ → Option (Plane × Plane × Plane)
unfolding grid block_at
planes f raw w h =
    and_then
      (grid (λ row col. and_then (pixel_at raw w row col) λ p. some (f.luma p.0 p.1 p.2)) w 0 h)
      λ y.
        and_then
          (grid (λ cy cx. and_then (block_at raw w cy cx) λ p. some (f.cb p.0 p.1 p.2)) (w / 2) 0
            (h / 2))
          λ u.
            and_then
              (grid (λ cy cx. and_then (block_at raw w cy cx) λ p. some (f.cr p.0 p.1 p.2)) (w / 2)
                0 (h / 2))
              λ v. some (y, u, v)

unfoldable pub rgb_to_yuv420_full_range : List ℕ → ℕ → ℕ → Option (Plane × Plane × Plane)
unfolding planes
rgb_to_yuv420_full_range = planes full_range

unfoldable pub rgb_to_yuv420 : List ℕ → ℕ → ℕ → Option (Plane × Plane × Plane)
unfolding planes
rgb_to_yuv420 = planes limited_range

-- `&plane[start..start + len]`
unfoldable pub slice : Plane → ℕ → ℕ → Option Plane
slice plane start len =
    if leb (start + len) (length plane) then some (take len (drop start plane)) else none

-- The rows from `row` on.
unfoldable pub repack_from : Plane → ℕ → ℕ → ℕ → ℕ → Option Plane
unfolding slice
repack_from plane src_stride dst_width row zero = some []
repack_from plane src_stride dst_width row (suc n) =
    and_then (slice plane (row * src_stride) dst_width)
      λ xs. and_then (repack_from plane src_stride dst_width (suc row) n) λ ys. some (xs ++ ys)

unfoldable pub repack_plane : Plane → ℕ → ℕ → ℕ → Option Plane
unfolding repack_from
repack_plane plane src_stride dst_width rows = repack_from plane src_stride dst_width 0 rows

-- The three planes, cut to the encoder's size; chroma rows are rounded up in the source.
unfoldable pub repacked_planes :
    Plane → Plane → Plane → ℕ → ℕ → ℕ → Option (Plane × Plane × Plane × ℕ × ℕ)
unfolding repack_plane
repacked_planes y u v width enc_w enc_h = and_then (repack_plane y width enc_w enc_h) λ y'.
    and_then (repack_plane u ((width + 1) / 2) (enc_w / 2) (enc_h / 2)) λ u'.
      and_then (repack_plane v ((width + 1) / 2) (enc_w / 2) (enc_h / 2))
        λ v'. some (y', u', v', enc_w, enc_h)

-- The planes that `encode_avif_from_yuv_planes` hands to the encoder, and their size.
unfoldable pub aligned_planes :
    Plane → Plane → Plane → ℕ → ℕ → Option (Plane × Plane × Plane × ℕ × ℕ)
unfolding align repacked_planes
aligned_planes y u v width height =
    if align width == width && align height == height
    then some (y, u, v, align width, align height)
    else repacked_planes y u v width (align width) (align height)
