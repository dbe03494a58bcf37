-- ===== src/Processing/Decode.antt =====
-- Decoding for src/worker/src/processing.rs: `image::open`, `decode_jpeg_turbo`, its twin on bytes, the
-- YUV planes of a JPEG, and the pixels of a thumbnail.
use ginbar.Prelude.{ℕ, ◌*◌, Option, none, some, ◌&&◌, Text, codes, ltb, if◌then◌else◌}
use ginbar.World.{M, call_failed, undecodable, with_context, call, ◌>>=◌}
use ginbar.World.FileSystem.{file_at}
use ginbar.Pixels.{Plane, and_then}
use ginbar.Saliency.{Region, smart_crop}
use ginbar.Avif.{or_fail}
use ginbar.Host.{Host, Header}

-- `std::fs::read`; a file that is not there is an error.
unfoldable pub read : Text → M Text
read path = call (λ w. file_at path w.files) (λ w. w) >>= or_fail call_failed

-- What `decode_jpeg_to_yuv_planes` returns.
pub record Yuv : Type 0 where
  pub buf : Plane
  pub width : ℕ
  pub height : ℕ
  pub y_len : ℕ
  pub uv_len : ℕ

module _ (host : Host) where
  open host use {Image}

  -- `image::open`, with the context that its caller gives it.
  unfoldable pub open_image : Text → Text → M Image
  unfolding read
  open_image c path =
      with_context c (read path >>= λ bytes. or_fail undecodable (host.decode bytes))

  -- The size that a JPEG is decoded at: half, if it is more than twice as wide as asked for.
  unfoldable pub decoded_size : Header → ℕ → ℕ × ℕ
  decoded_size header max_decode_width =
      if ltb 0 max_decode_width && ltb (max_decode_width * 2) header.width
      then (host.scaled_half header.width, host.scaled_half header.height)
      else (header.width, header.height)

  unfoldable pub decode_jpeg_turbo_from_data : Text → ℕ → Option Image
  unfolding decoded_size
  decode_jpeg_turbo_from_data bytes max_decode_width = and_then (host.read_header bytes) λ header.
      let (width, height) = decoded_size header max_decode_width in
      and_then (host.decompress bytes width height) λ pixels. host.from_raw width height pixels

  unfoldable pub decode_jpeg_turbo : Text → ℕ → M Image
  unfolding read decode_jpeg_turbo_from_data
  decode_jpeg_turbo path max_decode_width =
      with_context (codes "read JPEG file") (read path) >>= λ bytes.
      or_fail undecodable (decode_jpeg_turbo_from_data bytes max_decode_width)

  -- The planes' lengths are those of the source's size.
  abbrev pub yuv_of : ℕ → ℕ → Plane → Yuv
  yuv_of w h buf = record {
    buf = buf;
    width = w;
    height = h;
    y_len = (host.plane_lengths w h).0;
    uv_len = (host.plane_lengths w h).1;
  }

  unfoldable pub decode_jpeg_to_yuv_planes : Text → Option Yuv
  decode_jpeg_to_yuv_planes bytes = and_then (host.read_header bytes) λ header.
      if header.is_420
      then and_then (host.yuv_pixels_len header.width header.height) (λ total.
        and_then (host.decompress_to_yuv bytes)
          (λ buf. some (yuv_of header.width header.height buf)))
      else none

  -- The image of at most 512 pixels that the hash and the thumbnail come from.
  unfoldable pub small_image : Text → Option Image
  unfolding decode_jpeg_turbo_from_data
  small_image bytes =
      and_then (decode_jpeg_turbo_from_data bytes 512)
        λ img. some (if ltb 512 (host.width img) then host.resize img 512 512 else img)

  abbrev cropped : Image → Option Region → Image
  cropped img none = img
  cropped img (some r) = host.crop_imm img r.x r.y r.width r.height

  abbrev pub gray_at : Image → ℕ → ℕ → Plane
  gray_at img width height = host.to_luma8 (host.resize_exact img width height)

  unfoldable pub prepare_thumbnail_pixels : Image → Option Image
  unfolding smart_crop
  prepare_thumbnail_pixels img =
      and_then (smart_crop host.scaling (gray_at img) (host.width img) (host.height img) 150 150)
        λ region. some (host.resize_exact (cropped img region) 150 150)
