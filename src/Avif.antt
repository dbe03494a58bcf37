-- ===== src/Avif.antt =====
-- From an image to an AVIF file: `encode_avif`, `encode_avif_ravif` and `encode_avif_from_yuv_planes` of
-- src/worker/src/avif.rs, and `encode_avif_inprocess` of src/worker/src/processing.rs. A panic is the
-- error `panicked`, which the code's `spawn_blocking` makes of it.
pub mod Codec
pub mod Frame
pub mod Written
pub mod Fitted
use ginbar.Prelude.{ℕ, Bool, Option, none, some, ◌&&◌, max, Text, codes, ◌==◌, ltb, if◌then◌else◌}
use ginbar.Prelude.Int.{ℤ}
use ginbar.World.{
  World, M, Error, panicked, unencodable, pure, fail, ignore, with_context, call, ◌>>=◌, ◌>>◌,
}
use ginbar.World.Calls.{nothing, remove_file}
use ginbar.World.FileSystem.{write}
use ginbar.Pixels.{Plane, align, rgb_to_yuv420_full_range, aligned_planes}
use ginbar.Pixels.Size.{below_minimum}
use ginbar.Threads.{encoder_thread_count}
use ginbar.Ffmpeg.{as_i32}
use ginbar.Avif.Codec.{encode_av1_raw_full_range, wrap_avif_container}
use ginbar.Host.{Host}

-- `std::fs::write`
abbrev pub write_file : Text → Text → M (Unit {0})
write_file path bytes = call nothing (λ w. record w { files = write path bytes w.files })

abbrev pub or_fail : {A : Type 0} → Error → Option A → M A
or_fail e none = fail e
or_fail e (some a) = pure a

module _ (host : Host) where
  open host use {Image}

  abbrev pub cut : Image → Image
  unfolding align
  cut img =
      let w = host.width img in
      let h = host.height img in
      if align w == w && align h == h then img else host.crop_imm img 0 0 (align w) (align h)

  -- Step 1: the image at the size that it is encoded at.
  unfoldable pub fit_image : Image → ℕ → Image
  unfolding align
  fit_image img max_width =
      let src_w = host.width img in
      let src_h = host.height img in
      if ltb 0 max_width && ltb max_width src_w
      then if host.floats.is_near src_w max_width
        then cut img
        else host.resize_exact img (align max_width)
            (align (max (host.floats.scaled src_h max_width src_w) 1))
      else cut img

  abbrev pub dims_of : Image → ℤ × ℤ
  unfolding as_i32
  dims_of img = (as_i32 (host.width img), as_i32 (host.height img))

  abbrev pub write_image : Text → Image → Text → Text → M (ℤ × ℤ)
  unfolding as_i32
  write_image c img dst bytes = with_context c (write_file dst bytes) >> pure (dims_of img)

  unfoldable pub encode_avif_ravif : Image → Text → M (ℤ × ℤ)
  unfolding as_i32
  encode_avif_ravif img dst =
      or_fail unencodable (host.ravif 80 4 (host.to_rgb8 img) (host.width img) (host.height img))
      >>= write_image (codes "write AVIF file (ravif)") img dst

  -- `encode_avif_inprocess` of src/worker/src/processing.rs, a simpler form of the same.
  unfoldable pub encode_avif_inprocess : Image → Text → M (Unit {0})
  encode_avif_inprocess img dst =
      or_fail unencodable (host.ravif 65 6 (host.to_rgb8 img) (host.width img) (host.height img))
      >>= λ bytes. with_context (codes "write avif thumbnail") (write_file dst bytes)

  -- The `match` on what SVT-AV1 returns.
  unfoldable pub finish_encode : Image → Text → Option Text → M (ℤ × ℤ)
  unfolding encode_avif_ravif as_i32
  finish_encode img dst (some av1) =
      write_image (codes "write AVIF file") img dst
        (wrap_avif_container host av1 (host.width img) (host.height img))
  finish_encode img dst none =
      ignore (remove_file dst)
      >> with_context (codes "ravif fallback (SVT-AV1 error)") (encode_avif_ravif img dst)

  -- The planes to SVT-AV1.
  abbrev pub send_planes : Image → Text → ℕ → ℕ → ℕ → Plane × Plane × Plane → M (ℤ × ℤ)
  unfolding finish_encode
  send_planes img dst crf preset threads (y, u, v) =
      finish_encode img dst
        (encode_av1_raw_full_range host y u v (host.width img) (host.height img) crf preset threads)

  -- What follows the resize.
  unfoldable pub encode_fitted : Image → Text → ℕ → ℕ → ℕ → M (ℤ × ℤ)
  unfolding encode_avif_ravif below_minimum finish_encode rgb_to_yuv420_full_range
  encode_fitted img dst crf preset threads =
      if below_minimum (host.width img, host.height img)
      then encode_avif_ravif img dst
      else (or_fail panicked
            (rgb_to_yuv420_full_range (host.to_rgb8 img) (host.width img) (host.height img))
          >>= send_planes img dst crf preset threads)

  abbrev pub thread_count : ℕ → Option ℕ
  unfolding encoder_thread_count
  thread_count threads =
      if threads == 0 then encoder_thread_count host.env host.cpus else some threads

  unfoldable pub encode_avif : Image → Text → ℕ → ℕ → ℕ → ℕ → M (ℤ × ℤ)
  unfolding fit_image encode_fitted encoder_thread_count
  encode_avif img dst crf preset max_width threads =
      or_fail panicked (thread_count threads)
      >>= encode_fitted (fit_image img max_width) dst crf preset

  abbrev pub EncoderPlanes : Type 0
  EncoderPlanes = Plane × Plane × Plane × ℕ × ℕ

  abbrev pub write_planes : Text → ℕ → ℕ → Text → M (ℤ × ℤ)
  unfolding as_i32
  write_planes dst enc_w enc_h av1 =
      with_context (codes "write AVIF file (yuv planes)")
        (write_file dst (wrap_avif_container host av1 enc_w enc_h))
      >> pure (as_i32 enc_w, as_i32 enc_h)

  abbrev pub encode_planes : Text → ℕ → ℕ → ℕ → EncoderPlanes → M (ℤ × ℤ)
  unfolding as_i32
  encode_planes dst crf preset threads (y, u, v, enc_w, enc_h) =
      or_fail unencodable (encode_av1_raw_full_range host y u v enc_w enc_h crf preset threads)
      >>= write_planes dst enc_w enc_h

  unfoldable pub encode_avif_from_yuv_planes :
      Plane → Plane → Plane → ℕ → ℕ → Text → ℕ → ℕ → ℕ → M (ℤ × ℤ)
  unfolding aligned_planes as_i32
  encode_avif_from_yuv_planes y u v width height dst crf preset threads =
      or_fail panicked (aligned_planes y u v width height) >>= encode_planes dst crf preset threads
