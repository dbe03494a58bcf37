-- ===== src/Processing.antt =====
-- The media pipeline of src/worker/src/processing.rs: `load_image`, `process_image` with its fallback,
-- and `regenerate_image`. Two tasks that are joined run one after the other, in the order that the host
-- chooses, and both run to their ends whatever the first comes to.
pub mod Decode
pub mod Video
pub mod Frame
pub mod Tasks
pub mod Written
pub mod Ends
pub mod Regenerates
pub mod Images
pub mod Results
pub mod Videos
pub mod Clips
pub mod Moves
pub mod Moved
pub mod Slices
pub mod Leftovers
pub mod Variants
use ginbar.Prelude.{
  ℕ, ◌+◌, ◌-◌, ◌*◌, ◌/◌, ◌%◌, Bool, Option, none, some, ◌&&◌, ◌||◌, not, ◌++◌, Text, codes, ltb,
  if◌then◌else◌,
}
use ginbar.Prelude.Int.{ℤ}
use ginbar.World.{
  World, M, Result, ok, err, hung, Error, panicked, undecodable, no_filename, Try, got, failed,
  pure, fail, attempt, ignore, with_context, ◌>>=◌, ◌>>◌,
}
use ginbar.World.Calls.{remove_file}
use ginbar.Paths.{Directories, join, file_name}
use ginbar.Media.{is_jpeg, can_decode_natively}
use ginbar.Pipeline.{PHash, ImageResult, RegenerateResult}
use ginbar.Pixels.{Plane, slice, and_then}
use ginbar.Phash.{compute_phash}
use ginbar.Threads.{fullres_encode_threads}
use ginbar.Ffmpeg.{normalize_to_jpeg}
use ginbar.Avif.{or_fail, encode_avif, encode_avif_from_yuv_planes}
use ginbar.Processing.Decode.{
  Yuv, read, open_image, decode_jpeg_turbo, decode_jpeg_to_yuv_planes, small_image,
  prepare_thumbnail_pixels,
}
use ginbar.Host.{Host, Header}

-- The two results of `tokio::join!`.
abbrev pub both_results : {A B : Type 0} → Result A → Result B → Result (Try A × Try B)
both_results hung s = hung
both_results (ok a) (ok b) = ok (got a, got b)
both_results (ok a) (err e) = ok (got a, failed e)
both_results (ok a) hung = hung
both_results (err e) (ok b) = ok (failed e, got b)
both_results (err e) (err f) = ok (failed e, failed f)
both_results (err e) hung = hung

abbrev pub join_tasks : {A B : Type 0} → Bool → M A → M B → M (Try A × Try B)
join_tasks first m n w =
    if first
    then (let (r, u) = m w in let (s, v) = n u in (both_results r s, v))
    else (let (s, u) = n w in let (r, v) = m u in (both_results r s, v))

-- `result?`
abbrev pub tried : {A : Type 0} → Try A → M A
tried (got a) = pure a
tried (failed e) = fail e

module _ (host : Host) where
  open host use {Image}

  unfoldable pub generate_name : M Text
  generate_name w = (ok (host.uuid w), w)

  abbrev pub unloaded : Image → M (Image × Option Text)
  unloaded img = pure (img, none)

  abbrev pub or_open : Text → Try Image → M Image
  unfolding open_image
  or_open input (got img) = pure img
  or_open input (failed e) = open_image host (codes "decode image (fallback)") input

  abbrev pub load_native : Text → M Image
  unfolding open_image is_jpeg decode_jpeg_turbo
  load_native input =
      if is_jpeg input
      then attempt (decode_jpeg_turbo host input 920) >>= or_open input
      else open_image host (codes "decode image") input

  abbrev pub normalized_path : Directories → Text → Text
  unfolding join
  normalized_path dirs name = join (join dirs.tmp (codes "thumbnails")) (name ++ codes ".jpg")

  abbrev pub load_exotic : Text → Text → M (Image × Option Text)
  unfolding normalize_to_jpeg open_image
  load_exotic input tmp_path =
      normalize_to_jpeg host input tmp_path
      >> (open_image host (codes "decode normalized JPEG") tmp_path >>= λ img.
          pure (img, some tmp_path))

  unfoldable pub load_image : Text → Directories → M (Image × Option Text)
  unfolding normalize_to_jpeg open_image is_jpeg decode_jpeg_turbo can_decode_natively generate_name
  load_image input dirs =
      if can_decode_natively input
      then load_native input >>= unloaded
      else generate_name >>= λ name. load_exotic input (normalized_path dirs name)

  abbrev pub encode_thumbnail : Text → Image → M (ℤ × ℤ)
  unfolding encode_avif
  encode_thumbnail thumb_path thumb =
      with_context (codes "thumbnail AVIF encode failed")
        (encode_avif host thumb thumb_path 40 10 150 1)

  -- The first task: the hash, the square, and the thumbnail's file.
  unfoldable pub thumbnail_task : Image → Text → M PHash
  unfolding encode_avif compute_phash prepare_thumbnail_pixels
  thumbnail_task small thumb_path =
      or_fail panicked (compute_phash host.reals (host.to_luma8 (host.resize_exact small 256 256)))
      >>= λ p_hash.
          or_fail panicked (prepare_thumbnail_pixels host small)
          >>= (encode_thumbnail thumb_path)
          >>= λ size. pure p_hash

  -- The second task: the full-size file.
  unfoldable pub fullres_task : Image → Text → M (ℤ × ℤ)
  unfolding encode_avif fullres_encode_threads
  fullres_task img output_path =
      or_fail panicked (fullres_encode_threads host.env host.cpus)
      >>= (encode_avif host img output_path 18 8 920)

  -- The errors of the two tasks, the thumbnail's first.
  abbrev pub results : Text → Try PHash × Try (ℤ × ℤ) → M (PHash × ℤ × ℤ)
  results c (p, s) = with_context (codes "phash/thumb task failed") (tried p) >>= λ p_hash.
      with_context c (tried s) >>= λ size. pure (p_hash, size.0, size.1)

  abbrev pub joined : Text → M PHash → M (ℤ × ℤ) → M (PHash × ℤ × ℤ)
  joined c m n w = (join_tasks (host.thumb_first w) m n >>= results c) w

  -- The tasks of `process_image_fallback` and of `regenerate_image`.
  unfoldable pub encode_both : Text → Text → Image → M (PHash × ℤ × ℤ)
  unfolding thumbnail_task fullres_task
  encode_both thumb_path output_path img =
      joined (codes "full-res AVIF encode failed")
        (thumbnail_task (host.resize img 512 512) thumb_path) (fullres_task img output_path)

  abbrev pub remove_tmp : Option Text → M (Unit {0})
  remove_tmp none = pure tt
  remove_tmp (some path) = ignore (remove_file path)

  -- From the loaded image to the removal of the normalized one.
  unfoldable pub encode_loaded : Text → Text → Image × Option Text → M (PHash × ℤ × ℤ)
  unfolding encode_both
  encode_loaded thumb_path output_path (img, tmp_path) =
      encode_both thumb_path output_path img >>= λ r. remove_tmp tmp_path >> pure r

  abbrev pub avif_name : Text → Text
  avif_name name = name ++ codes ".avif"

  abbrev pub image_result : Text → PHash × ℤ × ℤ → ImageResult
  image_result name (p_hash, width, height) = record {
    filename = avif_name name;
    thumbnail_filename = avif_name name;
    uploaded_filename = name;
    p_hash = p_hash;
    width = width;
    height = height;
  }

  abbrev pub image_paths : Directories → Text → Text × Text
  unfolding join
  image_paths dirs name = (join dirs.thumbnail (avif_name name), join dirs.image (avif_name name))

  unfoldable pub process_image_fallback : Text → Directories → M ImageResult
  unfolding load_image encode_loaded file_name join
  process_image_fallback input dirs = or_fail no_filename (file_name input) >>= λ name.
      load_image input dirs
      >>= (encode_loaded (image_paths dirs name).0 (image_paths dirs name).1)
      >>= λ r. pure (image_result name r)

  abbrev pub even_size : Yuv → ℕ × ℕ
  even_size yuv = (yuv.width - yuv.width % 2, yuv.height - yuv.height % 2)

  -- The slices `y`, `u` and `v` of the buffer.
  unfoldable pub yuv_slices : Yuv → Option (Plane × Plane × Plane)
  unfolding slice
  yuv_slices yuv =
      let (enc_w, enc_h) = even_size yuv in
      let uv_enc_len = enc_w / 2 * enc_h / 2 in
      and_then (slice yuv.buf 0 (enc_w * enc_h)) λ y.
        and_then (slice yuv.buf yuv.y_len uv_enc_len)
          λ u. and_then (slice yuv.buf (yuv.y_len + yuv.uv_len) uv_enc_len) λ v. some (y, u, v)

  abbrev pub encode_slices : Yuv → Text → ℕ → Plane × Plane × Plane → M (ℤ × ℤ)
  unfolding encode_avif_from_yuv_planes
  encode_slices yuv output_path threads (y, u, v) =
      encode_avif_from_yuv_planes host y u v (even_size yuv).0 (even_size yuv).1 output_path 18 8
        threads

  unfoldable pub yuv_task : Yuv → Text → M (ℤ × ℤ)
  unfolding yuv_slices encode_avif_from_yuv_planes fullres_encode_threads
  yuv_task yuv output_path = or_fail panicked (yuv_slices yuv) >>= λ planes.
      or_fail panicked (fullres_encode_threads host.env host.cpus) >>= λ threads.
      encode_slices yuv output_path threads planes

  -- The fast path, from the bytes on.
  unfoldable pub encode_fast : Text → Text → Text → M (PHash × ℤ × ℤ)
  unfolding thumbnail_task yuv_task decode_jpeg_to_yuv_planes small_image
  encode_fast thumb_path output_path bytes =
      with_context (codes "YUV decode failed")
        (or_fail undecodable (decode_jpeg_to_yuv_planes host bytes))
      >>= λ yuv.
          with_context (codes "RGB-512 decode failed")
            (or_fail undecodable (small_image host bytes))
          >>= λ small.
              joined (codes "full-res YUV encode failed") (thumbnail_task small thumb_path)
                (yuv_task yuv output_path)

  -- `threshold_w` is 920 times 1.15.
  abbrev pub needs_fallback : Header → Bool
  needs_fallback header = ltb 1058 header.width || not header.is_420

  unfoldable pub process_jpeg : Text → Directories → Text → M ImageResult
  unfolding process_image_fallback read encode_fast join
  process_jpeg input dirs name = with_context (codes "read JPEG bytes") (read input) >>= λ bytes.
      or_fail undecodable (host.read_header bytes) >>= λ header.
      if needs_fallback header
      then process_image_fallback input dirs
      else (encode_fast (image_paths dirs name).0 (image_paths dirs name).1 bytes >>= λ r.
          pure (image_result name r))

  unfoldable pub process_image : Text → Directories → M ImageResult
  unfolding process_image_fallback process_jpeg file_name is_jpeg
  process_image input dirs = or_fail no_filename (file_name input) >>= λ name.
      if is_jpeg input then process_jpeg input dirs name else process_image_fallback input dirs

  abbrev pub thumb_name : Text → Text
  thumb_name base = base ++ codes "_thumb.avif"

  abbrev pub regenerate_result : Text → PHash × ℤ × ℤ → RegenerateResult
  regenerate_result base (p_hash, width, height) = record {
    new_filename = avif_name base;
    new_thumbnail_filename = thumb_name base;
    p_hash = p_hash;
    width = width;
    height = height;
  }

  abbrev pub regenerate_paths : Directories → Text → Text × Text
  unfolding join
  regenerate_paths dirs base =
      (join dirs.thumbnail (thumb_name base), join dirs.image (avif_name base))

  unfoldable pub regenerate_image : Text → Directories → M RegenerateResult
  unfolding generate_name load_image encode_loaded join
  regenerate_image input dirs = generate_name >>= λ base.
      load_image input dirs
      >>= (encode_loaded (regenerate_paths dirs base).0 (regenerate_paths dirs base).1)
      >>= λ r. pure (regenerate_result base r)
