-- ===== src/Processing/Variants.antt =====
-- The variants B, C and D of `process_image` of src/worker/src/processing.rs, which its benchmarks
-- compare.
pub mod Agreement
use ginbar.Prelude.{ℕ, Option, ◌++◌, Text, codes, ltb, if◌then◌else◌}
use ginbar.Prelude.Int.{ℤ}
use ginbar.World.{M, Try, panicked, undecodable, no_filename, pure, with_context, ◌>>=◌, ◌>>◌}
use ginbar.Paths.{Directories, join, file_name}
use ginbar.Media.{is_jpeg}
use ginbar.Pipeline.{PHash, ImageResult}
use ginbar.Phash.{compute_phash}
use ginbar.Avif.{or_fail, encode_avif}
use ginbar.Processing.Decode.{read, prepare_thumbnail_pixels}
use ginbar.Processing.{
  join_tasks, tried, load_image, thumbnail_task, fullres_task, joined, remove_tmp, encode_fast,
  image_paths, image_result,
}
use ginbar.Host.{Host}

module _ (host : Host) where
  open host use {Image}

  -- The results of the two encodes of variant B.
  abbrev pub results_b : PHash → Try (ℤ × ℤ) × Try (ℤ × ℤ) → M (PHash × ℤ × ℤ)
  results_b p_hash (t, s) =
      with_context (codes "thumbnail AVIF encode failed") (tried t) >>= λ dims.
      with_context (codes "full-res AVIF encode failed") (tried s) >>= λ size.
      pure (p_hash, size.0, size.1)

  abbrev pub joined_b : PHash → M (ℤ × ℤ) → M (ℤ × ℤ) → M (PHash × ℤ × ℤ)
  joined_b p_hash m n w = (join_tasks (host.thumb_first w) m n >>= results_b p_hash) w

  -- The hash and the square are made before the encodes begin.
  unfoldable pub encode_b : Text → Text → Image × Option Text → M (PHash × ℤ × ℤ)
  unfolding compute_phash prepare_thumbnail_pixels encode_avif fullres_task
  encode_b thumb_path output_path (img, tmp_path) =
      let small = host.resize img 512 512 in
      or_fail panicked (compute_phash host.reals (host.to_luma8 (host.resize_exact small 256 256)))
      >>= λ p_hash. or_fail panicked (prepare_thumbnail_pixels host small) >>= λ thumb.
          joined_b p_hash (encode_avif host thumb thumb_path 40 10 150 1)
            (fullres_task host img output_path)
          >>= λ r. remove_tmp host tmp_path >> pure r

  unfoldable pub process_image_v_b : Text → Directories → M ImageResult
  unfolding load_image encode_b file_name join
  process_image_v_b input dirs = or_fail no_filename (file_name input) >>= λ name.
      load_image host input dirs
      >>= (encode_b (image_paths host dirs name).0 (image_paths host dirs name).1)
      >>= λ r. pure (image_result host name r)

  unfoldable pub encode_c : Text → Text → Image × Option Text → M (PHash × ℤ × ℤ)
  unfolding thumbnail_task fullres_task
  encode_c thumb_path output_path (img, tmp_path) =
      joined host (codes "full-res AVIF encode failed")
        (thumbnail_task host (host.resize img 512 512) thumb_path)
        (fullres_task host img output_path)
      >>= λ r. remove_tmp host tmp_path >> pure r

  unfoldable pub process_image_v_c : Text → Directories → M ImageResult
  unfolding load_image encode_c file_name join
  process_image_v_c input dirs = or_fail no_filename (file_name input) >>= λ name.
      load_image host input dirs
      >>= (encode_c (image_paths host dirs name).0 (image_paths host dirs name).1)
      >>= λ r. pure (image_result host name r)

  -- Variant D looks at the width alone, not at the subsampling.
  unfoldable pub process_jpeg_v_d : Text → Directories → Text → M ImageResult
  unfolding process_image_v_c read encode_fast join
  process_jpeg_v_d input dirs name =
      with_context (codes "read JPEG bytes") (read input) >>= λ bytes.
      or_fail undecodable (host.read_header bytes) >>= λ header.
      if ltb 1058 header.width
      then process_image_v_c input dirs
      else (encode_fast host (image_paths host dirs name).0 (image_paths host dirs name).1 bytes
          >>= λ r. pure (image_result host name r))

  unfoldable pub process_image_v_d : Text → Directories → M ImageResult
  unfolding process_image_v_c process_jpeg_v_d file_name is_jpeg
  process_image_v_d input dirs = or_fail no_filename (file_name input) >>= λ name.
      if is_jpeg input then process_jpeg_v_d input dirs name else process_image_v_c input dirs
