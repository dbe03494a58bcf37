-- ===== src/Processing/Tasks.antt =====
-- The two joined tasks of src/worker/src/processing.rs, and what is around them: what they leave as it
-- was, whichever of them runs first.
use ginbar.Prelude.{ℕ, ◌≡◌, Bool, true, false, Option, some, Text, codes, if◌then◌else◌}
use ginbar.Prelude.Int.{ℤ}
use ginbar.World.{
  World, M, panicked, undecodable, Try, got, failed, pure, with_context, ◌>>=◌, ◌>>◌,
}
use ginbar.World.Footprint.{Footprint}
use ginbar.World.Rules.{Keeps, bind-Keeps, with_context-Keeps}
use ginbar.Paths.{Directories}
use ginbar.Media.{can_decode_natively}
use ginbar.Pipeline.{PHash}
use ginbar.Pixels.{Plane}
use ginbar.Threads.{fullres_encode_threads}
use ginbar.Avif.{or_fail, encode_avif, encode_avif_from_yuv_planes}
use ginbar.Avif.Frame.{or_fail-Keeps, encode_avif-Keeps, encode_avif_from_yuv_planes-Keeps}
use ginbar.Processing.Decode.{Yuv, prepare_thumbnail_pixels, decode_jpeg_to_yuv_planes, small_image}
use ginbar.Processing.{
  join_tasks, tried, generate_name, unloaded, load_native, normalized_path, load_exotic, load_image,
  encode_thumbnail, thumbnail_task, fullres_task, results, joined, encode_both, remove_tmp,
  encode_loaded, yuv_slices, even_size, encode_slices, yuv_task, encode_fast,
}
use ginbar.Processing.Frame.{load_native-Keeps, load_exotic-Keeps, remove_tmp-Keeps}
use ginbar.Host.{Host}

join_tasks-Keeps {κ} :
    {A B : Type 0} (P : World → Type κ) (first : Bool) (m : M A) (n : M B)
    → Keeps P m
    → Keeps P n
    → Keeps P (join_tasks first m n)
join_tasks-Keeps P true m n km kn w h = kn (m w).1 (km w h)
join_tasks-Keeps P false m n km kn w h = km (n w).1 (kn w h)

tried-Keeps {κ} : {A : Type 0} (P : World → Type κ) (t : Try A) → Keeps P (tried t)
tried-Keeps P (got a) w h = h
tried-Keeps P (failed e) w h = h

module _ {κ} (host : Host) {P : World → Type κ} {Touched : Text → Type 0}
    (fp : Footprint P Touched) where
  open host use {Image}

  results-Keeps : (c : Text) (r : Try PHash × Try (ℤ × ℤ)) → Keeps P (results host c r)
  results-Keeps c (p, s) =
      bind-Keeps P (with_context (codes "phash/thumb task failed") (tried p))
        (λ p_hash. with_context c (tried s) >>= λ size. pure (p_hash, size.0, size.1))
        (with_context-Keeps P _ (tried p) (tried-Keeps P p))
        λ p_hash.
          bind-Keeps P (with_context c (tried s)) (λ size. pure (p_hash, size.0, size.1))
            (with_context-Keeps P c (tried s) (tried-Keeps P s)) λ size w h. h

  joined-Keeps :
      (c : Text) (m : M PHash) (n : M (ℤ × ℤ)) → Keeps P m → Keeps P n → Keeps P (joined host c m n)
  joined-Keeps c m n km kn w h =
      bind-Keeps P (join_tasks (host.thumb_first w) m n) (results host c)
        (join_tasks-Keeps P (host.thumb_first w) m n km kn) (results-Keeps c) w h

  module _ (thumb_path : Text) (t : Touched thumb_path) where
    pub thumbnail_task-Keeps : (small : Image) → Keeps P (thumbnail_task host small thumb_path)
    unfolding thumbnail_task encode_avif
    thumbnail_task-Keeps small =
        bind-Keeps P (or_fail panicked _)
          (λ p_hash.
            or_fail panicked (prepare_thumbnail_pixels host small)
            >>= (encode_thumbnail host thumb_path)
            >>= λ size. pure p_hash)
          (or_fail-Keeps P panicked _)
          λ p_hash.
            bind-Keeps P
              (or_fail panicked (prepare_thumbnail_pixels host small)
                >>= encode_thumbnail host thumb_path)
              (λ size. pure p_hash)
              (bind-Keeps P (or_fail panicked (prepare_thumbnail_pixels host small))
                (encode_thumbnail host thumb_path) (or_fail-Keeps P panicked _)
                λ thumb.
                  with_context-Keeps P _ (encode_avif host thumb thumb_path 40 10 150 1)
                    (encode_avif-Keeps host fp thumb_path t thumb 40 10 150 1))
              λ size w h. h

  module _ (output_path : Text) (t : Touched output_path) where
    pub fullres_task-Keeps : (img : Image) → Keeps P (fullres_task host img output_path)
    unfolding fullres_task
    fullres_task-Keeps img =
        bind-Keeps P (or_fail panicked (fullres_encode_threads host.env host.cpus))
          (encode_avif host img output_path 18 8 920) (or_fail-Keeps P panicked _)
          (encode_avif-Keeps host fp output_path t img 18 8 920)

    pub yuv_task-Keeps : (yuv : Yuv) → Keeps P (yuv_task host yuv output_path)
    unfolding yuv_task encode_avif_from_yuv_planes
    yuv_task-Keeps yuv =
        bind-Keeps P (or_fail panicked (yuv_slices host yuv))
          (λ planes. or_fail panicked (fullres_encode_threads host.env host.cpus) >>= λ threads.
            encode_slices host yuv output_path threads planes)
          (or_fail-Keeps P panicked _)
          λ planes.
            bind-Keeps P (or_fail panicked (fullres_encode_threads host.env host.cpus))
              (λ threads. encode_slices host yuv output_path threads planes)
              (or_fail-Keeps P panicked _) λ threads. slices-Keeps yuv threads planes
      where
        slices-Keeps :
            (yuv : Yuv) (threads : ℕ) (p : Plane × Plane × Plane)
            → Keeps P (encode_slices host yuv output_path threads p)
        slices-Keeps yuv threads (y, u, v) =
            encode_avif_from_yuv_planes-Keeps host fp output_path t y u v (even_size host yuv).0
              (even_size host yuv).1 18 8 threads

  module _ (thumb_path output_path : Text) (t_thumb : Touched thumb_path)
      (t_output : Touched output_path) where
    pub encode_both-Keeps : (img : Image) → Keeps P (encode_both host thumb_path output_path img)
    unfolding encode_both
    encode_both-Keeps img =
        joined-Keeps _ (thumbnail_task host (host.resize img 512 512) thumb_path)
          (fullres_task host img output_path)
          (thumbnail_task-Keeps thumb_path t_thumb (host.resize img 512 512))
          (fullres_task-Keeps output_path t_output img)

    pub encode_loaded-Keeps :
        (img : Image) (tmp : Option Text)
        → ((path : Text) → tmp ≡ some path → Touched path)
        → Keeps P (encode_loaded host thumb_path output_path (img, tmp))
    unfolding encode_loaded
    encode_loaded-Keeps img tmp t =
        bind-Keeps P (encode_both host thumb_path output_path img)
          (λ r. remove_tmp host tmp >> pure r) (encode_both-Keeps img)
          λ r.
            bind-Keeps P (remove_tmp host tmp) (λ _. pure r) (remove_tmp-Keeps host fp tmp t)
              λ _ w h. h

    pub encode_fast-Keeps : (bytes : Text) → Keeps P (encode_fast host thumb_path output_path bytes)
    unfolding encode_fast
    encode_fast-Keeps bytes =
        bind-Keeps P (with_context _ (or_fail undecodable (decode_jpeg_to_yuv_planes host bytes)))
          (λ yuv.
            with_context (codes "RGB-512 decode failed")
              (or_fail undecodable (small_image host bytes))
            >>= λ small.
                joined host (codes "full-res YUV encode failed")
                  (thumbnail_task host small thumb_path) (yuv_task host yuv output_path))
          (with_context-Keeps P _ (or_fail undecodable _) (or_fail-Keeps P undecodable _))
          λ yuv.
            bind-Keeps P (with_context _ (or_fail undecodable (small_image host bytes)))
              (λ small.
                joined host (codes "full-res YUV encode failed")
                  (thumbnail_task host small thumb_path) (yuv_task host yuv output_path))
              (with_context-Keeps P _ (or_fail undecodable _) (or_fail-Keeps P undecodable _))
              λ small.
                joined-Keeps _ (thumbnail_task host small thumb_path)
                  (yuv_task host yuv output_path) (thumbnail_task-Keeps thumb_path t_thumb small)
                  (yuv_task-Keeps output_path t_output yuv)

  -- Loading an image touches nothing but the normalized file, if that.
  pub load_image-Keeps :
      (input : Text) (dirs : Directories) (w : World)
      → Touched (normalized_path host dirs (host.uuid w))
      → P w
      → P (load_image host input dirs w).1
  unfolding load_image generate_name
  load_image-Keeps input dirs w t h = by_test (can_decode_natively input)
    where
      by_test :
          (b : Bool)
          → P
              ((if b
                  then load_native host input >>= unloaded host
                  else (generate_name host >>= λ name.
                      load_exotic host input (normalized_path host dirs name)))
                w).1
      by_test true =
          bind-Keeps P (load_native host input) (unloaded host) (load_native-Keeps host fp input)
            (λ img w h. h) w h
      by_test false =
          load_exotic-Keeps host fp input (normalized_path host dirs (host.uuid w)) t w h
