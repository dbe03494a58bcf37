-- ===== src/Processing/Ends.antt =====
-- The pipeline of src/worker/src/processing.rs comes to an end where no call fails: images.
use ginbar.Prelude.{ℕ, ◌≢◌, refl, Bool, true, false, Option, none, some, List, Text, codes}
use ginbar.Prelude.Int.{ℤ}
use ginbar.World.{
  M, Result, ok, err, hung, call_failed, panicked, undecodable, Try, got, failed, pure, attempt,
  timeout, with_context, ◌>>=◌, ◌>>◌,
}
use ginbar.World.Calls.{nothing, remove_file}
use ginbar.World.FileSystem.{file_at}
use ginbar.World.Answers.{
  Answers, pure-Answers, fail-Answers, bind-Answers, attempt-Answers, ignore-Answers,
  timeout-Answers, with_context-Answers, call-Answers, if-Answers,
}
use ginbar.Paths.{Directories}
use ginbar.Media.{is_jpeg, can_decode_natively}
use ginbar.Pipeline.{PHash}
use ginbar.Pixels.{Plane}
use ginbar.Threads.{fullres_encode_threads}
use ginbar.Ffmpeg.{
  leave, run_ffmpeg, or_command_failed, waited, spawn, normalize_args, normalize_to_jpeg,
}
use ginbar.Avif.{or_fail, encode_avif, encode_avif_from_yuv_planes}
use ginbar.Avif.Written.{
  or_fail-Answers, remove_file-Answers, encode_avif-Answers, encode_avif_from_yuv_planes-Answers,
}
use ginbar.Processing.Decode.{
  Yuv, read, open_image, decode_jpeg_turbo, decode_jpeg_turbo_from_data, prepare_thumbnail_pixels,
  decode_jpeg_to_yuv_planes, small_image,
}
use ginbar.Processing.{
  join_tasks, both_results, tried, generate_name, unloaded, or_open, load_native, normalized_path,
  load_exotic, load_image, encode_thumbnail, thumbnail_task, fullres_task, results, joined,
  encode_both, remove_tmp, encode_loaded, yuv_slices, even_size, encode_slices, yuv_task,
  encode_fast,
}
use ginbar.Host.{Host}

both_results-hung :
    {A B : Type 0} (r : Result A) (s : Result B) → r ≢ hung → s ≢ hung → both_results r s ≢ hung
both_results-hung hung s hr hs e = hr refl
both_results-hung (ok a) (ok b) hr hs e = cc
both_results-hung (ok a) (err f) hr hs e = cc
both_results-hung (ok a) hung hr hs e = hs refl
both_results-hung (err f) (ok b) hr hs e = cc
both_results-hung (err f) (err g) hr hs e = cc
both_results-hung (err f) hung hr hs e = hs refl

join_tasks-Answers :
    {A B : Type 0} (first : Bool) (m : M A) (n : M B)
    → Answers m
    → Answers n
    → Answers (join_tasks first m n)
join_tasks-Answers true m n km kn w h =
    let (a, b) = km w h in
    let (c, d) = kn (m w).1 b in (both_results-hung (m w).0 (n (m w).1).0 a c, d)
join_tasks-Answers false m n km kn w h =
    let (a, b) = kn w h in
    let (c, d) = km (n w).1 b in (both_results-hung (m (n w).1).0 (n w).0 c a, d)

tried-Answers : {A : Type 0} (t : Try A) → Answers (tried t)
tried-Answers (got a) = pure-Answers a
tried-Answers (failed e) = fail-Answers e

module _ (host : Host) where
  open host use {Image}

  read-Answers : (path : Text) → Answers (read path)
  unfolding read
  read-Answers path =
      bind-Answers _ (or_fail call_failed)
        (call-Answers (λ w. file_at path w.files) (λ w. w) λ w h. h) (or_fail-Answers call_failed)

  pub open_image-Answers : (c path : Text) → Answers (open_image host c path)
  unfolding open_image
  open_image-Answers c path =
      with_context-Answers c (read path >>= λ bytes. or_fail undecodable (host.decode bytes)) (
        bind-Answers (read path) (λ bytes. or_fail undecodable (host.decode bytes))
          (read-Answers path) λ bytes. or_fail-Answers undecodable (host.decode bytes))

  decode_jpeg_turbo-Answers : (path : Text) (n : ℕ) → Answers (decode_jpeg_turbo host path n)
  unfolding decode_jpeg_turbo
  decode_jpeg_turbo-Answers path n =
      bind-Answers (with_context _ (read path))
        (λ bytes. or_fail undecodable (decode_jpeg_turbo_from_data host bytes n))
        (with_context-Answers _ (read path) (read-Answers path))
        λ bytes. or_fail-Answers undecodable _

  or_open-Answers : (input : Text) (t : Try Image) → Answers (or_open host input t)
  unfolding open_image
  or_open-Answers input (got img) = pure-Answers img
  or_open-Answers input (failed e) = open_image-Answers _ input

  load_native-Answers : (input : Text) → Answers (load_native host input)
  unfolding open_image is_jpeg decode_jpeg_turbo
  load_native-Answers input =
      if-Answers (is_jpeg input) (attempt (decode_jpeg_turbo host input 920) >>= or_open host input)
        (open_image host _ input)
        (bind-Answers (attempt (decode_jpeg_turbo host input 920)) (or_open host input)
          (attempt-Answers (decode_jpeg_turbo host input 920) (decode_jpeg_turbo-Answers input 920))
          (or_open-Answers input))
        (open_image-Answers _ input)

  pub or_command_failed-Answers : (b : Bool) → Answers (or_command_failed host b)
  or_command_failed-Answers true = pure-Answers tt
  or_command_failed-Answers false = fail-Answers _

  pub run_ffmpeg-Answers :
      (args : List Text) (output : Text) → Answers (run_ffmpeg host args output)
  unfolding run_ffmpeg
  run_ffmpeg-Answers args output =
      call-Answers (λ w. (host.ffmpeg args w.files).0)
        (λ w. record w { files = leave output (host.ffmpeg args w.files).1 w.files }) λ w h. h

  waited-Answers : (o : Option (Try Bool)) → Answers (waited host o)
  waited-Answers none = fail-Answers _
  waited-Answers (some (failed e)) = fail-Answers _
  waited-Answers (some (got b)) = or_command_failed-Answers b

  normalize_to_jpeg-Answers : (input output : Text) → Answers (normalize_to_jpeg host input output)
  unfolding normalize_to_jpeg
  normalize_to_jpeg-Answers input output =
      let run = run_ffmpeg host (normalize_args host input output) output in
      bind-Answers (with_context _ (spawn host)) (λ _. timeout run >>= waited host)
        (with_context-Answers _ (spawn host) (call-Answers nothing (λ w. w) λ w h. h))
        λ _.
          bind-Answers (timeout run) (waited host)
            (timeout-Answers run (run_ffmpeg-Answers (normalize_args host input output) output))
            waited-Answers

  load_exotic-Answers : (input tmp : Text) → Answers (load_exotic host input tmp)
  unfolding normalize_to_jpeg open_image
  load_exotic-Answers input tmp =
      let decoded = open_image host (codes "decode normalized JPEG") tmp in
      bind-Answers (normalize_to_jpeg host input tmp) (λ _. decoded >>= λ img. pure (img, some tmp))
        (normalize_to_jpeg-Answers input tmp)
        λ _.
          bind-Answers decoded (λ img. pure (img, some tmp)) (open_image-Answers _ tmp)
            λ img. pure-Answers (img, some tmp)

  pub load_image-Answers :
      (input : Text) (dirs : Directories) → Answers (load_image host input dirs)
  unfolding load_image generate_name
  load_image-Answers input dirs =
      if-Answers (can_decode_natively input) (load_native host input >>= unloaded host)
        (generate_name host >>= λ name. load_exotic host input (normalized_path host dirs name))
        (bind-Answers (load_native host input) (unloaded host) (load_native-Answers input)
          λ img. pure-Answers (img, none))
        (bind-Answers (generate_name host)
          (λ name. load_exotic host input (normalized_path host dirs name)) (λ w h. (λ e. cc, h))
          λ name. load_exotic-Answers input (normalized_path host dirs name))

  results-Answers : (c : Text) (r : Try PHash × Try (ℤ × ℤ)) → Answers (results host c r)
  results-Answers c (p, s) =
      bind-Answers (with_context (codes "phash/thumb task failed") (tried p))
        (λ p_hash. with_context c (tried s) >>= λ size. pure (p_hash, size.0, size.1))
        (with_context-Answers _ (tried p) (tried-Answers p))
        λ p_hash.
          bind-Answers (with_context c (tried s)) (λ size. pure (p_hash, size.0, size.1))
            (with_context-Answers c (tried s) (tried-Answers s))
            λ size. pure-Answers (p_hash, size.0, size.1)

  joined-Answers :
      (c : Text) (m : M PHash) (n : M (ℤ × ℤ)) → Answers m → Answers n → Answers (joined host c m n)
  joined-Answers c m n km kn w =
      bind-Answers (join_tasks (host.thumb_first w) m n) (results host c)
        (join_tasks-Answers (host.thumb_first w) m n km kn) (results-Answers c) w

  thumbnail_task-Answers :
      (small : Image) (thumb_path : Text) → Answers (thumbnail_task host small thumb_path)
  unfolding thumbnail_task encode_avif
  thumbnail_task-Answers small thumb_path =
      bind-Answers (or_fail panicked _)
        (λ p_hash.
          or_fail panicked (prepare_thumbnail_pixels host small)
          >>= (encode_thumbnail host thumb_path)
          >>= λ size. pure p_hash)
        (or_fail-Answers panicked _)
        λ p_hash.
          bind-Answers
            (or_fail panicked (prepare_thumbnail_pixels host small)
              >>= encode_thumbnail host thumb_path)
            (λ size. pure p_hash)
            (bind-Answers (or_fail panicked (prepare_thumbnail_pixels host small))
              (encode_thumbnail host thumb_path) (or_fail-Answers panicked _)
              λ thumb.
                with_context-Answers _ (encode_avif host thumb thumb_path 40 10 150 1)
                  (encode_avif-Answers host thumb_path thumb 40 10 150 1))
            λ size. pure-Answers p_hash

  fullres_task-Answers :
      (img : Image) (output_path : Text) → Answers (fullres_task host img output_path)
  unfolding fullres_task
  fullres_task-Answers img output_path =
      bind-Answers (or_fail panicked (fullres_encode_threads host.env host.cpus))
        (encode_avif host img output_path 18 8 920) (or_fail-Answers panicked _)
        (encode_avif-Answers host output_path img 18 8 920)

  remove_tmp-Answers : (tmp : Option Text) → Answers (remove_tmp host tmp)
  remove_tmp-Answers none = pure-Answers tt
  remove_tmp-Answers (some path) = ignore-Answers (remove_file path) (remove_file-Answers path)

  pub encode_both-Answers :
      (thumb_path output_path : Text) (img : Image)
      → Answers (encode_both host thumb_path output_path img)
  unfolding encode_both
  encode_both-Answers thumb_path output_path img =
      let small = host.resize img 512 512 in
      joined-Answers _ (thumbnail_task host small thumb_path) (fullres_task host img output_path)
        (thumbnail_task-Answers small thumb_path) (fullres_task-Answers img output_path)

  pub encode_loaded-Answers :
      (thumb_path output_path : Text) (l : Image × Option Text)
      → Answers (encode_loaded host thumb_path output_path l)
  unfolding encode_loaded
  encode_loaded-Answers thumb_path output_path (img, tmp) =
      bind-Answers (encode_both host thumb_path output_path img)
        (λ r. remove_tmp host tmp >> pure r) (encode_both-Answers thumb_path output_path img)
        λ r.
          bind-Answers (remove_tmp host tmp) (λ _. pure r) (remove_tmp-Answers tmp)
            λ _. pure-Answers r

  slices-Answers :
      (yuv : Yuv) (output_path : Text) (threads : ℕ) (p : Plane × Plane × Plane)
      → Answers (encode_slices host yuv output_path threads p)
  unfolding encode_avif_from_yuv_planes
  slices-Answers yuv output_path threads (y, u, v) =
      encode_avif_from_yuv_planes-Answers host output_path 18 8 threads y u v (even_size host yuv).0
        (even_size host yuv).1

  yuv_task-Answers : (yuv : Yuv) (output_path : Text) → Answers (yuv_task host yuv output_path)
  unfolding yuv_task encode_avif_from_yuv_planes
  yuv_task-Answers yuv output_path =
      bind-Answers (or_fail panicked (yuv_slices host yuv))
        (λ planes. or_fail panicked (fullres_encode_threads host.env host.cpus) >>= λ threads.
          encode_slices host yuv output_path threads planes)
        (or_fail-Answers panicked _)
        λ planes.
          bind-Answers (or_fail panicked (fullres_encode_threads host.env host.cpus))
            (λ threads. encode_slices host yuv output_path threads planes)
            (or_fail-Answers panicked _) λ threads. slices-Answers yuv output_path threads planes

  pub encode_fast-Answers :
      (thumb_path output_path bytes : Text)
      → Answers (encode_fast host thumb_path output_path bytes)
  unfolding encode_fast
  encode_fast-Answers thumb_path output_path bytes =
      let both = λ (yuv : Yuv) (small : Image).
        joined host (codes "full-res YUV encode failed") (thumbnail_task host small thumb_path)
          (yuv_task host yuv output_path) in
      bind-Answers (with_context _ (or_fail undecodable (decode_jpeg_to_yuv_planes host bytes)))
        (λ yuv.
          with_context (codes "RGB-512 decode failed")
            (or_fail undecodable (small_image host bytes))
          >>= λ small. both yuv small)
        (with_context-Answers _ (or_fail undecodable _) (or_fail-Answers undecodable _))
        λ yuv.
          bind-Answers (with_context _ (or_fail undecodable (small_image host bytes)))
            (λ small. both yuv small)
            (with_context-Answers _ (or_fail undecodable _) (or_fail-Answers undecodable _))
            λ small.
              joined-Answers _ (thumbnail_task host small thumb_path)
                (yuv_task host yuv output_path) (thumbnail_task-Answers small thumb_path)
                (yuv_task-Answers yuv output_path)

  pub read-Ends : (c path : Text) → Answers (with_context c (read path))
  read-Ends c path = with_context-Answers c (read path) (read-Answers path)
