-- ===== src/Processing/Clips.antt =====
-- What `process_video` of src/worker/src/processing.rs returns and leaves behind, and that it ends.
use ginbar.Prelude.{refl, Bool, true, false, Option, none, some, ◌++◌, Text, codes}
use ginbar.World.{panicked, Try, got, failed, pure, attempt, ignore, with_context, ◌>>=◌, ◌>>◌}
use ginbar.World.Calls.{remove_file}
use ginbar.World.FileSystem.{file_at, is_file}
use ginbar.World.Footprint.{posts-Footprint}
use ginbar.World.Answers.{
  Answers, pure-Answers, fail-Answers, bind-Answers, attempt-Answers, ignore-Answers,
  with_context-Answers, call-Answers,
}
use ginbar.Paths.{Directories, join, extension}
use ginbar.Pipeline.{VideoResult, Processor}
use ginbar.Ffmpeg.{
  ffprobe, probe_args, probed, get_dimensions, parse_dimensions, run_ffmpeg, frame_args,
  or_command_failed, extract_video_frame,
}
use ginbar.Avif.{or_fail, encode_avif}
use ginbar.Avif.Written.{
  Writes, bind-Writes, with_context-Writes, encode_avif-Writes, or_fail-Answers,
  remove_file-Answers, encode_avif-Answers,
}
use ginbar.Processing.Decode.{open_image, prepare_thumbnail_pixels}
use ginbar.Processing.Ends.{open_image-Answers, run_ffmpeg-Answers, or_command_failed-Answers}
use ginbar.Processing.Video.{
  copy_bytes, move_bytes, or_missing, rename, copy, or_copy, move_video, create_thumbnail,
  video_thumbnail, video_base, video_result, process_named, video_extension, process_video,
  strip_suffix,
}
use ginbar.Processing.Videos.{video_path, frame_path, thumbnail_path, measure, process_named-Keeps}
use ginbar.Host.{Host}

or_missing-Answers : (b : Bool) → Answers (or_missing b)
or_missing-Answers true = pure-Answers tt
or_missing-Answers false = fail-Answers _

module _ (src dst : Text) where
  rename-Answers : Answers (rename src dst)
  unfolding rename
  rename-Answers =
      bind-Answers _ or_missing
        (call-Answers (λ w. is_file (file_at src w.files))
          (λ w. record w { files = move_bytes src dst w.files }) λ w h. h)
        or_missing-Answers

  copy-Answers : Answers (copy src dst)
  unfolding copy
  copy-Answers =
      bind-Answers _ or_missing
        (call-Answers (λ w. is_file (file_at src w.files))
          (λ w. record w { files = copy_bytes dst (file_at src w.files) w.files }) λ w h. h)
        or_missing-Answers

  or_copy-Answers : (t : Try (Unit {0})) → Answers (or_copy src dst t)
  unfolding copy
  or_copy-Answers (got done) = pure-Answers tt
  or_copy-Answers (failed e) =
      bind-Answers (with_context (codes "copy video file") (copy src dst))
        (λ _. ignore (remove_file src)) (with_context-Answers _ (copy src dst) copy-Answers)
        λ _. ignore-Answers (remove_file src) (remove_file-Answers src)

  move_video-Answers : Answers (move_video src dst)
  unfolding move_video rename
  move_video-Answers =
      bind-Answers (attempt (rename src dst)) (or_copy src dst)
        (attempt-Answers (rename src dst) rename-Answers) or_copy-Answers

module _ (host : Host) where
  open host use {Image}

  probed-Answers : (t : Try (Option Text)) → Answers (probed host t)
  unfolding parse_dimensions
  probed-Answers (got (some stdout)) = pure-Answers _
  probed-Answers (got none) = pure-Answers _
  probed-Answers (failed e) = pure-Answers _

  get_dimensions-Answers : (path : Text) → Answers (get_dimensions host path)
  unfolding get_dimensions
  get_dimensions-Answers path =
      let run = ffprobe host (probe_args host path) in
      bind-Answers (attempt run) (probed host)
        (attempt-Answers run
          (call-Answers (λ w. host.ffprobe (probe_args host path) w.files) (λ w. w) λ w h. h))
        probed-Answers

  create_thumbnail-Answers : (dst : Text) (img : Image) → Answers (create_thumbnail host dst img)
  unfolding create_thumbnail
  create_thumbnail-Answers dst img =
      bind-Answers (or_fail panicked (prepare_thumbnail_pixels host img))
        (λ thumb.
          with_context (codes "SVT-AV1 thumbnail encode") (encode_avif host thumb dst 40 10 150 1))
        (or_fail-Answers panicked _)
        λ thumb.
          with_context-Answers _ (encode_avif host thumb dst 40 10 150 1)
            (encode_avif-Answers host dst thumb 40 10 150 1)

  pub create_thumbnail-Writes :
      (dst : Text) (img : Image) → Writes dst (create_thumbnail host dst img)
  unfolding create_thumbnail
  create_thumbnail-Writes dst img =
      bind-Writes dst (or_fail panicked (prepare_thumbnail_pixels host img))
        (λ thumb.
          with_context (codes "SVT-AV1 thumbnail encode") (encode_avif host thumb dst 40 10 150 1))
        λ thumb.
          with_context-Writes dst _ (encode_avif host thumb dst 40 10 150 1)
            (encode_avif-Writes host dst thumb 40 10 150 1)

  extract_video_frame-Answers : (dst tmp : Text) → Answers (extract_video_frame host dst tmp)
  unfolding extract_video_frame
  extract_video_frame-Answers dst tmp =
      let frame = run_ffmpeg host (frame_args host dst tmp) tmp in
      bind-Answers (with_context _ frame) (or_command_failed host)
        (with_context-Answers _ frame (run_ffmpeg-Answers host (frame_args host dst tmp) tmp))
        (or_command_failed-Answers host)

  video_thumbnail-Answers : (dst tmp thumb : Text) → Answers (video_thumbnail host dst tmp thumb)
  unfolding video_thumbnail
  video_thumbnail-Answers dst tmp thumb =
      let decoded = open_image host (codes "decode video frame") tmp in
      bind-Answers (extract_video_frame host dst tmp)
        (λ _. decoded >>= (create_thumbnail host thumb) >>= λ size. ignore (remove_file tmp))
        (extract_video_frame-Answers dst tmp)
        λ _.
          bind-Answers (decoded >>= create_thumbnail host thumb) (λ size. ignore (remove_file tmp))
            (bind-Answers decoded (create_thumbnail host thumb) (open_image-Answers host _ tmp)
              (create_thumbnail-Answers thumb))
            λ size. ignore-Answers (remove_file tmp) (remove_file-Answers tmp)

  module _ (input : Text) (dirs : Directories) (name ext : Text) where
    pub process_named-Answers : Answers (process_named host input dirs name ext)
    unfolding process_named join strip_suffix
    process_named-Answers =
        let video = video_path host dirs name ext in
        let frame = frame_path host dirs name ext in
        let thumb = thumbnail_path host dirs name ext in
        bind-Answers (move_video input video >> video_thumbnail host video frame thumb)
          (λ _. measure host dirs name ext)
          (bind-Answers (move_video input video) (λ _. video_thumbnail host video frame thumb)
            (move_video-Answers input video) λ _. video_thumbnail-Answers video frame thumb)
          λ _.
            bind-Answers (get_dimensions host video)
              (λ size.
                pure (video_result host name (video_base host name ext ++ codes ".avif") size))
              (get_dimensions-Answers video) λ size. pure-Answers _

-- `process_video` as the processing queue takes it.
abbrev pub videos : Host → Directories → Processor VideoResult
unfolding process_video process_named extension
videos host dirs = record {
  run = λ input. process_video host input dirs;
  same_posts = λ input w.
      process_named-Keeps host (posts-Footprint w.posts) input dirs
        (host.uuid w ++ video_extension host input) (video_extension host input) tt tt tt tt w refl;
  same_script = λ input w h.
      (process_named-Answers host input dirs (host.uuid w ++ video_extension host input)
        (video_extension host input) w h).1;
  ends = λ input w h.
      (process_named-Answers host input dirs (host.uuid w ++ video_extension host input)
        (video_extension host input) w h).0;
}
