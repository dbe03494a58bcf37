-- ===== src/Processing/Videos.antt =====
-- `process_video` of src/worker/src/processing.rs: what it leaves as it was, and that it ends.
use ginbar.Prelude.{Bool, true, false, Option, none, some, ◌++◌, Text, codes, if◌then◌else◌}
use ginbar.World.{
  World, M, panicked, Try, got, failed, pure, attempt, ignore, with_context, ◌>>=◌, ◌>>◌,
}
use ginbar.World.Calls.{remove_file}
use ginbar.World.FileSystem.{file_at, is_file, erase}
use ginbar.World.Footprint.{Footprint, remove_file-Keeps, look-Keeps}
use ginbar.World.Rules.{
  Keeps, bind-Keeps, attempt-Keeps, ignore-Keeps, with_context-Keeps, call-Keeps,
}
use ginbar.Paths.{Directories, join}
use ginbar.Pipeline.{VideoResult}
use ginbar.Ffmpeg.{
  ffprobe, probe_args, probed, get_dimensions, parse_dimensions, run_ffmpeg, frame_args,
  or_command_failed, extract_video_frame,
}
use ginbar.Avif.{or_fail, encode_avif}
use ginbar.Avif.Frame.{or_fail-Keeps, encode_avif-Keeps}
use ginbar.Processing.Decode.{open_image, prepare_thumbnail_pixels}
use ginbar.Processing.Frame.{open_image-Keeps, run_ffmpeg-Keeps, or_command_failed-Keeps}
use ginbar.Processing.Video.{
  copy_bytes, move_bytes, or_missing, rename, copy, or_copy, move_video, create_thumbnail,
  video_thumbnail, video_base, video_result, process_named, strip_suffix,
}
use ginbar.Host.{Host}

module _ {κ} {P : World → Type κ} {Touched : Text → Type 0} (fp : Footprint P Touched)
    (src dst : Text) (t_src : Touched src) (t_dst : Touched dst) where
  copy_bytes-keeps :
      (o : Option Text) (w : World) → P w → P (record w { files = copy_bytes dst o w.files })
  copy_bytes-keeps none w h = h
  copy_bytes-keeps (some bytes) w h = fp.writes dst bytes w t_dst h

  move_bytes-keeps : (w : World) → P w → P (record w { files = move_bytes src dst w.files })
  move_bytes-keeps w h = by_test (is_file (file_at src w.files))
    where
      by_test :
          (b : Bool)
          → P (record w {
            files = if b then copy_bytes dst (file_at src w.files) (erase src w.files) else w.files;
          })
      by_test true =
          copy_bytes-keeps (file_at src w.files) (record w { files = erase src w.files })
            (fp.erases src w t_src h)
      by_test false = h

  or_missing-Keeps : (b : Bool) → Keeps P (or_missing b)
  or_missing-Keeps true w h = h
  or_missing-Keeps false w h = h

  rename-Keeps : Keeps P (rename src dst)
  unfolding rename
  rename-Keeps =
      bind-Keeps P _ or_missing
        (call-Keeps P (λ w. is_file (file_at src w.files))
          (λ w. record w { files = move_bytes src dst w.files }) fp.scripts move_bytes-keeps)
        or_missing-Keeps

  copy-Keeps : Keeps P (copy src dst)
  unfolding copy
  copy-Keeps =
      bind-Keeps P _ or_missing
        (call-Keeps P (λ w. is_file (file_at src w.files))
          (λ w. record w { files = copy_bytes dst (file_at src w.files) w.files }) fp.scripts
          λ w. copy_bytes-keeps (file_at src w.files) w)
        or_missing-Keeps

  or_copy-Keeps : (t : Try (Unit {0})) → Keeps P (or_copy src dst t)
  unfolding copy
  or_copy-Keeps (got done) w h = h
  or_copy-Keeps (failed e) w h =
      bind-Keeps P (with_context (codes "copy video file") (copy src dst))
        (λ _. ignore (remove_file src)) (with_context-Keeps P _ (copy src dst) copy-Keeps)
        (λ _. ignore-Keeps P (remove_file src) (remove_file-Keeps fp src t_src)) w h

  pub move_video-Keeps : Keeps P (move_video src dst)
  unfolding move_video rename
  move_video-Keeps =
      bind-Keeps P (attempt (rename src dst)) (or_copy src dst)
        (attempt-Keeps P (rename src dst) rename-Keeps) or_copy-Keeps

module _ (host : Host) (dirs : Directories) (name ext : Text) where
  abbrev pub video_path : Text
  unfolding join
  video_path = join dirs.video name

  abbrev pub frame_path : Text
  unfolding join strip_suffix
  frame_path = join dirs.tmp (video_base host name ext ++ codes ".jpg")

  abbrev pub thumbnail_path : Text
  unfolding join strip_suffix
  thumbnail_path = join dirs.thumbnail (video_base host name ext ++ codes ".avif")

  abbrev pub measure : M VideoResult
  unfolding join strip_suffix
  measure = get_dimensions host video_path >>= λ size.
      pure (video_result host name (video_base host name ext ++ codes ".avif") size)

module _ {κ} (host : Host) {P : World → Type κ} {Touched : Text → Type 0}
    (fp : Footprint P Touched) where
  open host use {Image}

  probed-Keeps : (t : Try (Option Text)) → Keeps P (probed host t)
  unfolding parse_dimensions
  probed-Keeps (got (some stdout)) w h = h
  probed-Keeps (got none) w h = h
  probed-Keeps (failed e) w h = h

  pub get_dimensions-Keeps : (path : Text) → Keeps P (get_dimensions host path)
  unfolding get_dimensions
  get_dimensions-Keeps path =
      let run = ffprobe host (probe_args host path) in
      bind-Keeps P (attempt run) (probed host)
        (attempt-Keeps P run (look-Keeps fp λ w. host.ffprobe (probe_args host path) w.files))
        probed-Keeps

  create_thumbnail-Keeps :
      (dst : Text) (img : Image) → Touched dst → Keeps P (create_thumbnail host dst img)
  unfolding create_thumbnail
  create_thumbnail-Keeps dst img t =
      bind-Keeps P (or_fail panicked (prepare_thumbnail_pixels host img))
        (λ thumb.
          with_context (codes "SVT-AV1 thumbnail encode") (encode_avif host thumb dst 40 10 150 1))
        (or_fail-Keeps P panicked _)
        λ thumb.
          with_context-Keeps P _ (encode_avif host thumb dst 40 10 150 1)
            (encode_avif-Keeps host fp dst t thumb 40 10 150 1)

  module _ (dst tmp thumb : Text) (t_tmp : Touched tmp) (t_thumb : Touched thumb) where
    abbrev frame : M Bool
    frame = run_ffmpeg host (frame_args host dst tmp) tmp

    extract_video_frame-Keeps : Keeps P (extract_video_frame host dst tmp)
    unfolding extract_video_frame
    extract_video_frame-Keeps =
        bind-Keeps P (with_context _ frame) (or_command_failed host)
          (with_context-Keeps P _ frame
            (run_ffmpeg-Keeps host fp (frame_args host dst tmp) tmp t_tmp))
          (or_command_failed-Keeps host fp)

    pub video_thumbnail-Keeps : Keeps P (video_thumbnail host dst tmp thumb)
    unfolding video_thumbnail
    video_thumbnail-Keeps =
        let decoded = open_image host (codes "decode video frame") tmp in
        bind-Keeps P (extract_video_frame host dst tmp)
          (λ _. decoded >>= (create_thumbnail host thumb) >>= λ size. ignore (remove_file tmp))
          extract_video_frame-Keeps
          λ _.
            bind-Keeps P (decoded >>= create_thumbnail host thumb)
              (λ size. ignore (remove_file tmp))
              (bind-Keeps P decoded (create_thumbnail host thumb) (open_image-Keeps host fp _ tmp)
                λ img. create_thumbnail-Keeps thumb img t_thumb)
              λ size. ignore-Keeps P (remove_file tmp) (remove_file-Keeps fp tmp t_tmp)

  module _ (input : Text) (dirs : Directories) (name ext : Text) where
    pub measure-Keeps : Keeps P (measure host dirs name ext)
    unfolding join strip_suffix
    measure-Keeps =
        bind-Keeps P (get_dimensions host (video_path host dirs name ext))
          (λ size. pure (video_result host name (video_base host name ext ++ codes ".avif") size))
          (get_dimensions-Keeps (video_path host dirs name ext)) λ size w h. h

    pub process_named-Keeps :
        Touched input
        → Touched (video_path host dirs name ext)
        → Touched (frame_path host dirs name ext)
        → Touched (thumbnail_path host dirs name ext)
        → Keeps P (process_named host input dirs name ext)
    unfolding process_named join strip_suffix
    process_named-Keeps a b c d =
        bind-Keeps P
          (move_video input (video_path host dirs name ext)
            >> video_thumbnail host (video_path host dirs name ext) (frame_path host dirs name ext)
                (thumbnail_path host dirs name ext))
          (λ _. measure host dirs name ext)
          (bind-Keeps P (move_video input (video_path host dirs name ext))
            (λ _.
              video_thumbnail host (video_path host dirs name ext) (frame_path host dirs name ext)
                (thumbnail_path host dirs name ext))
            (move_video-Keeps fp input (video_path host dirs name ext) a b)
            λ _.
              video_thumbnail-Keeps (video_path host dirs name ext) (frame_path host dirs name ext)
                (thumbnail_path host dirs name ext) c d)
          λ _. measure-Keeps
