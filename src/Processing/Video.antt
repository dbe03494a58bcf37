-- ===== src/Processing/Video.antt =====
-- `process_video` and `create_thumbnail` of src/worker/src/processing.rs.
use ginbar.Prelude.{
  ℕ, Bool, true, false, Option, none, some, [], ◌∷◌, ◌++◌, Text, codes, text_eq, if◌then◌else◌,
}
use ginbar.Prelude.Int.{ℤ}
use ginbar.World.{
  M, call_failed, panicked, Try, got, failed, pure, fail, attempt, ignore, with_context, call,
  ◌>>=◌, ◌>>◌,
}
use ginbar.World.Calls.{remove_file}
use ginbar.World.FileSystem.{Files, file_at, is_file, erase, write}
use ginbar.Paths.{Directories, join, extension}
use ginbar.Pipeline.{VideoResult}
use ginbar.Ffmpeg.{extract_video_frame, get_dimensions}
use ginbar.Avif.{or_fail, encode_avif}
use ginbar.Processing.Decode.{open_image, prepare_thumbnail_pixels}
use ginbar.Host.{Host}

abbrev pub copy_bytes : Text → Option Text → Files → Files
copy_bytes dst none files = files
copy_bytes dst (some bytes) files = write dst bytes files

abbrev pub or_missing : Bool → M (Unit {0})
or_missing true = pure tt
or_missing false = fail call_failed

abbrev pub move_bytes : Text → Text → Files → Files
move_bytes src dst files =
    if is_file (file_at src files)
    then copy_bytes dst (file_at src files) (erase src files)
    else files

-- `fs::rename`
unfoldable pub rename : Text → Text → M (Unit {0})
rename src dst =
    call (λ w. is_file (file_at src w.files)) (λ w. record w { files = move_bytes src dst w.files })
    >>= or_missing

-- `fs::copy`
unfoldable pub copy : Text → Text → M (Unit {0})
copy src dst =
    call (λ w. is_file (file_at src w.files))
      (λ w. record w { files = copy_bytes dst (file_at src w.files) w.files })
    >>= or_missing

-- `format!(".{}", e)` of the extension, if there is one.
abbrev pub dotted : Option Text → Text
dotted none = []
dotted (some e) = b'.' ∷ e

abbrev pub put_back : ℕ → Option Text → Option Text
put_back c none = none
put_back c (some t) = some (c ∷ t)

unfoldable pub strip_suffix : Text → Text → Option Text
unfolding text_eq
strip_suffix suffix [] = if text_eq [] suffix then some [] else none
strip_suffix suffix (c ∷ s) =
    let rest = put_back c (strip_suffix suffix s) in
    if text_eq (c ∷ s) suffix then some [] else rest

abbrev pub or_whole : Text → Option Text → Text
or_whole s none = s
or_whole s (some t) = t

-- What follows the `rename`.
abbrev pub or_copy : Text → Text → Try (Unit {0}) → M (Unit {0})
unfolding copy
or_copy input dst (got done) = pure tt
or_copy input dst (failed e) =
    with_context (codes "copy video file") (copy input dst) >> ignore (remove_file input)

unfoldable pub move_video : Text → Text → M (Unit {0})
unfolding rename copy
move_video input dst = attempt (rename input dst) >>= or_copy input dst

module _ (host : Host) where
  open host use {Image}

  unfoldable pub create_thumbnail : Text → Image → M (ℤ × ℤ)
  unfolding prepare_thumbnail_pixels encode_avif
  create_thumbnail dst img = or_fail panicked (prepare_thumbnail_pixels host img) >>= λ thumb.
      with_context (codes "SVT-AV1 thumbnail encode") (encode_avif host thumb dst 40 10 150 1)

  -- The frame of the video to its thumbnail.
  unfoldable pub video_thumbnail : Text → Text → Text → M (Unit {0})
  unfolding extract_video_frame open_image create_thumbnail
  video_thumbnail dst tmp_jpg thumb_dst =
      extract_video_frame host dst tmp_jpg
      >> (open_image host (codes "decode video frame") tmp_jpg
          >>= (create_thumbnail thumb_dst)
          >>= λ size. ignore (remove_file tmp_jpg))

  abbrev pub video_result : Text → Text → ℤ × ℤ → VideoResult
  video_result dst_name thumb_name (w, h) = record {
    filename = dst_name;
    thumbnail_filename = thumb_name;
    width = w;
    height = h;
  }

  abbrev pub video_base : Text → Text → Text
  unfolding strip_suffix
  video_base dst_name ext = or_whole dst_name (strip_suffix ext dst_name)

  unfoldable pub process_named : Text → Directories → Text → Text → M VideoResult
  unfolding move_video video_thumbnail get_dimensions strip_suffix join
  process_named input dirs dst_name ext =
      move_video input (join dirs.video dst_name)
      >> video_thumbnail (join dirs.video dst_name)
          (join dirs.tmp (video_base dst_name ext ++ codes ".jpg"))
          (join dirs.thumbnail (video_base dst_name ext ++ codes ".avif"))
      >> (get_dimensions host (join dirs.video dst_name) >>= λ size.
          pure (video_result dst_name (video_base dst_name ext ++ codes ".avif") size))

  abbrev pub video_extension : Text → Text
  unfolding extension
  video_extension input = dotted (extension input)

  unfoldable pub process_video : Text → Directories → M VideoResult
  unfolding process_named extension
  process_video input dirs w =
      process_named input dirs (host.uuid w ++ video_extension input) (video_extension input) w
