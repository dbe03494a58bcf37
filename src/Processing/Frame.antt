-- ===== src/Processing/Frame.antt =====
-- What the pipeline of src/worker/src/processing.rs leaves as it was: any property that only a write to
-- the thumbnail, the image or the normalized file could change.
use ginbar.Prelude.{ℕ, ◌≡◌, refl, Bool, true, false, Option, none, some, Text, codes}
use ginbar.World.{
  World, call_failed, undecodable, Try, got, failed, pure, attempt, timeout, with_context, ◌>>=◌,
}
use ginbar.World.Calls.{nothing, remove_file}
use ginbar.World.FileSystem.{file_at}
use ginbar.World.Footprint.{Footprint, remove_file-Keeps, look-Keeps}
use ginbar.World.Rules.{
  Keeps, bind-Keeps, ignore-Keeps, attempt-Keeps, timeout-Keeps, with_context-Keeps, call-Keeps,
  if_Keeps,
}
use ginbar.Media.{is_jpeg}
use ginbar.Ffmpeg.{
  leave, run_ffmpeg, or_command_failed, waited, spawn, normalize_args, normalize_to_jpeg,
}
use ginbar.Avif.{or_fail}
use ginbar.Avif.Frame.{or_fail-Keeps}
use ginbar.Processing.Decode.{read, open_image, decode_jpeg_turbo, decode_jpeg_turbo_from_data}
use ginbar.Processing.{or_open, load_native, load_exotic, remove_tmp}
use ginbar.Host.{Host}

pub leave-Keeps {κ} :
    {P : World → Type κ} {Touched : Text → Type 0}
    → Footprint P Touched
    → (output : Text) (bytes : Option Text) (w : World) → Touched output
    → P w
    → P (record w { files = leave output bytes w.files })
unfolding leave
leave-Keeps fp output none w t h = h
leave-Keeps fp output (some bytes) w t h = fp.writes output bytes w t h

module _ {κ} (host : Host) {P : World → Type κ} {Touched : Text → Type 0}
    (fp : Footprint P Touched) where
  open host use {Image}

  pub read-Keeps : (path : Text) → Keeps P (read path)
  unfolding read
  read-Keeps path =
      bind-Keeps P _ (or_fail call_failed) (look-Keeps fp λ w. file_at path w.files)
        λ o. or_fail-Keeps P call_failed o

  pub open_image-Keeps : (c path : Text) → Keeps P (open_image host c path)
  unfolding open_image
  open_image-Keeps c path =
      with_context-Keeps P c (read path >>= λ bytes. or_fail undecodable (host.decode bytes)) (
        bind-Keeps P (read path) (λ bytes. or_fail undecodable (host.decode bytes))
          (read-Keeps path) λ bytes. or_fail-Keeps P undecodable (host.decode bytes))

  decode_jpeg_turbo-Keeps : (path : Text) (n : ℕ) → Keeps P (decode_jpeg_turbo host path n)
  unfolding decode_jpeg_turbo
  decode_jpeg_turbo-Keeps path n =
      bind-Keeps P (with_context _ (read path))
        (λ bytes. or_fail undecodable (decode_jpeg_turbo_from_data host bytes n))
        (with_context-Keeps P _ (read path) (read-Keeps path))
        λ bytes. or_fail-Keeps P undecodable _

  or_open-Keeps : (input : Text) (t : Try Image) → Keeps P (or_open host input t)
  unfolding open_image
  or_open-Keeps input (got img) w h = h
  or_open-Keeps input (failed e) w h = open_image-Keeps _ input w h

  pub load_native-Keeps : (input : Text) → Keeps P (load_native host input)
  unfolding open_image is_jpeg decode_jpeg_turbo
  load_native-Keeps input =
      if_Keeps P (is_jpeg input) (attempt (decode_jpeg_turbo host input 920) >>= or_open host input)
        (open_image host _ input)
        (bind-Keeps P (attempt (decode_jpeg_turbo host input 920)) (or_open host input)
          (attempt-Keeps P (decode_jpeg_turbo host input 920) (decode_jpeg_turbo-Keeps input 920))
          (or_open-Keeps input))
        (open_image-Keeps _ input)

  pub or_command_failed-Keeps : (b : Bool) → Keeps P (or_command_failed host b)
  or_command_failed-Keeps true w h = h
  or_command_failed-Keeps false w h = h

  pub run_ffmpeg-Keeps :
      (args : _) (output : Text) → Touched output → Keeps P (run_ffmpeg host args output)
  unfolding run_ffmpeg
  run_ffmpeg-Keeps args output t =
      call-Keeps P (λ w. (host.ffmpeg args w.files).0)
        (λ w. record w { files = leave output (host.ffmpeg args w.files).1 w.files }) fp.scripts
        λ w. leave-Keeps fp output (host.ffmpeg args w.files).1 w t

  waited-Keeps : (o : Option (Try Bool)) → Keeps P (waited host o)
  waited-Keeps none w h = h
  waited-Keeps (some (failed e)) w h = h
  waited-Keeps (some (got b)) w h = or_command_failed-Keeps b w h

  normalize_to_jpeg-Keeps :
      (input output : Text) → Touched output → Keeps P (normalize_to_jpeg host input output)
  unfolding normalize_to_jpeg
  normalize_to_jpeg-Keeps input output t =
      let run = run_ffmpeg host (normalize_args host input output) output in
      bind-Keeps P (with_context _ (spawn host)) (λ _. timeout run >>= waited host)
        (with_context-Keeps P _ (spawn host) (look-Keeps fp nothing))
        λ _.
          bind-Keeps P (timeout run) (waited host)
            (timeout-Keeps P run (run_ffmpeg-Keeps (normalize_args host input output) output t))
            waited-Keeps

  pub load_exotic-Keeps : (input tmp : Text) → Touched tmp → Keeps P (load_exotic host input tmp)
  unfolding normalize_to_jpeg open_image
  load_exotic-Keeps input tmp t =
      let decoded = open_image host (codes "decode normalized JPEG") tmp in
      bind-Keeps P (normalize_to_jpeg host input tmp) (λ _. decoded >>= λ img. pure (img, some tmp))
        (normalize_to_jpeg-Keeps input tmp t)
        λ _.
          bind-Keeps P decoded (λ img. pure (img, some tmp)) (open_image-Keeps _ tmp) λ img w h. h

  pub remove_tmp-Keeps :
      (tmp : Option Text)
      → ((path : Text) → tmp ≡ some path → Touched path)
      → Keeps P (remove_tmp host tmp)
  remove_tmp-Keeps none t w h = h
  remove_tmp-Keeps (some path) t w h =
      ignore-Keeps P (remove_file path) (remove_file-Keeps fp path (t path refl)) w h
