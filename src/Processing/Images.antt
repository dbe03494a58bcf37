-- ===== src/Processing/Images.antt =====
-- `process_image` and its fallback, src/worker/src/processing.rs: what they leave as it was, what they
-- return, and that they end.
use ginbar.Prelude.{◌≡◌, some, Text, codes, if◌then◌else◌}
use ginbar.World.{World, M, no_filename, undecodable, pure, with_context, ◌>>=◌}
use ginbar.World.Footprint.{Footprint}
use ginbar.World.Rules.{Keeps, bind-Keeps, if_Keeps, with_context-Keeps}
use ginbar.World.Answers.{Answers, pure-Answers, bind-Answers, if-Answers}
use ginbar.Paths.{Directories, join, file_name}
use ginbar.Media.{is_jpeg}
use ginbar.Pipeline.{ImageResult}
use ginbar.Avif.{or_fail}
use ginbar.Avif.Frame.{or_fail-Keeps, or_fail_then-Keeps}
use ginbar.Avif.Written.{or_fail-Answers}
use ginbar.Processing.Decode.{read}
use ginbar.Processing.{
  normalized_path, load_image, encode_loaded, encode_fast, image_paths, image_result,
  needs_fallback, process_image_fallback, process_jpeg, process_image,
}
use ginbar.Processing.Frame.{read-Keeps}
use ginbar.Processing.Tasks.{encode_fast-Keeps}
use ginbar.Processing.Ends.{
  read-Ends, load_image-Answers, encode_loaded-Answers, encode_fast-Answers,
}
use ginbar.Processing.Regenerates.{encoded-keeps}
use ginbar.Host.{Host, Header}

module _ (host : Host) (input : Text) (dirs : Directories) where
  abbrev pub thumb_of : Text → Text
  thumb_of name = (image_paths host dirs name).0

  abbrev pub image_of : Text → Text
  image_of name = (image_paths host dirs name).1

  abbrev pub named_fallback : Text → M ImageResult
  named_fallback name =
      load_image host input dirs >>= (encode_loaded host (thumb_of name) (image_of name)) >>= λ r.
      pure (image_result host name r)

  abbrev pub fast : Text → Text → M ImageResult
  fast name bytes = encode_fast host (thumb_of name) (image_of name) bytes >>= λ r.
      pure (image_result host name r)

  abbrev pub by_header : Text → Text → Header → M ImageResult
  by_header name bytes header =
      if needs_fallback host header then process_image_fallback host input dirs else fast name bytes

  abbrev pub after_read : Text → Text → M ImageResult
  after_read name bytes = or_fail undecodable (host.read_header bytes) >>= by_header name bytes

  module _ {κ} {P : World → Type κ} {Touched : Text → Type 0} (fp : Footprint P Touched)
      (images : (name : Text)
        → file_name input ≡ some name
        → Touched (thumb_of name) × Touched (image_of name))
      (normalized : (w : World) → Touched (normalized_path host dirs (host.uuid w))) where
    fallback-Keeps : Keeps P (process_image_fallback host input dirs)
    unfolding process_image_fallback join
    fallback-Keeps = or_fail_then-Keeps P no_filename (file_name input) named_fallback λ name e.
        bind-Keeps P
          (load_image host input dirs >>= encode_loaded host (thumb_of name) (image_of name))
          (λ r. pure (image_result host name r))
          (λ w h.
            encoded-keeps host input dirs (thumb_of name) (image_of name) w fp (images name e).0
              (images name e).1 (normalized w) h)
          λ r w h. h

    fast-Keeps : (name bytes : Text) → file_name input ≡ some name → Keeps P (fast name bytes)
    unfolding join
    fast-Keeps name bytes e =
        bind-Keeps P (encode_fast host (thumb_of name) (image_of name) bytes)
          (λ r. pure (image_result host name r))
          (encode_fast-Keeps host fp (thumb_of name) (image_of name) (images name e).0
            (images name e).1 bytes)
          λ r w h. h

    jpeg-Keeps :
        (name : Text) → file_name input ≡ some name → Keeps P (process_jpeg host input dirs name)
    unfolding process_jpeg join
    jpeg-Keeps name e =
        bind-Keeps P (with_context (codes "read JPEG bytes") (read input)) (after_read name)
          (with_context-Keeps P _ (read input) (read-Keeps host fp input))
          λ bytes.
            bind-Keeps P (or_fail undecodable (host.read_header bytes)) (by_header name bytes)
              (or_fail-Keeps P undecodable (host.read_header bytes))
              λ header.
                if_Keeps P (needs_fallback host header) (process_image_fallback host input dirs)
                  (fast name bytes) fallback-Keeps (fast-Keeps name bytes e)

    -- `process_image` keeps what only its image, its thumbnail and a normalized file could change.
    pub process_image-Keeps : Keeps P (process_image host input dirs)
    unfolding process_image
    process_image-Keeps =
        or_fail_then-Keeps P no_filename (file_name input)
          (λ name.
            if is_jpeg input
            then process_jpeg host input dirs name
            else process_image_fallback host input dirs)
          λ name e.
            if_Keeps P (is_jpeg input) (process_jpeg host input dirs name)
              (process_image_fallback host input dirs) (jpeg-Keeps name e) fallback-Keeps

  fallback-Answers : Answers (process_image_fallback host input dirs)
  unfolding process_image_fallback join
  fallback-Answers =
      bind-Answers (or_fail no_filename (file_name input)) named_fallback
        (or_fail-Answers no_filename (file_name input))
        λ name.
          bind-Answers
            (load_image host input dirs >>= encode_loaded host (thumb_of name) (image_of name))
            (λ r. pure (image_result host name r))
            (bind-Answers (load_image host input dirs)
              (encode_loaded host (thumb_of name) (image_of name))
              (load_image-Answers host input dirs)
              (encode_loaded-Answers host (thumb_of name) (image_of name)))
            λ r. pure-Answers (image_result host name r)

  fast-Answers : (name bytes : Text) → Answers (fast name bytes)
  unfolding join
  fast-Answers name bytes =
      bind-Answers (encode_fast host (thumb_of name) (image_of name) bytes)
        (λ r. pure (image_result host name r))
        (encode_fast-Answers host (thumb_of name) (image_of name) bytes)
        λ r. pure-Answers (image_result host name r)

  jpeg-Answers : (name : Text) → Answers (process_jpeg host input dirs name)
  unfolding process_jpeg join
  jpeg-Answers name =
      bind-Answers (with_context (codes "read JPEG bytes") (read input)) (after_read name)
        (read-Ends host _ input)
        λ bytes.
          bind-Answers (or_fail undecodable (host.read_header bytes)) (by_header name bytes)
            (or_fail-Answers undecodable (host.read_header bytes))
            λ header.
              if-Answers (needs_fallback host header) (process_image_fallback host input dirs)
                (fast name bytes) fallback-Answers (fast-Answers name bytes)

  pub process_image-Answers : Answers (process_image host input dirs)
  unfolding process_image
  process_image-Answers =
      bind-Answers (or_fail no_filename (file_name input))
        (λ name.
          if is_jpeg input
          then process_jpeg host input dirs name
          else process_image_fallback host input dirs)
        (or_fail-Answers no_filename (file_name input))
        λ name.
          if-Answers (is_jpeg input) (process_jpeg host input dirs name)
            (process_image_fallback host input dirs) (jpeg-Answers name) fallback-Answers
