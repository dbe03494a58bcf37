-- ===== src/Processing/Results.antt =====
-- What `process_image` of src/worker/src/processing.rs returns and leaves behind.
use ginbar.Prelude.{
  ◌≡◌, ◌≢◌, refl, sym, subst, ◌∙◌, ◌⊎◌, inl, inr, Bool, true, false, Option, none, some, Text,
  codes, if◌then◌else◌,
}
use ginbar.Prelude.Int.{ℤ}
use ginbar.World.{World, M, Result, ok, Error, no_filename, undecodable, pure, with_context, ◌>>=◌}
use ginbar.World.FileSystem.{file_at, is_file}
use ginbar.World.Footprint.{file-Footprint, posts-Footprint, redis-Footprint}
use ginbar.World.Rules.{bind-ok}
use ginbar.Paths.{Directories, join, file_name}
use ginbar.Media.{is_jpeg}
use ginbar.Pipeline.{PHash, ImageResult, Processor}
use ginbar.Avif.{or_fail}
use ginbar.Processing.Decode.{read}
use ginbar.Processing.{
  normalized_path, load_image, encode_loaded, encode_fast, image_paths, image_result, avif_name,
  needs_fallback, process_image_fallback, process_jpeg, process_image,
}
use ginbar.Processing.Written.{encode_fast-Writes}
use ginbar.Processing.Regenerates.{encoded-Present}
use ginbar.Processing.Images.{
  thumb_of, image_of, named_fallback, fast, by_header, after_read, process_image-Keeps,
  process_image-Answers,
}
use ginbar.Host.{Host}

-- `process_image` as the processing queue takes it.
abbrev pub images : Host → Directories → Processor ImageResult
images host dirs = record {
  run = λ input. process_image host input dirs;
  same_posts = λ input w.
      process_image-Keeps host input dirs (posts-Footprint w.posts) (λ name e. (tt, tt)) (λ v. tt) w
        refl;
  same_script = λ input w h. (process_image-Answers host input dirs w h).1;
  ends = λ input w h. (process_image-Answers host input dirs w h).0;
}

-- The files of an image are three different files.
pub record AreApart (host : Host) (input : Text) (dirs : Directories) : Type 0 where
  pub two :
      (name : Text)
      → file_name input ≡ some name
      → (image_paths host dirs name).0 ≢ (image_paths host dirs name).1
  pub normalized_thumbnail :
      (w : World) (name : Text)
      → file_name input ≡ some name
      → normalized_path host dirs (host.uuid w) ≢ (image_paths host dirs name).0
  pub normalized_image :
      (w : World) (name : Text)
      → file_name input ≡ some name
      → normalized_path host dirs (host.uuid w) ≢ (image_paths host dirs name).1

-- The names of a result are those of the input with `.avif`, and both files are there.
pub record IsStored (host : Host) (input : Text) (dirs : Directories) (w : World) (r : ImageResult)
    : Type 0 where
  pub name : Text
  pub named : file_name input ≡ some name
  pub uploaded : r.uploaded_filename ≡ name
  pub image_name : r.filename ≡ avif_name host name
  pub thumbnail_name : r.thumbnail_filename ≡ avif_name host name
  pub has_image : is_file (file_at (join dirs.image r.filename) w.files) ≡ true
  pub has_thumbnail : is_file (file_at (join dirs.thumbnail r.thumbnail_filename) w.files) ≡ true

or_fail-ok :
    {A : Type 0} (e : Error) (o : Option A) (w : World) (a : A)
    → (or_fail e o w).0 ≡ ok a
    → (o ≡ some a) × ((or_fail e o w).1 ≡ w)
or_fail-ok e none w a h = cc
or_fail-ok e (some b) w a h = (cc, refl)

result_of : {x y : ImageResult} → ◌≡◌ {A = Result ImageResult} (ok x) (ok y) → x ≡ y
result_of h = cc

module _ (host : Host) (input : Text) (dirs : Directories) (apart : AreApart host input dirs) where
  either-IsStored :
      (b : Bool) (m n : M ImageResult) (v : World) (r : ImageResult)
      → ((m v).0 ≡ ok r → IsStored host input dirs (m v).1 r)
      → ((n v).0 ≡ ok r → IsStored host input dirs (n v).1 r)
      → ((if b then m else n) v).0 ≡ ok r
      → IsStored host input dirs ((if b then m else n) v).1 r
  either-IsStored true m n v r km kn = km
  either-IsStored false m n v r km kn = kn

  stored :
      (name : Text) (w : World) (x : PHash × ℤ × ℤ)
      → file_name input ≡ some name
      → ((path : Text)
          → (path ≡ thumb_of host input dirs name) ⊎ (path ≡ image_of host input dirs name)
          → is_file (file_at path w.files) ≡ true)
      → IsStored host input dirs w (image_result host name x)
  unfolding join
  stored name w x e k = record {
    name = name;
    named = e;
    uploaded = refl;
    image_name = refl;
    thumbnail_name = refl;
    has_image = k (image_of host input dirs name) (inr refl);
    has_thumbnail = k (thumb_of host input dirs name) (inl refl);
  }

  fast-IsStored :
      (name bytes : Text) (w : World) (r : ImageResult)
      → file_name input ≡ some name
      → (fast host input dirs name bytes w).0 ≡ ok r
      → IsStored host input dirs (fast host input dirs name bytes w).1 r
  unfolding join
  fast-IsStored name bytes w r e h =
      let encode =
        encode_fast host (thumb_of host input dirs name) (image_of host input dirs name) bytes in
      let (x, f, g, s) = bind-ok encode (λ x. pure (image_result host name x)) w r h in
      subst (λ y. IsStored host input dirs y.1 r) (sym s)
        (subst (IsStored host input dirs (encode w).1) (result_of g) (
          stored name (encode w).1 x e λ path which.
            encode_fast-Writes host (thumb_of host input dirs name) (image_of host input dirs name)
              (apart.two name e) path which bytes w x f))

  fallback-IsStored :
      (name : Text) (w : World) (r : ImageResult)
      → file_name input ≡ some name
      → (named_fallback host input dirs name w).0 ≡ ok r
      → IsStored host input dirs (named_fallback host input dirs name w).1 r
  unfolding join
  fallback-IsStored name w r e h =
      let thumb = thumb_of host input dirs name in
      let image = image_of host input dirs name in
      let encode = load_image host input dirs >>= encode_loaded host thumb image in
      let (x, f, g, s) = bind-ok encode (λ x. pure (image_result host name x)) w r h in
      subst (λ y. IsStored host input dirs y.1 r) (sym s)
        (subst (IsStored host input dirs (encode w).1) (result_of g) (
          stored name (encode w).1 x e λ path which.
            encoded-Present host input dirs thumb image w path (apart.two name e) which
              (other path which) x f))
    where
      other :
          (path : Text)
          → (path ≡ thumb_of host input dirs name) ⊎ (path ≡ image_of host input dirs name)
          → normalized_path host dirs (host.uuid w) ≢ path
      other path (inl f) =
          subst (λ p. normalized_path host dirs (host.uuid w) ≢ p) (sym f)
            (apart.normalized_thumbnail w name e)
      other path (inr f) =
          subst (λ p. normalized_path host dirs (host.uuid w) ≢ p) (sym f)
            (apart.normalized_image w name e)

  process_image_fallback-IsStored :
      (w : World) (r : ImageResult)
      → (process_image_fallback host input dirs w).0 ≡ ok r
      → IsStored host input dirs (process_image_fallback host input dirs w).1 r
  unfolding process_image_fallback join
  process_image_fallback-IsStored w r h =
      let first = or_fail no_filename (file_name input) in
      let (name, f, g, s) = bind-ok first (named_fallback host input dirs) w r h in
      let (e, v) = or_fail-ok no_filename (file_name input) w name f in
      subst (λ y. IsStored host input dirs y.1 r) (sym s) (fallback-IsStored name (first w).1 r e g)

  jpeg-IsStored :
      (name : Text) (w : World) (r : ImageResult)
      → file_name input ≡ some name
      → (process_jpeg host input dirs name w).0 ≡ ok r
      → IsStored host input dirs (process_jpeg host input dirs name w).1 r
  unfolding process_jpeg join
  jpeg-IsStored name w r e h =
      let reading = with_context (codes "read JPEG bytes") (read input) in
      let (bytes, f, g, s) = bind-ok reading (after_read host input dirs name) w r h in
      let header = or_fail undecodable (host.read_header bytes) in
      let (x, f', g', s') =
        bind-ok header (by_header host input dirs name bytes) (reading w).1 r g in
      subst (λ y. IsStored host input dirs y.1 r) (sym (s ∙ s'))
        (either-IsStored (needs_fallback host x) (process_image_fallback host input dirs)
          (fast host input dirs name bytes) (header (reading w).1).1 r
          (process_image_fallback-IsStored (header (reading w).1).1 r)
          (fast-IsStored name bytes (header (reading w).1).1 r e) g')

-- Whichever of its calls fail, and whichever of its two tasks runs first: if `process_image` succeeds,
-- then the image and the thumbnail are there, under the name of the input with `.avif` behind it.
pub process_image-IsStored :
    (host : Host) (input : Text) (dirs : Directories)
    → AreApart host input dirs
    → (w : World) (r : ImageResult) → (process_image host input dirs w).0 ≡ ok r
    → IsStored host input dirs (process_image host input dirs w).1 r
unfolding process_image
process_image-IsStored host input dirs apart w r h =
    let first = or_fail no_filename (file_name input) in
    let (name, f, g, s) =
      bind-ok first
        (λ name.
          if is_jpeg input
          then process_jpeg host input dirs name
          else process_image_fallback host input dirs)
        w r h in
    let (e, v) = or_fail-ok no_filename (file_name input) w name f in
    subst (λ y. IsStored host input dirs y.1 r) (sym s)
      (either-IsStored host input dirs apart (is_jpeg input) (process_jpeg host input dirs name)
        (process_image_fallback host input dirs) (first w).1 r
        (jpeg-IsStored host input dirs apart name (first w).1 r e)
        (process_image_fallback-IsStored host input dirs apart (first w).1 r) g)

-- Whatever becomes of `process_image`, a file that is none of its three has the contents that it had,
-- and the posts and Redis are as they were.
pub process_image-spares :
    (host : Host) (input path : Text) (dirs : Directories)
    → ((name : Text)
        → file_name input ≡ some name
        → ((image_paths host dirs name).0 ≢ path) × ((image_paths host dirs name).1 ≢ path))
    → ((v : World) → normalized_path host dirs (host.uuid v) ≢ path)
    → (w : World)
    → (file_at path (process_image host input dirs w).1.files ≡ file_at path w.files)
      × ((process_image host input dirs w).1.posts ≡ w.posts)
      × ((process_image host input dirs w).1.redis ≡ w.redis)
process_image-spares host input path dirs images normalized w = (
  process_image-Keeps host input dirs (file-Footprint path (file_at path w.files)) images normalized
      w refl,
  process_image-Keeps host input dirs (posts-Footprint w.posts) (λ name e. (tt, tt)) (λ v. tt) w
      refl,
  process_image-Keeps host input dirs (redis-Footprint w.redis) (λ name e. (tt, tt)) (λ v. tt) w
      refl,
)
