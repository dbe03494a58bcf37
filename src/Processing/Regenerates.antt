-- ===== src/Processing/Regenerates.antt =====
-- `regenerate_image` of src/worker/src/processing.rs meets what the regeneration queue relies on: the
-- laws of `Regenerator`.
use ginbar.Prelude.{
  ◌≡◌, ◌≢◌, refl, sym, ap, subst, ◌⊎◌, inr, Bool, true, false, Option, none, some, [], Text, codes,
  if◌then◌else◌,
}
use ginbar.Prelude.Int.{ℤ}
use ginbar.World.{World, M, Result, ok, err, hung, pure, ◌>>=◌}
use ginbar.World.FileSystem.{file_at, is_file}
use ginbar.World.Footprint.{Footprint, present-Footprint, posts-Footprint, redis-Footprint}
use ginbar.World.Rules.{bind_ends, bind-ok}
use ginbar.World.Answers.{Answers, pure-Answers, bind-Answers}
use ginbar.Paths.{Directories, join}
use ginbar.Media.{can_decode_natively, is_jpeg}
use ginbar.Pipeline.{PHash, RegenerateResult, Regenerator}
use ginbar.Ffmpeg.{normalize_to_jpeg}
use ginbar.Processing.Decode.{open_image, decode_jpeg_turbo}
use ginbar.Processing.{
  generate_name, unloaded, load_native, normalized_path, load_exotic, load_image, encode_loaded,
  regenerate_paths, regenerate_result, regenerate_image, avif_name,
}
use ginbar.Processing.Ends.{load_image-Answers, encode_loaded-Answers}
use ginbar.Processing.Tasks.{encode_loaded-Keeps, load_image-Keeps}
use ginbar.Processing.Written.{encode_loaded-Writes}
use ginbar.Host.{Host}

module _ (host : Host) where
  open host use {Image}

  tmp_of : Result (Image × Option Text) → Option Text
  tmp_of (ok (img, tmp)) = tmp
  tmp_of (err e) = none
  tmp_of hung = none

  -- The file that an image was loaded through is the normalized one.
  pub load_image-tmp :
      (input : Text) (dirs : Directories) (w : World) (img : Image) (tmp : Option Text)
      (path : Text)
      → (load_image host input dirs w).0 ≡ ok (img, tmp)
      → tmp ≡ some path
      → path ≡ normalized_path host dirs (host.uuid w)
  unfolding load_image generate_name normalize_to_jpeg open_image is_jpeg decode_jpeg_turbo tmp_of
  load_image-tmp input dirs w img tmp path = by_test (can_decode_natively input)
    where
      by_test :
          (b : Bool)
          → ((if b
                then load_native host input >>= unloaded host
                else (generate_name host >>= λ name.
                    load_exotic host input (normalized_path host dirs name)))
              w).0
            ≡ ok (img, tmp)
          → tmp ≡ some path
          → path ≡ normalized_path host dirs (host.uuid w)
      by_test true h e =
          let (a, p, g, s) = bind-ok (load_native host input) (unloaded host) w (img, tmp) h in
          let q : none ≡ tmp = ap tmp_of g in cc
      by_test false h e =
          let out = normalized_path host dirs (host.uuid w) in
          let decoded = open_image host (codes "decode normalized JPEG") out in
          let (a, p, g, s) =
            bind-ok (normalize_to_jpeg host input out)
              (λ _. decoded >>= λ img. pure (img, some out)) w (img, tmp) h in
          let (b, p', g', s') =
            bind-ok decoded (λ img. pure (img, some out)) (normalize_to_jpeg host input out w).1
              (img, tmp) g in
          let q : some out ≡ tmp = ap tmp_of g' in cc

  -- Loading an image and encoding it.
  module _ (input : Text) (dirs : Directories) (thumb_path output_path : Text) (w : World) where
    abbrev pub encoded : M (PHash × ℤ × ℤ)
    encoded = load_image host input dirs >>= encode_loaded host thumb_path output_path

    pub encoded-keeps {κ} :
        {P : World → Type κ} {Touched : Text → Type 0}
        → Footprint P Touched
        → Touched thumb_path
        → Touched output_path
        → Touched (normalized_path host dirs (host.uuid w))
        → P w
        → P (encoded w).1
    encoded-keeps {P} {Touched} fp t_thumb t_output t_tmp h =
        let loaded = load_image-Keeps host fp input dirs w t_tmp h in
        bind_ends P (load_image host input dirs) (encode_loaded host thumb_path output_path) w
          loaded λ a e. rest a.0 a.1 e loaded
      where
        rest :
            (img : Image) (tmp : Option Text)
            → (load_image host input dirs w).0 ≡ ok (img, tmp)
            → P (load_image host input dirs w).1
            → P
                (encode_loaded host thumb_path output_path
                  (img, tmp)
                  (load_image host input dirs w).1).1
        rest img tmp e l =
            encode_loaded-Keeps host fp thumb_path output_path t_thumb t_output img tmp
              (λ path f. subst Touched (sym (load_image-tmp input dirs w img tmp path e f)) t_tmp)
              (load_image host input dirs w).1 l

    pub encoded-Present :
        (path : Text)
        → thumb_path ≢ output_path
        → (path ≡ thumb_path) ⊎ (path ≡ output_path)
        → normalized_path host dirs (host.uuid w) ≢ path
        → (r : PHash × ℤ × ℤ) → (encoded w).0 ≡ ok r
        → is_file (file_at path (encoded w).1.files) ≡ true
    encoded-Present path apart which other r h =
        let load = load_image host input dirs in
        let encode = encode_loaded host thumb_path output_path in
        let (a, e, g, s) = bind-ok load encode w r h in
        subst (λ x. is_file (file_at path x.1.files) ≡ true) (sym s)
          (encode_loaded-Writes host thumb_path output_path apart path which a.0 a.1
            (λ t f. subst (λ p. p ≢ path) (sym (load_image-tmp input dirs w a.0 a.1 t e f)) other)
            (load w).1 r g)

-- A UUID is new: nothing has the names that are made of it. And the files made of it are not the same.
pub record FreshNames (host : Host) (dirs : Directories) : Type 0 where
  pub no_image : (w : World) → file_at (regenerate_paths host dirs (host.uuid w)).1 w.files ≡ none
  pub no_thumbnail :
      (w : World) → file_at (regenerate_paths host dirs (host.uuid w)).0 w.files ≡ none
  pub no_normalized : (w : World) → file_at (normalized_path host dirs (host.uuid w)) w.files ≡ none
  pub apart :
      (w : World)
      → (regenerate_paths host dirs (host.uuid w)).0 ≢ (regenerate_paths host dirs (host.uuid w)).1
  pub image_apart :
      (w : World)
      → normalized_path host dirs (host.uuid w) ≢ (regenerate_paths host dirs (host.uuid w)).1

module _ (host : Host) (dirs : Directories) where
  open host use {Image}

  module _ (input : Text) (w : World) where
    abbrev pub thumb_path : Text
    thumb_path = (regenerate_paths host dirs (host.uuid w)).0

    abbrev pub output_path : Text
    output_path = (regenerate_paths host dirs (host.uuid w)).1

    abbrev encoding : M (PHash × ℤ × ℤ)
    encoding = encoded host input dirs thumb_path output_path w

    pub regenerate-keeps {κ} :
        {P : World → Type κ} {Touched : Text → Type 0}
        → Footprint P Touched
        → Touched thumb_path
        → Touched output_path
        → Touched (normalized_path host dirs (host.uuid w))
        → P w
        → P (regenerate_image host input dirs w).1
    unfolding regenerate_image generate_name
    regenerate-keeps {P} fp a b c h =
        let k = encoded-keeps host input dirs thumb_path output_path w fp a b c h in
        bind_ends P encoding (λ r. pure (regenerate_result host (host.uuid w) r)) w k λ r e. k

    new_name : Result RegenerateResult → Text
    new_name (ok r) = r.new_filename
    new_name (err e) = []
    new_name hung = []

    regenerate_named :
        (r : RegenerateResult)
        → (regenerate_image host input dirs w).0 ≡ ok r
        → ((x : PHash × ℤ × ℤ) × ((encoding w).0 ≡ ok x))
          × (r.new_filename ≡ avif_name host (host.uuid w))
          × ((regenerate_image host input dirs w).1 ≡ (encoding w).1)
    unfolding regenerate_image generate_name new_name
    regenerate_named r h =
        let (x, e, g, s) =
          bind-ok encoding (λ x. pure (regenerate_result host (host.uuid w) x)) w r h in
        ((x, e), sym (ap new_name g), ap (λ y. y.1) s)

  encoding-Answers : (input : Text) (w : World) → Answers (encoding input w)
  encoding-Answers input w =
      bind-Answers (load_image host input dirs)
        (encode_loaded host (thumb_path input w) (output_path input w))
        (load_image-Answers host input dirs)
        (encode_loaded-Answers host (thumb_path input w) (output_path input w))

  pub regenerate-Answers : (input : Text) → Answers (regenerate_image host input dirs)
  unfolding regenerate_image generate_name
  regenerate-Answers input w h =
      bind-Answers (encoding input w) (λ r. pure (regenerate_result host (host.uuid w) r))
        (encoding-Answers input w) (λ r. pure-Answers (regenerate_result host (host.uuid w) r)) w h

  module _ (names : FreshNames host dirs) (input : Text) (w : World) where
    is_other :
        (path p : Text)
        → is_file (file_at path w.files) ≡ true
        → file_at p w.files ≡ none
        → p ≢ path
    is_other path p h e q =
        let f : file_at path w.files ≡ none = subst (λ x. file_at x w.files ≡ none) q e in cc

    pub regenerate-kept :
        (path : Text)
        → is_file (file_at path w.files) ≡ true
        → is_file (file_at path (regenerate_image host input dirs w).1.files) ≡ true
    regenerate-kept path h =
        regenerate-keeps input w (present-Footprint path)
          (is_other path (thumb_path input w) h (names.no_thumbnail w))
          (is_other path (output_path input w) h (names.no_image w))
          (is_other path (normalized_path host dirs (host.uuid w)) h (names.no_normalized w)) h

    pub regenerate-written :
        (r : RegenerateResult)
        → (regenerate_image host input dirs w).0 ≡ ok r
        → is_file
            (file_at (join dirs.image r.new_filename) (regenerate_image host input dirs w).1.files)
          ≡ true
    unfolding join
    regenerate-written r h =
        let ((x, e), n, s) = regenerate_named input w r h in
        rw (n, s)
          (encoded-Present host input dirs (thumb_path input w) (output_path input w) w
            (output_path input w) (names.apart w) (inr refl) (names.image_apart w) x e)

    pub regenerate-fresh :
        (r : RegenerateResult)
        → (regenerate_image host input dirs w).0 ≡ ok r
        → file_at (join dirs.image r.new_filename) w.files ≡ none
    unfolding join
    regenerate-fresh r h = let (x, n, s) = regenerate_named input w r h in rw n (names.no_image w)

  -- `regenerate_image` as the regeneration queue takes it.
  abbrev pub regenerator : FreshNames host dirs → Regenerator dirs
  regenerator names = record {
    run = λ input. regenerate_image host input dirs;
    same_posts = λ input w. regenerate-keeps input w (posts-Footprint w.posts) tt tt tt refl;
    same_redis = λ input w. regenerate-keeps input w (redis-Footprint w.redis) tt tt tt refl;
    same_script = λ input w h. (regenerate-Answers input w h).1;
    kept = λ input path w h. regenerate-kept names input w path h;
    written = λ input w r h. regenerate-written names input w r h;
    fresh = λ input w r h. regenerate-fresh names input w r h;
  }

-- `regenerate_image`, with names that are new, meets every law that the regeneration queue relies on:
-- over every pattern of failures it changes neither the posts nor Redis and leaves every file that it
-- finds in place, and where it succeeds its image is there, under a name that was free.
pub regenerate_image-Regenerator :
    (host : Host) (dirs : Directories)
    → FreshNames host dirs
    → (r : Regenerator dirs) × ((input : Text) → r.run input ≡ regenerate_image host input dirs)
regenerate_image-Regenerator host dirs names = (regenerator host dirs names, λ input. refl)
