-- ===== src/Avif/Written.antt =====
-- The encoders of src/worker/src/avif.rs come to an end where no call fails, and where they succeed the
-- file that they are asked for is there.
use ginbar.Prelude.{
  ℕ, ◌≡◌, refl, subst, sym, Bool, true, false, Option, none, some, Text, codes, text_eq_refl,
  if◌then◌else◌,
}
use ginbar.World.{World, M, ok, Error, panicked, unencodable, pure, ignore, with_context, ◌>>=◌}
use ginbar.World.Calls.{nothing, remove_file}
use ginbar.World.FileSystem.{write, file_at, is_file, erase, file_at-write}
use ginbar.World.Rules.{Keeps, bind-ok, with_context-ok, with_context-world, call-ok}
use ginbar.World.Answers.{
  Answers, pure-Answers, fail-Answers, bind-Answers, ignore-Answers, with_context-Answers,
  call-Answers, if-Answers,
}
use ginbar.Pixels.{Plane, rgb_to_yuv420_full_range, aligned_planes}
use ginbar.Pixels.Size.{below_minimum}
use ginbar.Ffmpeg.{as_i32}
use ginbar.Avif.{
  write_file, or_fail, thread_count, fit_image, write_image, encode_avif_ravif, finish_encode,
  send_planes, encode_fitted, encode_avif, EncoderPlanes, write_planes, encode_planes,
  encode_avif_from_yuv_planes, dims_of,
}
use ginbar.Avif.Codec.{encode_av1_raw_full_range, wrap_avif_container}
use ginbar.Host.{Host}

pub or_fail-Answers : {A : Type 0} (e : Error) (o : Option A) → Answers (or_fail e o)
or_fail-Answers e none = fail-Answers e
or_fail-Answers e (some a) = pure-Answers a

pub write_file-Answers : (path bytes : Text) → Answers (write_file path bytes)
write_file-Answers path bytes =
    call-Answers nothing (λ w. record w { files = write path bytes w.files }) λ w h. h

pub remove_file-Answers : (path : Text) → Answers (remove_file path)
remove_file-Answers path =
    call-Answers nothing (λ w. record w { files = erase path w.files }) λ w h. h

-- The file at a path is there if the code succeeds.
abbrev pub Writes : {A : Type 0} → Text → M A → Type 0
Writes {A} path m =
    (w : World) (a : A) → (m w).0 ≡ ok a → is_file (file_at path (m w).1.files) ≡ true

write_file-Writes : (path bytes : Text) → Writes path (write_file path bytes)
write_file-Writes path bytes w u h =
    let e = call-ok nothing (λ w. record w { files = write path bytes w.files }) w u h in
    rw (e, file_at-write path path bytes w.files, text_eq_refl path) refl

pub with_context-Writes :
    {A : Type 0} (path c : Text) (m : M A) → Writes path m → Writes path (with_context c m)
with_context-Writes path c m k w a h =
    rw (with_context-world c m w) (k w a (with_context-ok c m w a h))

-- What the rest of a sequence writes is there.
pub bind-Writes :
    {A B : Type 0} (path : Text) (m : M A) (f : A → M B)
    → ((a : A) → Writes path (f a))
    → Writes path (m >>= f)
bind-Writes path m f k w b h =
    let (a, e, g, s) = bind-ok m f w b h in
    subst (λ r. is_file (file_at path r.1.files) ≡ true) (sym s) (k a (m w).1 b g)

-- What is written first is there, if the rest keeps it.
pub bind-Writes_first :
    {A B : Type 0} (path : Text) (m : M A) (f : A → M B)
    → Writes path m
    → ((a : A) → Keeps (λ w. is_file (file_at path w.files) ≡ true) (f a))
    → Writes path (m >>= f)
bind-Writes_first path m f k kf w b h =
    let (a, e, g, s) = bind-ok m f w b h in
    subst (λ r. is_file (file_at path r.1.files) ≡ true) (sym s) (kf a (m w).1 (k w a e))

-- What is written before a value is returned.
pub pure-Writes :
    {A B : Type 0} (path : Text) (m : M A) (f : A → B)
    → Writes path m
    → Writes path (m >>= λ a. pure (f a))
pure-Writes path m f k w b h =
    let (a, e, g, s) = bind-ok m (λ a. pure (f a)) w b h in
    subst (λ r. is_file (file_at path r.1.files) ≡ true) (sym s) (k w a e)

if-Writes :
    {A : Type 0} (path : Text) (b : Bool) (m n : M A)
    → Writes path m
    → Writes path n
    → Writes path (if b then m else n)
if-Writes path true m n km kn = km
if-Writes path false m n km kn = kn

module _ (host : Host) (dst : Text) where
  open host use {Image}

  write_image-Answers : (c bytes : Text) (img : Image) → Answers (write_image host c img dst bytes)
  unfolding as_i32
  write_image-Answers c bytes img =
      bind-Answers (with_context c (write_file dst bytes)) (λ _. pure (dims_of host img))
        (with_context-Answers c (write_file dst bytes) (write_file-Answers dst bytes))
        λ u. pure-Answers (dims_of host img)

  write_image-Writes :
      (c bytes : Text) (img : Image) → Writes dst (write_image host c img dst bytes)
  unfolding as_i32
  write_image-Writes c bytes img =
      pure-Writes dst (with_context c (write_file dst bytes)) (λ _. dims_of host img)
        (with_context-Writes dst c (write_file dst bytes) (write_file-Writes dst bytes))

  encode_avif_ravif-Answers : (img : Image) → Answers (encode_avif_ravif host img dst)
  unfolding encode_avif_ravif as_i32
  encode_avif_ravif-Answers img =
      bind-Answers (or_fail unencodable _) (write_image host _ img dst)
        (or_fail-Answers unencodable _) λ bytes. write_image-Answers _ bytes img

  encode_avif_ravif-Writes : (img : Image) → Writes dst (encode_avif_ravif host img dst)
  unfolding encode_avif_ravif as_i32
  encode_avif_ravif-Writes img =
      bind-Writes dst (or_fail unencodable _) (write_image host _ img dst)
        λ bytes. write_image-Writes _ bytes img

  finish_encode-Answers : (img : Image) (o : Option Text) → Answers (finish_encode host img dst o)
  unfolding finish_encode as_i32
  finish_encode-Answers img (some av1) = write_image-Answers _ _ img
  finish_encode-Answers img none =
      bind-Answers (ignore (remove_file dst))
        (λ _.
          with_context (codes "ravif fallback (SVT-AV1 error)") (encode_avif_ravif host img dst))
        (ignore-Answers (remove_file dst) (remove_file-Answers dst))
        λ _. with_context-Answers _ (encode_avif_ravif host img dst) (encode_avif_ravif-Answers img)

  finish_encode-Writes : (img : Image) (o : Option Text) → Writes dst (finish_encode host img dst o)
  unfolding finish_encode as_i32
  finish_encode-Writes img (some av1) = write_image-Writes _ _ img
  finish_encode-Writes img none =
      bind-Writes dst (ignore (remove_file dst))
        (λ _.
          with_context (codes "ravif fallback (SVT-AV1 error)") (encode_avif_ravif host img dst))
        λ _.
          with_context-Writes dst _ (encode_avif_ravif host img dst) (encode_avif_ravif-Writes img)

  module _ (img : Image) (crf preset : ℕ) where
    abbrev fitted_planes : Option (Plane × Plane × Plane)
    fitted_planes = rgb_to_yuv420_full_range (host.to_rgb8 img) (host.width img) (host.height img)

    encode_fitted-Answers : (n : ℕ) → Answers (encode_fitted host img dst crf preset n)
    unfolding encode_fitted finish_encode
    encode_fitted-Answers n =
        if-Answers (below_minimum (host.width img, host.height img))
          (encode_avif_ravif host img dst)
          (or_fail panicked fitted_planes >>= send_planes host img dst crf preset n)
          (encode_avif_ravif-Answers img)
          (bind-Answers (or_fail panicked fitted_planes) (send_planes host img dst crf preset n)
            (or_fail-Answers panicked fitted_planes) λ p. finish_encode-Answers img _)

    encode_fitted-Writes : (n : ℕ) → Writes dst (encode_fitted host img dst crf preset n)
    unfolding encode_fitted finish_encode
    encode_fitted-Writes n =
        if-Writes dst (below_minimum (host.width img, host.height img))
          (encode_avif_ravif host img dst)
          (or_fail panicked fitted_planes >>= send_planes host img dst crf preset n)
          (encode_avif_ravif-Writes img)
          (bind-Writes dst (or_fail panicked fitted_planes) (send_planes host img dst crf preset n)
            λ p. finish_encode-Writes img _)

  module _ (img : Image) (crf preset max_width threads : ℕ) where
    pub encode_avif-Answers : Answers (encode_avif host img dst crf preset max_width threads)
    unfolding encode_avif
    encode_avif-Answers =
        bind-Answers (or_fail panicked (thread_count host threads))
          (encode_fitted host (fit_image host img max_width) dst crf preset)
          (or_fail-Answers panicked (thread_count host threads))
          (encode_fitted-Answers (fit_image host img max_width) crf preset)

    -- Where `encode_avif` succeeds, by SVT-AV1 or by either way to ravif, its file is there.
    pub encode_avif-Writes : Writes dst (encode_avif host img dst crf preset max_width threads)
    unfolding encode_avif
    encode_avif-Writes =
        bind-Writes dst (or_fail panicked (thread_count host threads))
          (encode_fitted host (fit_image host img max_width) dst crf preset)
          (encode_fitted-Writes (fit_image host img max_width) crf preset)

  module _ (crf preset threads : ℕ) where
    encode_planes-Answers :
        (p : EncoderPlanes host) → Answers (encode_planes host dst crf preset threads p)
    unfolding as_i32
    encode_planes-Answers (y, u, v, enc_w, enc_h) =
        let av1 = encode_av1_raw_full_range host y u v enc_w enc_h crf preset threads in
        bind-Answers (or_fail unencodable av1) (write_planes host dst enc_w enc_h)
          (or_fail-Answers unencodable av1)
          λ bytes.
            bind-Answers (with_context _ (write_file dst _))
              (λ _. pure (as_i32 enc_w, as_i32 enc_h))
              (with_context-Answers _ (write_file dst _)
                (write_file-Answers dst (wrap_avif_container host bytes enc_w enc_h)))
              λ _. pure-Answers (as_i32 enc_w, as_i32 enc_h)

    encode_planes-Writes :
        (p : EncoderPlanes host) → Writes dst (encode_planes host dst crf preset threads p)
    unfolding as_i32
    encode_planes-Writes (y, u, v, enc_w, enc_h) =
        let av1 = encode_av1_raw_full_range host y u v enc_w enc_h crf preset threads in
        bind-Writes dst (or_fail unencodable av1) (write_planes host dst enc_w enc_h) λ bytes.
          pure-Writes dst
            (with_context (codes "write AVIF file (yuv planes)")
              (write_file dst (wrap_avif_container host bytes enc_w enc_h)))
            (λ _. (as_i32 enc_w, as_i32 enc_h))
            (with_context-Writes dst _ (write_file dst _)
              (write_file-Writes dst (wrap_avif_container host bytes enc_w enc_h)))

    module _ (y u v : Plane) (width height : ℕ) where
      pub encode_avif_from_yuv_planes-Answers :
          Answers (encode_avif_from_yuv_planes host y u v width height dst crf preset threads)
      unfolding encode_avif_from_yuv_planes as_i32
      encode_avif_from_yuv_planes-Answers =
          bind-Answers (or_fail panicked (aligned_planes y u v width height))
            (encode_planes host dst crf preset threads) (or_fail-Answers panicked _)
            encode_planes-Answers

      pub encode_avif_from_yuv_planes-Writes :
          Writes dst (encode_avif_from_yuv_planes host y u v width height dst crf preset threads)
      unfolding encode_avif_from_yuv_planes as_i32
      encode_avif_from_yuv_planes-Writes =
          bind-Writes dst (or_fail panicked (aligned_planes y u v width height))
            (encode_planes host dst crf preset threads) encode_planes-Writes
