-- ===== src/Avif/Frame.antt =====
-- What the encoders of src/worker/src/avif.rs leave as it was, that they end, and that they write the
-- file they are asked for.
use ginbar.Prelude.{ℕ, ◌≡◌, refl, Option, none, some, Text, codes}
use ginbar.World.{World, M, Error, panicked, unencodable, pure, ignore, with_context, ◌>>=◌}
use ginbar.World.Calls.{nothing, remove_file}
use ginbar.World.FileSystem.{write}
use ginbar.World.Footprint.{Footprint, remove_file-Keeps}
use ginbar.World.Rules.{Keeps, bind-Keeps, ignore-Keeps, with_context-Keeps, call-Keeps, if_Keeps}
use ginbar.World.Answers.{Answers, pure-Answers, fail-Answers}
use ginbar.Pixels.{Plane, rgb_to_yuv420_full_range, aligned_planes}
use ginbar.Pixels.Size.{below_minimum}
use ginbar.Avif.{
  write_file, or_fail, thread_count, fit_image, write_image, encode_avif_ravif, finish_encode,
  send_planes, encode_fitted, encode_avif, EncoderPlanes, write_planes, encode_planes,
  encode_avif_from_yuv_planes, dims_of,
}
use ginbar.Ffmpeg.{as_i32}
use ginbar.Avif.Codec.{encode_av1_raw_full_range, wrap_avif_container}
use ginbar.Host.{Host}

pub or_fail-Keeps {κ} :
    {A : Type 0} (P : World → Type κ) (e : Error) (o : Option A) → Keeps P (or_fail e o)
or_fail-Keeps P e none w h = h
or_fail-Keeps P e (some a) w h = h

pub or_fail-Answers : {A : Type 0} (e : Error) (o : Option A) → Answers (or_fail e o)
or_fail-Answers e none = fail-Answers e
or_fail-Answers e (some a) = pure-Answers a

pub or_fail_then-Keeps {κ} :
    {A B : Type 0} (P : World → Type κ) (e : Error) (o : Option A) (f : A → M B)
    → ((a : A) → o ≡ some a → Keeps P (f a))
    → Keeps P (or_fail e o >>= f)
or_fail_then-Keeps P e none f k w h = h
or_fail_then-Keeps P e (some a) f k w h = k a refl w h

module _ (host : Host) where
  open host use {Image}

  module _ {κ} {P : World → Type κ} {Touched : Text → Type 0} (fp : Footprint P Touched)
      (dst : Text) (t : Touched dst) where
    write-Keeps : (c bytes : Text) → Keeps P (with_context c (write_file dst bytes))
    write-Keeps c bytes = with_context-Keeps P c (write_file dst bytes) (
        call-Keeps P nothing (λ w. record w { files = write dst bytes w.files }) fp.scripts
          λ w. fp.writes dst bytes w t)

    write_image-Keeps : (c bytes : Text) (img : Image) → Keeps P (write_image host c img dst bytes)
    unfolding as_i32
    write_image-Keeps c bytes img =
        bind-Keeps P (with_context c (write_file dst bytes)) (λ _. pure (dims_of host img))
          (write-Keeps c bytes) λ u w h. h

    encode_avif_ravif-Keeps : (img : Image) → Keeps P (encode_avif_ravif host img dst)
    unfolding encode_avif_ravif as_i32
    encode_avif_ravif-Keeps img =
        bind-Keeps P (or_fail unencodable _) (write_image host _ img dst)
          (or_fail-Keeps P unencodable _) λ bytes. write_image-Keeps _ bytes img

    finish_encode-Keeps : (img : Image) (o : Option Text) → Keeps P (finish_encode host img dst o)
    unfolding finish_encode as_i32
    finish_encode-Keeps img (some av1) = write_image-Keeps _ _ img
    finish_encode-Keeps img none =
        bind-Keeps P (ignore (remove_file dst))
          (λ _.
            with_context (codes "ravif fallback (SVT-AV1 error)") (encode_avif_ravif host img dst))
          (ignore-Keeps P (remove_file dst) (remove_file-Keeps fp dst t))
          λ _. with_context-Keeps P _ (encode_avif_ravif host img dst) (encode_avif_ravif-Keeps img)

    encode_fitted-Keeps :
        (img : Image) (crf preset threads : ℕ)
        → Keeps P (encode_fitted host img dst crf preset threads)
    unfolding encode_fitted finish_encode
    encode_fitted-Keeps img crf preset threads =
        let planes =
          rgb_to_yuv420_full_range (host.to_rgb8 img) (host.width img) (host.height img) in
        if_Keeps P (below_minimum (host.width img, host.height img))
          (encode_avif_ravif host img dst)
          (or_fail panicked planes >>= send_planes host img dst crf preset threads)
          (encode_avif_ravif-Keeps img)
          (bind-Keeps P (or_fail panicked planes) (send_planes host img dst crf preset threads)
            (or_fail-Keeps P panicked planes) λ p. finish_encode-Keeps img _)

    -- `encode_avif` keeps what only a change of its output could change.
    pub encode_avif-Keeps :
        (img : Image) (crf preset max_width threads : ℕ)
        → Keeps P (encode_avif host img dst crf preset max_width threads)
    unfolding encode_avif
    encode_avif-Keeps img crf preset max_width threads =
        bind-Keeps P (or_fail panicked (thread_count host threads))
          (encode_fitted host (fit_image host img max_width) dst crf preset)
          (or_fail-Keeps P panicked (thread_count host threads))
          λ n. encode_fitted-Keeps (fit_image host img max_width) crf preset n

    encode_planes-Keeps :
        (crf preset threads : ℕ) (p : EncoderPlanes host)
        → Keeps P (encode_planes host dst crf preset threads p)
    unfolding as_i32
    encode_planes-Keeps crf preset threads (y, u, v, enc_w, enc_h) =
        let av1 = encode_av1_raw_full_range host y u v enc_w enc_h crf preset threads in
        bind-Keeps P (or_fail unencodable av1) (write_planes host dst enc_w enc_h)
          (or_fail-Keeps P unencodable av1)
          λ bytes.
            bind-Keeps P (with_context _ (write_file dst _))
              (λ _. pure (as_i32 enc_w, as_i32 enc_h))
              (write-Keeps _ (wrap_avif_container host bytes enc_w enc_h)) λ _ w h. h

    pub encode_avif_from_yuv_planes-Keeps :
        (y u v : Plane) (width height crf preset threads : ℕ)
        → Keeps P (encode_avif_from_yuv_planes host y u v width height dst crf preset threads)
    unfolding encode_avif_from_yuv_planes as_i32
    encode_avif_from_yuv_planes-Keeps y u v width height crf preset threads =
        bind-Keeps P (or_fail panicked (aligned_planes y u v width height))
          (encode_planes host dst crf preset threads) (or_fail-Keeps P panicked _)
          λ p. encode_planes-Keeps crf preset threads p
