-- ===== src/Examples/Machine.antt =====
-- A host that is written out, for the theorems on the pipeline (src/worker/src/processing.rs, avif.rs and
-- ffmpeg.rs). Its codecs keep only the size of an image, and its images stay below the minimum of
-- SVT-AV1.
use ginbar.Prelude.{
  ℕ, zero, suc, ◌+◌, ◌*◌, ◌/◌, ◌<◌, ◌≡◌, refl, ap, min, max, true, false, Bool-cases, inl, inr,
  none, some, [], ◌∷◌, ◌++◌, Text, codes, arith, length, length-append, replicate, text_eq,
  text_eq_iff,
}
use ginbar.World.{World}
use ginbar.World.FileSystem.{Files, file_at}
use ginbar.Paths.{join}
use ginbar.Saliency.{Scaling}
use ginbar.Phash.{Reals}
use ginbar.Processing.Regenerates.{FreshNames}
use ginbar.Avif.Fitted.{Resizes}
use ginbar.Host.{Host}
use ginbar.Examples.{dirs}
use ginbar.Examples.Encoding.{floats}

abbrev pub longest : Files → ℕ
longest [] = 0
longest ((path, bytes) ∷ fs) = max (length path) (longest fs)

long_free : (path : Text) (fs : Files) → longest fs < length path → file_at path fs ≡ none
unfolding file_at
long_free path [] h = refl
long_free path ((p, bytes) ∷ fs) h = elim (Bool-cases (text_eq p path)) [
  | inl e ↦ absurd (omega (arith, ap length ((text_eq_iff p path).0 e)))
  | inr e ↦ rw e (long_free path fs (omega arith))
]

-- A name of nines that is longer than every path.
abbrev pub new_name : World → Text
new_name w = replicate (suc (longest w.files)) b'9'

-- Numbers whose order does not matter.
abbrev pub reals : Reals
reals = record {
  Real = Unit {0};
  zero_real = tt;
  add = λ a b. tt;
  of_byte = λ b. tt;
  term = λ n k x v. tt;
  mean = λ a b. tt;
  gt = λ a b. false;
  le = λ a b. true;
}

abbrev pub scaling : Scaling
scaling = record {
  to_analysis = λ side n. n * 256 / max side 256;
  from_analysis = λ side n. n * max side 256 / 256;
  fit = λ source target. source;
}

abbrev pub host : Host
host = record {
  Image = ℕ × ℕ;
  width = λ img. img.0;
  height = λ img. img.1;
  decode = λ bytes. some (40, 48);
  resize = λ img w h. (min img.0 w, min img.1 h);
  resize_exact = λ img w h. img;
  crop_imm = λ img x y w h. (w, h);
  to_rgb8 = λ img. replicate (img.0 * img.1 * 3) 100;
  to_luma8 = λ img. [];
  from_raw = λ w h bytes. some (w, h);
  read_header = λ bytes. some (record { width = 40; height = 48; is_420 = true });
  scaled_half = λ n. (n + 1) / 2;
  decompress = λ bytes w h. some [];
  yuv_pixels_len = λ w h. some (w * h * 3 / 2);
  decompress_to_yuv = λ bytes. some (replicate 2880 1);
  plane_lengths = λ w h. (w * h, (w + 1) / 2 * ((h + 1) / 2));
  Encoder = Unit {0};
  into_encoder = λ config. none;
  send_picture = λ encoder frame. some encoder;
  send_eos = λ encoder. some encoder;
  get_packet = λ encoder. some (b'o' ∷ []);
  ravif = λ quality speed bytes w h. some (b'r' ∷ []);
  to_vec = λ aviffy av1 w h depth. av1;
  ffmpeg = λ args files. (true, some (b'j' ∷ []));
  ffprobe = λ args files. some (codes "64,72");
  uuid = new_name;
  thumb_first = λ w. false;
  floats = floats;
  scaled_height = λ h max_width w. h;
  scaling = scaling;
  reals = reals;
  env = λ name. none;
  cpus = 8;
}

length-new : (n : ℕ) (s : Text) → n < suc (length (replicate n b'9' ++ s))
length-new zero s = omega arith
length-new (suc n) s = omega (arith, length-new n s)

-- A path that ends in a new name and more.
free : (before after : Text) (w : World) → file_at (before ++ (new_name w ++ after)) w.files ≡ none
free before after w =
    long_free (before ++ (replicate (suc (longest w.files)) b'9' ++ after)) w.files (
      omega (
        arith,
        length-append before (replicate (suc (longest w.files)) b'9' ++ after),
        length-new (longest w.files) after,
      ))

abbrev pub first_of : Text → ℕ
first_of [] = 0
first_of (c ∷ s) = c

pub names : FreshNames host dirs
unfolding join
names = record {
  no_image = λ w. free (codes "i/") (codes ".avif") w;
  no_thumbnail = λ w. free (codes "t/") (codes "_thumb.avif") w;
  no_normalized = λ w. free (codes "x/thumbnails/") (codes ".jpg") w;
  apart = λ w e. absurd (omega (arith, ap first_of e));
  image_apart = λ w e. absurd (omega (arith, ap first_of e));
}

-- A host that resizes, with an encoder that answers.
abbrev pub resizing : Host
resizing = record host { resize_exact = λ img w h. (w, h); into_encoder = λ config. some tt }

pub resizes : Resizes resizing
resizes = record {
  width-crop_imm = λ img w h k l. refl;
  height-crop_imm = λ img w h k l. refl;
  width-resize_exact = λ img w h. refl;
  height-resize_exact = λ img w h. refl;
}
