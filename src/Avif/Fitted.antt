-- ===== src/Avif/Fitted.antt =====
-- The sizes of the images that `encode_avif` (src/worker/src/avif.rs) hands to SVT-AV1.
use ginbar.Prelude.{
  ℕ, ◌≤◌, ◌≡◌, refl, ap, fun_ext, ◌∙◌, max, Bool, true, false, none, arith, ◌%◌, ◌==◌, leb, Text,
  ◌&&◌, ltb, if◌then◌else◌,
}
use ginbar.Pixels.{Plane, align, rgb_to_yuv420_full_range}
use ginbar.Pixels.Size.{Floats, encode_size, below_minimum}
use ginbar.Avif.{
  cut, fit_image, encode_fitted, encode_avif, or_fail, encode_avif_ravif, finish_encode,
  send_planes, thread_count,
}
use ginbar.World.{panicked, ◌>>=◌}
use ginbar.Avif.Codec.{wrap_avif_container, encode_av1_raw_full_range, encode_frame, encoder_config}
use ginbar.Host.{Host, EncoderConfig}

-- An image that is cropped within its bounds, or resized exactly, has the size asked for.
pub record Resizes (host : Host) : Type 0 where
  pub width-crop_imm :
      (img : host.Image) (w h : ℕ)
      → w ≤ host.width img
      → h ≤ host.height img
      → host.width (host.crop_imm img 0 0 w h) ≡ w
  pub height-crop_imm :
      (img : host.Image) (w h : ℕ)
      → w ≤ host.width img
      → h ≤ host.height img
      → host.height (host.crop_imm img 0 0 w h) ≡ h
  pub width-resize_exact : (img : host.Image) (w h : ℕ) → host.width (host.resize_exact img w h) ≡ w
  pub height-resize_exact :
      (img : host.Image) (w h : ℕ) → host.height (host.resize_exact img w h) ≡ h

module _ (host : Host) (laws : Resizes host) where
  abbrev size_of : host.Image → ℕ × ℕ
  size_of img = (host.width img, host.height img)

  size-cut :
      (img : host.Image)
      → size_of (cut host img) ≡ (align (host.width img), align (host.height img))
  unfolding align
  size-cut img =
      let w = host.width img in
      let h = host.height img in
      ground (
        arith,
        laws.width-crop_imm img (align w) (align h) (omega arith) (omega arith),
        laws.height-crop_imm img (align w) (align h) (omega arith) (omega arith),
      )

by_tests :
    (host : Host) (one other : host.Image) (size size' : ℕ × ℕ)
    → (host.width one, host.height one) ≡ size
    → (host.width other, host.height other) ≡ size'
    → (b c : Bool)
    → let img = if b then if c then one else other else one in
      (host.width img, host.height img) ≡ (if b then if c then size else size' else size)
by_tests host one other size size' e f true true = e
by_tests host one other size size' e f true false = f
by_tests host one other size size' e f false c = e

-- The size of the image, computed on the numbers alone.
fit_image-encode_size :
    (host : Host) (img : host.Image) (max_width : ℕ)
    → Resizes host
    → (host.width (fit_image host img max_width), host.height (fit_image host img max_width))
      ≡ encode_size host.floats max_width (host.width img) (host.height img)
unfolding fit_image encode_size align
fit_image-encode_size host img max_width laws =
    let w = host.width img in
    let h = host.height img in
    let new_h = align (max (host.floats.scaled h max_width w) 1) in
    by_tests host (cut host img) (host.resize_exact img (align max_width) new_h) (align w, align h)
      (align max_width, new_h) (size-cut host laws img)
      (ap (λ x. (x, host.height (host.resize_exact img (align max_width) new_h)))
          (laws.width-resize_exact img (align max_width) new_h)
        ∙ ap (λ x. (align max_width, x)) (laws.height-resize_exact img (align max_width) new_h))
      (ltb 0 max_width && ltb max_width w) (host.floats.is_near w max_width)

size-multiple :
    (floats : Floats) (max_width w h : ℕ)
    → ((encode_size floats max_width w h).0 % 8 ≡ 0)
      × ((encode_size floats max_width w h).1 % 8 ≡ 0)
unfolding encode_size align
size-multiple floats max_width w h = ground arith

unless_small :
    {A : Type 0} (small : Bool) (m n n' : A)
    → (small ≡ false → n ≡ n')
    → (if small then m else n) ≡ (if small then m else n')
unless_small true m n n' h = refl
unless_small false m n n' h = h refl

-- A size that SVT-AV1 takes: multiples of eight, and not below its minimum.
abbrev is_encodable : EncoderConfig → Bool
is_encodable config =
    config.width % 8 == 0 && config.height % 8 == 0 && leb 64 config.width && leb 64 config.height

-- The same host with an encoder that refuses every other size.
abbrev pub strict : Host → Host
strict host = record host {
  into_encoder = λ config. if is_encodable config then host.into_encoder config else none;
}

module _ (host : Host) where
  strict-encodes :
      (y u v : Plane) (width height crf preset threads : ℕ)
      → width % 8 ≡ 0
      → height % 8 ≡ 0
      → below_minimum (width, height) ≡ false
      → encode_av1_raw_full_range (strict host) y u v width height crf preset threads
        ≡ encode_av1_raw_full_range host y u v width height crf preset threads
  unfolding encode_av1_raw_full_range encode_frame encoder_config below_minimum
  strict-encodes y u v width height crf preset threads a b c =
      let e : (width % 8 == 0 && height % 8 == 0 && leb 64 width && leb 64 height) ≡ true =
        ground arith in
      rw e refl

  strict-fitted :
      (img : host.Image) (dst : Text) (crf preset : ℕ)
      → host.width img % 8 ≡ 0
      → host.height img % 8 ≡ 0
      → encode_fitted (strict host) img dst crf preset ≡ encode_fitted host img dst crf preset
  unfolding encode_fitted encode_avif_ravif finish_encode wrap_avif_container
  strict-fitted img dst crf preset a b = fun_ext λ threads.
      let w = host.width img in
      let h = host.height img in
      let planes = or_fail panicked (rgb_to_yuv420_full_range (host.to_rgb8 img) w h) in
      unless_small (below_minimum (w, h)) (encode_avif_ravif host img dst)
        (planes >>= send_planes (strict host) img dst crf preset threads)
        (planes >>= send_planes host img dst crf preset threads)
        λ c.
          ap (λ f. planes >>= f)
            (fun_ext λ (y, u, v).
              ap (finish_encode host img dst) (strict-encodes y u v w h crf preset threads a b c))

  -- Where an image cut or resized has the size that was asked for, `encode_avif` does the same, whichever
  -- calls fail, with an encoder that refuses every size but multiples of eight from 64 on: what SVT-AV1
  -- answers to any other size makes no difference.
  pub encode_avif-strict :
      (img : host.Image) (dst : Text) (crf preset max_width threads : ℕ)
      → Resizes host
      → encode_avif (strict host) img dst crf preset max_width threads
        ≡ encode_avif host img dst crf preset max_width threads
  unfolding encode_avif fit_image
  encode_avif-strict img dst crf preset max_width threads laws =
      let fitted = fit_image host img max_width in
      let size = fit_image-encode_size host img max_width laws in
      let (a, b) = size-multiple host.floats max_width (host.width img) (host.height img) in
      ap (λ f. or_fail panicked (thread_count host threads) >>= f)
        (strict-fitted fitted dst crf preset (ap (λ s. s.0 % 8) size ∙ a)
          (ap (λ s. s.1 % 8) size ∙ b))
