-- ===== src/Processing/Variants/Agreement.antt =====
-- Where variant D of `process_image` (src/worker/src/processing.rs) agrees with `process_image`.
use ginbar.Prelude.{
  ◌≡◌, ◌≢◌, refl, sym, ap, subst, ◌∙◌, Bool, true, false, ◌||◌, not, Option, none, some, Text,
  codes, ltb, if◌then◌else◌,
}
use ginbar.Prelude.Int.{ℤ}
use ginbar.World.{
  World, M, Result, Error, ok, err, hung, undecodable, no_filename, pure, with_context, after,
  ◌>>=◌,
}
use ginbar.World.Rules.{bind-ok}
use ginbar.Paths.{Directories, join, file_name}
use ginbar.Media.{is_jpeg}
use ginbar.Pipeline.{PHash, ImageResult}
use ginbar.Avif.{or_fail}
use ginbar.Processing.Decode.{Yuv, read, small_image, decode_jpeg_to_yuv_planes}
use ginbar.Processing.{
  encode_both, encode_loaded, process_image_fallback, encode_fast, process_jpeg, process_image,
  image_paths, image_result, joined, thumbnail_task, yuv_task,
}
use ginbar.Processing.Images.{fast, by_header, after_read}
use ginbar.Processing.Variants.{encode_c, process_image_v_c, process_jpeg_v_d, process_image_v_d}
use ginbar.Host.{Host, Header}

-- Two sequences with the same first call agree where the first succeeds, if their rests do.
same_after :
    {A B : Type 0} (m : M A) (f g : A → M B) (w : World) (b : B)
    → ((a : A) → (m w).0 ≡ ok a → (f a (m w).1).0 ≡ ok b → f a (m w).1 ≡ g a (m w).1)
    → ((m >>= f) w).0 ≡ ok b
    → (m >>= f) w ≡ (m >>= g) w
same_after m f g w b = by_result f g (m w) b
  where
    by_result :
        {A B : Type 0} (f g : A → M B) (r : Result A × World) (b : B)
        → ((a : A) → r.0 ≡ ok a → (f a r.1).0 ≡ ok b → f a r.1 ≡ g a r.1)
        → (after f r).0 ≡ ok b
        → after f r ≡ after g r
    by_result f g (ok a, v) b k h = k a refl h
    by_result f g (err e, v) b k h = refl
    by_result f g (hung, v) b k h = refl

same_if :
    {A : Type 0} (c : Bool) (m n m' n' : M A) (w : World) (a : A)
    → ((m w).0 ≡ ok a → m w ≡ m' w)
    → ((n w).0 ≡ ok a → n w ≡ n' w)
    → ((if c then m else n) w).0 ≡ ok a
    → (if c then m else n) w ≡ (if c then m' else n') w
same_if true m n m' n' w a k l = k
same_if false m n m' n' w a k l = l

-- A second test changes nothing where the second branch fails without it.
same_tests :
    {A : Type 0} (c d : Bool) (m n : M A) (w : World) (a : A)
    → (d ≡ false → (n w).0 ≡ ok a → n w ≡ m w)
    → ((if c then m else n) w).0 ≡ ok a
    → (if c then m else n) w ≡ (if c || not d then m else n) w
same_tests true d m n w a k h = refl
same_tests false true m n w a k h = refl
same_tests false false m n w a k h = k refl h

or_fail-some :
    {A : Type 0} (e : Error) (o : Option A) (w : World) (a : A)
    → (or_fail e o w).0 ≡ ok a
    → o ≡ some a
or_fail-some e none w a h = cc
or_fail-some e (some b) w a h = cc

module _ (host : Host) where
  v_c-fallback :
      (input : Text) (dirs : Directories)
      → process_image_v_c host input dirs ≡ process_image_fallback host input dirs
  unfolding process_image_v_c process_image_fallback encode_c encode_loaded encode_both
  v_c-fallback input dirs = refl

  -- A JPEG that is not 4:2:0 has no planes.
  no_planes :
      (bytes : Text) (header : Header)
      → host.read_header bytes ≡ some header
      → header.is_420 ≡ false
      → decode_jpeg_to_yuv_planes host bytes ≡ none
  unfolding decode_jpeg_to_yuv_planes
  no_planes bytes header h e = rw (h, e) refl

  -- What `encode_fast` does with the planes.
  abbrev from_planes : Text → Text → Text → Yuv → M (PHash × ℤ × ℤ)
  unfolding small_image thumbnail_task yuv_task
  from_planes thumb_path output_path bytes yuv =
      with_context (codes "RGB-512 decode failed") (or_fail undecodable (small_image host bytes))
      >>= λ small.
          joined host (codes "full-res YUV encode failed") (thumbnail_task host small thumb_path)
            (yuv_task host yuv output_path)

  encode_fast-fails :
      (thumb_path output_path bytes : Text) (v : World) (x : PHash × ℤ × ℤ)
      → decode_jpeg_to_yuv_planes host bytes ≡ none
      → (encode_fast host thumb_path output_path bytes v).0 ≢ ok x
  unfolding encode_fast small_image thumbnail_task yuv_task
  encode_fast-fails thumb_path output_path bytes v x e h =
      let planes =
        λ (o : Option Yuv). with_context (codes "YUV decode failed") (or_fail undecodable o) in
      let (yuv, f, g, s) =
        bind-ok (planes (decode_jpeg_to_yuv_planes host bytes))
          (from_planes thumb_path output_path bytes) v x h in
      failed_planes yuv (ap (λ o. (planes o v).0) (sym e) ∙ f)
    where
      failed_planes :
          (yuv : Yuv)
          → (with_context (codes "YUV decode failed") (or_fail undecodable none) v).0 ≢ ok yuv
      failed_planes yuv h = cc

  module _ (input : Text) (dirs : Directories) where
    fast-fails :
        (name bytes : Text) (header : Header) (v : World) (r : ImageResult)
        → host.read_header bytes ≡ some header
        → header.is_420 ≡ false
        → (fast host input dirs name bytes v).0 ≢ ok r
    unfolding join
    fast-fails name bytes header v r h e k =
        let thumb = (image_paths host dirs name).0 in
        let image = (image_paths host dirs name).1 in
        let (x, f, g, s) =
          bind-ok (encode_fast host thumb image bytes) (λ x. pure (image_result host name x)) v r
            k in
        encode_fast-fails thumb image bytes v x (no_planes bytes header h e) f

    abbrev by_width : Text → Text → Header → M ImageResult
    by_width name bytes header =
        if ltb 1058 header.width
        then process_image_v_c host input dirs
        else fast host input dirs name bytes

    headers_agree :
        (name bytes : Text) (header : Header) (v : World) (r : ImageResult)
        → host.read_header bytes ≡ some header
        → (by_width name bytes header v).0 ≡ ok r
        → by_width name bytes header v ≡ by_header host input dirs name bytes header v
    headers_agree name bytes header v r h k =
        subst
          (λ m.
            ((if ltb 1058 header.width then m else fast host input dirs name bytes) v).0 ≡ ok r
            → (if ltb 1058 header.width then m else fast host input dirs name bytes) v
              ≡ by_header host input dirs name bytes header v)
          (sym (v_c-fallback input dirs))
          (same_tests (ltb 1058 header.width) header.is_420 (process_image_fallback host input dirs)
            (fast host input dirs name bytes) v r
            λ e l. absurd (fast-fails name bytes header v r h e l))
          k

    jpegs_agree :
        (name : Text) (w : World) (r : ImageResult)
        → (process_jpeg_v_d host input dirs name w).0 ≡ ok r
        → process_jpeg_v_d host input dirs name w ≡ process_jpeg host input dirs name w
    unfolding process_jpeg_v_d process_jpeg join
    jpegs_agree name w r =
        same_after (with_context (codes "read JPEG bytes") (read input))
          (λ bytes. or_fail undecodable (host.read_header bytes) >>= by_width name bytes)
          (after_read host input dirs name) w r
          λ bytes e.
            same_after (or_fail undecodable (host.read_header bytes)) (by_width name bytes)
              (by_header host input dirs name bytes) _ r
              λ header f.
                headers_agree name bytes header _ r
                  (or_fail-some undecodable (host.read_header bytes) _ header f)

    -- Whatever calls fail: if variant D succeeds, then `process_image` comes to the same result and
    -- leaves everything in the same state.
    pub process_image_v_d-process_image :
        (w : World) (r : ImageResult)
        → (process_image_v_d host input dirs w).0 ≡ ok r
        → process_image_v_d host input dirs w ≡ process_image host input dirs w
    unfolding process_image_v_d process_image
    process_image_v_d-process_image w r =
        same_after (or_fail no_filename (file_name input))
          (λ name.
            if is_jpeg input
            then process_jpeg_v_d host input dirs name
            else process_image_v_c host input dirs)
          (λ name.
            if is_jpeg input
            then process_jpeg host input dirs name
            else process_image_fallback host input dirs)
          w r
          λ name e.
            let v = (or_fail no_filename (file_name input) w).1 in
            same_if (is_jpeg input) (process_jpeg_v_d host input dirs name)
              (process_image_v_c host input dirs) (process_jpeg host input dirs name)
              (process_image_fallback host input dirs) v r (jpegs_agree name v r)
              (λ h. ap (λ m. m v) (v_c-fallback input dirs))
