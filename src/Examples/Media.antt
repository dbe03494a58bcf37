-- ===== src/Examples/Media.antt =====
-- The theorems on the pipeline (src/worker/src/processing.rs, avif.rs and ffmpeg.rs), applied to the
-- host of `Machine`.
use ginbar.Prelude.{
  ℕ, zero, suc, ◌+◌, ◌-◌, ◌*◌, ◌/◌, ◌%◌, ◌<◌, ◌≡◌, ◌≢◌, refl, sym, ap, subst, some, [], ◌∷◌, Text,
  codes, All, arith, length, replicate, get_elem?, text_eq, false,
}
use ginbar.Prelude.Int.{pos}
use ginbar.Prelude.Digits.{to_text}
use ginbar.World.{World}
use ginbar.World.FileSystem.{file_at, write}
use ginbar.Paths.{join, file_name}
use ginbar.Pipeline.{ImageResult, VideoResult, Regenerator}
use ginbar.Pixels.Planes.{Yields}
use ginbar.Saliency.{Gray, Windows, search, smart_crop}
use ginbar.Saliency.Energy.{IsImage}
use ginbar.Saliency.Crop.{IsBest, search-IsBest, IsSquare, smart_crop-IsSquare}
use ginbar.Phash.{coefficients, above_median, compute_phash}
use ginbar.Phash.Bits.{word_of, differences}
use ginbar.Database.{hamming_distance}
use ginbar.Phash.Chunks.{chunk}
use ginbar.Phash.Packing.{compute_phash-words, distance-compute_phash}
use ginbar.Ffmpeg.{parse_dimensions}
use ginbar.Ffmpeg.Dimensions.{csv_line, parse_dimensions-csv_line}
use ginbar.Avif.{encode_avif}
use ginbar.Avif.Codec.{encode_av1_raw_full_range}
use ginbar.Avif.Fitted.{strict, encode_avif-strict}
use ginbar.Processing.Decode.{Yuv}
use ginbar.Processing.{
  image_paths, normalized_path, yuv_slices, encode_loaded, process_image, regenerate_image,
}
use ginbar.Processing.Regenerates.{regenerate_image-Regenerator}
use ginbar.Processing.Results.{AreApart, IsStored, process_image-IsStored, process_image-spares}
use ginbar.Processing.Variants.{process_image_v_d}
use ginbar.Processing.Variants.Agreement.{process_image_v_d-process_image}
use ginbar.Processing.Moved.{IsMoved, process_video-IsMoved}
use ginbar.Processing.Video.{process_video}
use ginbar.Processing.Slices.{enc_w, yuv_slices-rows}
use ginbar.Processing.Leftovers.{IsCleared, encode_loaded-IsCleared}
use ginbar.Host.{Host}
use ginbar.Examples.{dirs, world, post_of}
use ginbar.Examples.Machine.{host, first_of, names, resizing, resizes, reals, scaling}

regenerate_image-Regenerator_example :
    (r : Regenerator dirs) × ((input : Text) → r.run input ≡ regenerate_image host input dirs)
regenerate_image-Regenerator_example = regenerate_image-Regenerator host dirs names

parse_dimensions-csv_line_example : parse_dimensions (csv_line 1920 1080) ≡ (pos 1920, pos 1080)
unfolding to_text
parse_dimensions-csv_line_example = parse_dimensions-csv_line 1920 1080 (omega arith) (omega arith)

encode_avif-strict_example :
    encode_avif (strict resizing) (1000, 700) (codes "i/n.avif") 18 8 920 1
    ≡ encode_avif resizing (1000, 700) (codes "i/n.avif") 18 8 920 1
encode_avif-strict_example =
    encode_avif-strict resizing (1000, 700) (codes "i/n.avif") 18 8 920 1 resizes

length-grey : (n : ℕ) → length {A = ℕ} (replicate n 7) ≡ n
length-grey zero = refl
length-grey (suc n) = ap suc (length-grey n)

grey_below_256 : (n : ℕ) → All (λ b. b < 256) (replicate n 7)
grey_below_256 zero = tt
grey_below_256 (suc n) = (omega arith, grey_below_256 n)

abbrev grey : ℕ → ℕ → Gray
grey w h = record { bytes = replicate (h * w) 7; width = w; height = h }

grey-IsImage : (w h : ℕ) → IsImage (grey w h)
grey-IsImage w h = record { sized = length-grey (h * w); bytes = grey_below_256 (h * w) }

smart_crop-IsSquare_example :
    Yields (IsSquare 300 200 150) (smart_crop scaling (λ w h. replicate (h * w) 7) 300 200 150 150)
smart_crop-IsSquare_example =
    smart_crop-IsSquare scaling (λ w h. replicate (h * w) 7) grey-IsImage 300 200 150

-- Windows of 2 by 1 in an image of 6 by 3, with more energy to the right and below.
abbrev six_by_three : Windows
six_by_three = record {
  width = 6;
  height = 3;
  crop_w = 2;
  crop_h = 1;
  energy = λ x y. some (x + 10 * y);
}

search-IsBest_example : Yields (IsBest six_by_three (λ x y. x + 10 * y)) (search six_by_three)
search-IsBest_example =
    search-IsBest six_by_three (λ x y. x + 10 * y) (omega arith) (omega arith) λ x y f. refl

-- An image of three by two, with a row of luma that is read from the row above.
abbrev three_by_two : Yuv
three_by_two = record {
  buf = 1 ∷ 2 ∷ 3 ∷ 4 ∷ 5 ∷ 6 ∷ 7 ∷ 8 ∷ 9 ∷ 10 ∷ [];
  width = 3;
  height = 2;
  y_len = 6;
  uv_len = 2;
}

yuv_slices-rows_example :
    (get_elem? (1 ∷ 2 ∷ 3 ∷ 4 ∷ []) (1 * enc_w host three_by_two + 0)
      ≡ get_elem? three_by_two.buf (1 * 3 + 0 - 1 * (3 % 2)))
    × (get_elem? (7 ∷ []) (0 * (enc_w host three_by_two / 2) + 0)
        ≡ get_elem? three_by_two.buf (6 + (0 * ((3 + 1) / 2) + 0 - 0 * (3 % 2))))
unfolding yuv_slices
yuv_slices-rows_example =
    yuv_slices-rows host three_by_two (1 ∷ 2 ∷ 3 ∷ 4 ∷ []) (7 ∷ []) (9 ∷ []) refl 1 0 0 0
      (omega arith) (omega arith) (omega arith) (omega arith)

-- A task whose encoder has no room for a thumbnail, after the image was normalized.
abbrev at_work : World
at_work = record (world []) { files = write (codes "x/n.jpg") (b'j' ∷ []) (world []).files }

encode_loaded-IsCleared_example :
    IsCleared
      (codes "x/n.jpg")
      (encode_loaded host
        (codes "t/n.avif")
        (codes "i/n.avif")
        ((40, 48), some (codes "x/n.jpg"))
        at_work).0
      at_work
      (encode_loaded host
        (codes "t/n.avif")
        (codes "i/n.avif")
        ((40, 48), some (codes "x/n.jpg"))
        at_work).1
encode_loaded-IsCleared_example =
    encode_loaded-IsCleared host (codes "t/n.avif") (codes "i/n.avif") (codes "x/n.jpg") (40, 48)
      at_work (λ e. absurd (omega (arith, ap first_of e)))
      (λ e. absurd (omega (arith, ap first_of e))) refl

file_name_lem : (name : Text) → file_name (codes "x/a.png") ≡ some name → name ≡ codes "a.png"
unfolding file_name text_eq
file_name_lem name h = cc

images_apart : AreApart host (codes "x/a.png") dirs
unfolding join
images_apart = record {
  two = λ name h.
      subst (λ n. (image_paths host dirs n).0 ≢ (image_paths host dirs n).1)
        (sym (file_name_lem name h)) λ e. absurd (omega (arith, ap first_of e));
  normalized_thumbnail = λ w name h.
      subst (λ n. normalized_path host dirs (host.uuid w) ≢ (image_paths host dirs n).0)
        (sym (file_name_lem name h)) λ e. absurd (omega (arith, ap first_of e));
  normalized_image = λ w name h.
      subst (λ n. normalized_path host dirs (host.uuid w) ≢ (image_paths host dirs n).1)
        (sym (file_name_lem name h)) λ e. absurd (omega (arith, ap first_of e));
}

abbrev stored : ImageResult
stored = record {
  filename = codes "a.png.avif";
  thumbnail_filename = codes "a.png.avif";
  uploaded_filename = codes "a.png";
  p_hash = (0, 0, 0, 0);
  width = pos 40;
  height = pos 48;
}

process_image-IsStored_example :
    IsStored host
      (codes "x/a.png")
      dirs
      (process_image host (codes "x/a.png") dirs (world [])).1
      stored
unfolding process_image file_at text_eq
process_image-IsStored_example =
    process_image-IsStored host (codes "x/a.png") dirs images_apart (world []) stored refl

process_image-spares_example :
    (file_at (codes "i/a") (process_image host (codes "x/a.png") dirs (world [])).1.files
      ≡ file_at (codes "i/a") (world []).files)
    × ((process_image host (codes "x/a.png") dirs (world [])).1.posts ≡ (world []).posts)
    × ((process_image host (codes "x/a.png") dirs (world [])).1.redis ≡ (world []).redis)
unfolding join
process_image-spares_example =
    process_image-spares host (codes "x/a.png") (codes "i/a") dirs
      (λ name h.
        subst
          (λ n.
            ((image_paths host dirs n).0 ≢ codes "i/a")
            × ((image_paths host dirs n).1 ≢ codes "i/a"))
          (sym (file_name_lem name h))
          ((λ e. absurd (omega (arith, ap first_of e))), λ e. absurd (omega (arith, ap length e))))
      (λ v e. absurd (omega (arith, ap first_of e))) (world [])

-- An encoder that answers, and a JPEG for it.
abbrev encoding : Host
encoding = record host { into_encoder = λ config. some tt }

abbrev jpeg_there : World
jpeg_there = record (world []) { files = write (codes "x/a.jpg") (b'j' ∷ []) (world []).files }

abbrev jpeg_stored : ImageResult
jpeg_stored = record {
  filename = codes "a.jpg.avif";
  thumbnail_filename = codes "a.jpg.avif";
  uploaded_filename = codes "a.jpg";
  p_hash = (0, 0, 0, 0);
  width = pos 40;
  height = pos 48;
}

process_image_v_d-process_image_example :
    process_image_v_d encoding (codes "x/a.jpg") dirs jpeg_there
    ≡ process_image encoding (codes "x/a.jpg") dirs jpeg_there
unfolding process_image_v_d file_at write text_eq encode_av1_raw_full_range
process_image_v_d-process_image_example =
    process_image_v_d-process_image encoding (codes "x/a.jpg") dirs jpeg_there jpeg_stored refl

compute_phash-words_example :
    compute_phash reals []
    ≡ some (
      word_of (chunk 0 (above_median reals (coefficients reals []))),
      word_of (chunk 1 (above_median reals (coefficients reals []))),
      word_of (chunk 2 (above_median reals (coefficients reals []))),
      word_of (chunk 3 (above_median reals (coefficients reals []))),
    )
compute_phash-words_example = compute_phash-words reals []

distance-compute_phash_example :
    hamming_distance 0 0 0 0 (post_of 7 false 0)
    ≡ differences
        (above_median reals (coefficients reals []))
        (above_median reals (coefficients reals []))
unfolding compute_phash
distance-compute_phash_example =
    distance-compute_phash reals [] [] 0 0 0 0 (post_of 7 false 0) refl refl

-- The new name is eight nines.
abbrev clip : VideoResult
clip = record {
  filename = codes "99999999.png";
  thumbnail_filename = codes "99999999.avif";
  width = pos 64;
  height = pos 72;
}

process_video-IsMoved_example :
    IsMoved dirs
      (codes "99999999")
      (codes ".png")
      (process_video host (codes "x/a.png") dirs (world [])).1
      clip
unfolding process_video file_at text_eq
process_video-IsMoved_example =
    process_video-IsMoved host (codes "x/a.png") dirs (world []) clip
      (record {
        input_video = λ e. absurd (omega (arith, ap first_of e));
        frame_video = λ e. absurd (omega (arith, ap first_of e));
        thumbnail_video = λ e. absurd (omega (arith, ap first_of e));
        frame_thumbnail = λ e. absurd (omega (arith, ap first_of e));
      })
      refl
