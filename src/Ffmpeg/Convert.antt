-- ===== src/Ffmpeg/Convert.antt =====
-- `convert_to_avif` of src/worker/src/ffmpeg.rs: an image to AVIF by a run of ffmpeg.
use ginbar.Prelude.{ℕ, Bool, List, [], ◌∷◌, ◌++◌, ◌&&◌, ◌||◌, Text, codes, ltb, if◌then◌else◌}
use ginbar.Prelude.Int.{ℤ, pos, ltb_ℤ}
use ginbar.Prelude.Digits.{to_text}
use ginbar.World.{M, pure, with_context, ◌>>=◌, ◌>>◌}
use ginbar.Ffmpeg.{
  as_i32, is_zero, at_most, run_ffmpeg, or_command_failed, thread_text, get_dimensions,
  compute_scaled_dims,
}
use ginbar.Host.{Host}

abbrev pub svt_max_width : ℤ
svt_max_width = pos 8192

abbrev pub svt_max_height : ℤ
svt_max_height = pos 8704

-- SVT-AV1 is used within its limits, and for an image of unknown size.
unfoldable pub use_svt : ℤ → ℤ → Bool
use_svt w h = (is_zero w && is_zero h) || (at_most w svt_max_width && at_most h svt_max_height)

unfoldable pub filter_chain : ℤ → ℕ → Text
unfolding as_i32
filter_chain w max_width =
    if ltb 0 max_width && (is_zero w || ltb_ℤ (as_i32 max_width) w)
    then codes "scale='min("
      ++ (to_text max_width ++ codes ",iw)':-2,crop=trunc(iw/2)*2:trunc(ih/2)*2")
    else codes "crop=trunc(iw/2)*2:trunc(ih/2)*2"

module _ (host : Host) where
  abbrev input_args : Text → Text → List Text
  input_args input vf =
      codes "-y"
      ∷ codes "-threads"
      ∷ thread_text host
      ∷ codes "-i"
      ∷ input
      ∷ codes "-frames:v"
      ∷ codes "1"
      ∷ codes "-vf"
      ∷ vf
      ∷ codes "-c:v"
      ∷ []

  abbrev svt_args : ℕ → ℕ → List Text
  svt_args crf preset =
      codes "libsvtav1" ∷ codes "-crf" ∷ to_text crf ∷ codes "-preset" ∷ to_text preset ∷ []

  abbrev aom_args : ℕ → List Text
  aom_args crf =
      codes "libaom-av1"
      ∷ codes "-crf"
      ∷ to_text crf
      ∷ codes "-b:v"
      ∷ codes "0"
      ∷ codes "-cpu-used"
      ∷ codes "4"
      ∷ []

  abbrev output_args : Text → List Text
  output_args output = codes "-g" ∷ codes "1" ∷ codes "-pix_fmt" ∷ codes "yuv420p" ∷ output ∷ []

  unfoldable pub avif_args : Text → Text → ℕ → ℕ → ℕ → ℤ × ℤ → List Text
  unfolding use_svt filter_chain
  avif_args input output crf preset max_width (w, h) =
      input_args input (filter_chain w max_width)
      ++ ((if use_svt w h then svt_args crf preset else aom_args crf) ++ output_args output)

  unfoldable pub convert_sized : Text → Text → ℕ → ℕ → ℕ → ℤ × ℤ → M (ℤ × ℤ)
  unfolding run_ffmpeg avif_args compute_scaled_dims
  convert_sized input output crf preset max_width size =
      with_context (codes "ffmpeg avif")
        (run_ffmpeg host (avif_args input output crf preset max_width size) output)
      >>= (or_command_failed host)
      >> pure (compute_scaled_dims host size.0 size.1 max_width)

  unfoldable pub convert_to_avif : Text → Text → ℕ → ℕ → ℕ → M (ℤ × ℤ)
  unfolding get_dimensions convert_sized
  convert_to_avif input output crf preset max_width =
      get_dimensions host input >>= convert_sized input output crf preset max_width
