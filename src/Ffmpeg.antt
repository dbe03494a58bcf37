-- ===== src/Ffmpeg.antt =====
-- The commands of src/worker/src/ffmpeg.rs: ffprobe for the size of a video, ffmpeg for a frame of it,
-- for exotic images and for AVIF, and the numbers around them.
pub mod Convert
pub mod Dimensions
use ginbar.Prelude.{
  ℕ, zero, suc, ◌+◌, ◌-◌, ◌%◌, ◌^◌, Bool, true, false, Option, none, some, ◌&&◌, ◌||◌, not, List,
  [], ◌∷◌, ◌++◌, Text, codes, ◌==◌, ltb, leb, if◌then◌else◌,
}
use ginbar.Prelude.Int.{ℤ, pos, negsuc, ltb_ℤ}
use ginbar.Prelude.Digits.{to_text, parse_unsigned}
use ginbar.World.{
  World, M, Error, timed_out, command_failed, Try, got, failed, context, pure, fail, attempt,
  timeout, with_context, call, ◌>>=◌, ◌>>◌,
}
use ginbar.World.Calls.{nothing}
use ginbar.World.FileSystem.{Files, write}
use ginbar.Threads.{word, ffmpeg_thread_count}
use ginbar.Host.{Host}

-- `n as i32` of a `u32`.
unfoldable pub as_i32 : ℕ → ℤ
as_i32 n = if ltb n (2 ^ 31) then pos n else negsuc (2 ^ 32 - n - 1)

-- `n & !1` on an `i32`.
unfoldable pub make_even : ℤ → ℤ
make_even (pos n) = pos (n - n % 2)
make_even (negsuc n) = negsuc (n + 1 - n % 2)

abbrev pub is_zero : ℤ → Bool
is_zero (pos n) = n == 0
is_zero (negsuc n) = false

abbrev pub at_most : ℤ → ℤ → Bool
at_most a b = not (ltb_ℤ b a)

abbrev non_negative : Option ℕ → Option ℤ
non_negative none = none
non_negative (some n) = if ltb n (2 ^ 31) then some (pos n) else none

abbrev negated : ℕ → ℤ
negated zero = pos zero
negated (suc n) = negsuc n

abbrev negative : Option ℕ → Option ℤ
negative none = none
negative (some n) = if leb n (2 ^ 31) then some (negated n) else none

-- `parse::<i32>()`
unfoldable pub parse_i32 : Text → Option ℤ
unfolding parse_unsigned
parse_i32 [] = none
parse_i32 (c ∷ s) =
    if c == b'-'
    then negative (parse_unsigned word s)
    else if c == b'+'
    then non_negative (parse_unsigned word s)
    else non_negative (parse_unsigned word (c ∷ s))

-- White space of ASCII.
abbrev is_space : ℕ → Bool
is_space c = c == 32 || (leb 9 c && leb c 13)

unfoldable pub trim_start : Text → Text
trim_start [] = []
trim_start (c ∷ s) = let rest = trim_start s in if is_space c then rest else c ∷ s

abbrev end_at : ℕ → Text → Text
end_at c [] = if is_space c then [] else c ∷ []
end_at c (d ∷ s) = c ∷ d ∷ s

unfoldable pub trim_end : Text → Text
trim_end [] = []
trim_end (c ∷ s) = end_at c (trim_end s)

abbrev push_code : ℕ → List Text → List Text
push_code c [] = (c ∷ []) ∷ []
push_code c (t ∷ ts) = (c ∷ t) ∷ ts

-- `split(',')`
unfoldable pub split_comma : Text → List Text
split_comma [] = [] ∷ []
split_comma (c ∷ s) = let rest = split_comma s in if c == b',' then [] ∷ rest else push_code c rest

abbrev or_zero : Option ℤ → ℤ
or_zero none = pos 0
or_zero (some n) = n

unfoldable pub read_parts : List Text → ℤ × ℤ
unfolding parse_i32
read_parts (a ∷ b ∷ parts) = (or_zero (parse_i32 a), or_zero (parse_i32 b))
read_parts (a ∷ []) = (pos 0, pos 0)
read_parts [] = (pos 0, pos 0)

unfoldable pub parse_dimensions : Text → ℤ × ℤ
unfolding read_parts split_comma trim_start trim_end
parse_dimensions stdout = read_parts (split_comma (trim_end (trim_start stdout)))

-- What a command leaves in its output file.
unfoldable pub leave : Text → Option Text → Files → Files
unfolding write
leave output none files = files
leave output (some bytes) files = write output bytes files

module _ (host : Host) where
  unfoldable pub run_ffmpeg : List Text → Text → M Bool
  unfolding leave
  run_ffmpeg args output =
      call (λ w. (host.ffmpeg args w.files).0)
        (λ w. record w { files = leave output (host.ffmpeg args w.files).1 w.files })

  abbrev pub or_command_failed : Bool → M (Unit {0})
  or_command_failed true = pure tt
  or_command_failed false = fail command_failed

  abbrev count_text : Option ℕ → Text
  count_text none = []
  count_text (some n) = to_text n

  abbrev pub thread_text : Text
  thread_text = count_text (ffmpeg_thread_count host.env host.cpus)

  abbrev pub probe_args : Text → List Text
  probe_args path =
      codes "-v"
      ∷ codes "error"
      ∷ codes "-select_streams"
      ∷ codes "v:0"
      ∷ codes "-show_entries"
      ∷ codes "stream=width,height"
      ∷ codes "-of"
      ∷ codes "csv=p=0"
      ∷ path
      ∷ []

  abbrev pub probed : Try (Option Text) → M (ℤ × ℤ)
  unfolding parse_dimensions
  probed (got (some stdout)) = pure (parse_dimensions stdout)
  probed (got none) = pure (pos 0, pos 0)
  probed (failed e) = pure (pos 0, pos 0)

  abbrev pub ffprobe : List Text → M (Option Text)
  ffprobe args = call (λ w. host.ffprobe args w.files) (λ w. w)

  unfoldable pub get_dimensions : Text → M (ℤ × ℤ)
  unfolding parse_dimensions
  get_dimensions path = attempt (ffprobe (probe_args path)) >>= probed

  -- `-i input -frames:v 1 -q:v 2 output`
  abbrev pub normalize_args : Text → Text → List Text
  normalize_args input output =
      codes "-y"
      ∷ codes "-threads"
      ∷ thread_text
      ∷ codes "-i"
      ∷ input
      ∷ codes "-frames:v"
      ∷ codes "1"
      ∷ codes "-q:v"
      ∷ codes "2"
      ∷ output
      ∷ []

  abbrev pub waited : Option (Try Bool) → M (Unit {0})
  waited none = fail timed_out
  waited (some (failed e)) = fail (context (codes "ffmpeg normalize: wait") e)
  waited (some (got success)) = or_command_failed success

  abbrev pub spawn : M (Unit {0})
  spawn = call nothing (λ w. w)

  unfoldable pub normalize_to_jpeg : Text → Text → M (Unit {0})
  unfolding run_ffmpeg
  normalize_to_jpeg input output =
      with_context (codes "ffmpeg normalize: spawn") spawn
      >> (timeout (run_ffmpeg (normalize_args input output) output) >>= waited)

  abbrev pub frame_args : Text → Text → List Text
  frame_args input output =
      codes "-threads"
      ∷ thread_text
      ∷ codes "-i"
      ∷ input
      ∷ codes "-ss"
      ∷ codes "00:00:01.000"
      ∷ codes "-vframes"
      ∷ codes "1"
      ∷ output
      ∷ codes "-hide_banner"
      ∷ codes "-loglevel"
      ∷ codes "panic"
      ∷ []

  unfoldable pub extract_video_frame : Text → Text → M (Unit {0})
  unfolding run_ffmpeg
  extract_video_frame input output =
      with_context (codes "ffmpeg video frame") (run_ffmpeg (frame_args input output) output)
      >>= or_command_failed

  unfoldable pub compute_scaled_dims : ℤ → ℤ → ℕ → ℤ × ℤ
  unfolding as_i32 make_even
  compute_scaled_dims w h max_width =
      if is_zero w || is_zero h
      then (pos 0, pos 0)
      else if max_width == 0 || at_most w (as_i32 max_width)
      then (make_even w, make_even h)
      else (make_even (as_i32 max_width), make_even (host.scaled_height h max_width w))
