-- ===== src/Processing/Moved.antt =====
-- Where `process_video` of src/worker/src/processing.rs succeeds, the video and its thumbnail are in
-- their directories.
use ginbar.Prelude.{
  ℕ, ◌≡◌, ◌≢◌, inl, inr, refl, sym, ap, subst, ◌∙◌, true, Bool-cases, some, [], ◌∷◌, ◌++◌, Text,
  codes, text_eq, text_eq_iff, text_eq_refl, length, length-append, arith,
}
use ginbar.Prelude.Int.{ℤ}
use ginbar.World.{World, M, Result, ok, pure, ignore, ◌>>=◌, ◌>>◌}
use ginbar.World.Calls.{remove_file}
use ginbar.World.Footprint.{present-Footprint, remove_file-Keeps}
use ginbar.World.Rules.{ignore-Keeps, bind-ok}
use ginbar.Paths.{Directories, join, extension}
use ginbar.Pipeline.{VideoResult}
use ginbar.Ffmpeg.{extract_video_frame, get_dimensions}
use ginbar.Avif.Written.{Writes, bind-Writes, bind-Writes_first}
use ginbar.Processing.Decode.{open_image}
use ginbar.Processing.Video.{
  move_video, create_thumbnail, video_thumbnail, video_base, video_result, process_named,
  video_extension, process_video, strip_suffix, or_whole,
}
use ginbar.Processing.Videos.{get_dimensions-Keeps, video_thumbnail-Keeps}
use ginbar.Processing.Clips.{create_thumbnail-Writes}
use ginbar.Host.{Host}
use ginbar.Processing.Moves.{Present, move_video-Writes}

longer_ne : (c : ℕ) (base suffix : Text) → text_eq (c ∷ base ++ suffix) suffix ≢ true
longer_ne c base suffix h =
    let e = ap length ((text_eq_iff (c ∷ base ++ suffix) suffix).0 h) in
    absurd (omega (arith, e, length-append (c ∷ base) suffix))

-- A suffix that was appended is stripped.
pub strip_suffix-append : (base suffix : Text) → strip_suffix suffix (base ++ suffix) ≡ some base
unfolding strip_suffix
strip_suffix-append [] [] = unfold text_eq in refl
strip_suffix-append [] (c ∷ s) = rw (text_eq_refl (c ∷ s)) refl
strip_suffix-append (b ∷ bs) suffix = elim (Bool-cases (text_eq (b ∷ bs ++ suffix) suffix)) [
  | inl e ↦ absurd (longer_ne b bs suffix e)
  | inr e ↦ rw (e, strip_suffix-append bs suffix) refl
]

-- The names of a result, and its two files.
pub record IsMoved (dirs : Directories) (base ext : Text) (w : World) (r : VideoResult)
    : Type 0 where
  pub video_name : r.filename ≡ base ++ ext
  pub thumbnail_name : r.thumbnail_filename ≡ base ++ codes ".avif"
  pub has_video : Present (join dirs.video r.filename) w.files
  pub has_thumbnail : Present (join dirs.thumbnail r.thumbnail_filename) w.files

-- The files of a video are different ones.
pub record AreDistinct (input video frame thumbnail : Text) : Type 0 where
  pub input_video : input ≢ video
  pub frame_video : frame ≢ video
  pub thumbnail_video : thumbnail ≢ video
  pub frame_thumbnail : frame ≢ thumbnail

module _ (host : Host) (dirs : Directories) (base ext : Text) where
  abbrev name : Text
  name = base ++ ext

  -- The paths, with the suffix stripped.
  abbrev pub frame_file : Text
  unfolding join
  frame_file = join dirs.tmp (base ++ codes ".jpg")

  abbrev pub thumbnail_file : Text
  unfolding join
  thumbnail_file = join dirs.thumbnail (base ++ codes ".avif")

  abbrev pub video_file : Text
  unfolding join
  video_file = join dirs.video name

  base_eq : video_base host name ext ≡ base
  unfolding strip_suffix
  base_eq = ap (or_whole name) (strip_suffix-append base ext)

  abbrev result_of : ℤ × ℤ → VideoResult
  result_of = video_result host name (base ++ codes ".avif")

  -- `process_named`, with the suffix stripped.
  abbrev moved : Text → M VideoResult
  unfolding join
  moved input =
      move_video input video_file
      >> video_thumbnail host video_file frame_file thumbnail_file
      >> (get_dimensions host video_file >>= λ size. pure (result_of size))

  moved_lem : (input : Text) → process_named host input dirs name ext ≡ moved input
  unfolding process_named join strip_suffix
  moved_lem input =
      ap
        (λ b.
          move_video input video_file
          >> video_thumbnail host video_file (join dirs.tmp (b ++ codes ".jpg"))
              (join dirs.thumbnail (b ++ codes ".avif"))
          >> (get_dimensions host video_file >>= λ size.
              pure (video_result host name (b ++ codes ".avif") size)))
        base_eq

  thumbnail-Writes :
      frame_file ≢ thumbnail_file
      → Writes thumbnail_file (video_thumbnail host video_file frame_file thumbnail_file)
  unfolding video_thumbnail join
  thumbnail-Writes ne =
      let decoded = open_image host (codes "decode video frame") frame_file in
      bind-Writes thumbnail_file (extract_video_frame host video_file frame_file)
        (λ _. decoded >>= (create_thumbnail host thumbnail_file) >>= λ size.
          ignore (remove_file frame_file))
        λ _.
          bind-Writes_first thumbnail_file (decoded >>= create_thumbnail host thumbnail_file)
            (λ size. ignore (remove_file frame_file))
            (bind-Writes thumbnail_file decoded (create_thumbnail host thumbnail_file)
              (create_thumbnail-Writes host thumbnail_file))
            λ size.
              ignore-Keeps (λ w. Present thumbnail_file w.files) (remove_file frame_file)
                (remove_file-Keeps (present-Footprint thumbnail_file) frame_file ne)

  abbrev filed : Text → M (Unit {0})
  unfolding join
  filed input =
      move_video input video_file >> video_thumbnail host video_file frame_file thumbnail_file

  moved-IsMoved :
      (input : Text) (w : World) (r : VideoResult)
      → AreDistinct input video_file frame_file thumbnail_file
      → (moved input w).0 ≡ ok r
      → IsMoved dirs base ext (moved input w).1 r
  unfolding join
  moved-IsMoved input w r apart h =
      let finish =
        λ (_ : Unit {0}). get_dimensions host video_file >>= λ size. pure (result_of size) in
      let video =
        bind-Writes_first video_file (move_video input video_file)
          (λ _. video_thumbnail host video_file frame_file thumbnail_file)
          (move_video-Writes input video_file apart.input_video)
          (λ _.
            video_thumbnail-Keeps host (present-Footprint video_file) video_file frame_file
              thumbnail_file apart.frame_video apart.thumbnail_video) in
      let thumbnail =
        bind-Writes thumbnail_file (move_video input video_file)
          (λ _. video_thumbnail host video_file frame_file thumbnail_file)
          (λ _. thumbnail-Writes apart.frame_thumbnail) in
      let (u, e, g, s) = bind-ok (filed input) finish w r h in
      let (size, e', g', s') =
        bind-ok (get_dimensions host video_file) (λ size. pure (result_of size)) (filed input w).1 r
          g in
      subst (λ x. IsMoved dirs base ext x.1 r) (sym (s ∙ s'))
        (subst (IsMoved dirs base ext (get_dimensions host video_file (filed input w).1).1)
          (is_result g')
          (record {
            video_name = refl;
            thumbnail_name = refl;
            has_video =
                get_dimensions-Keeps host (present-Footprint video_file) video_file
                  (filed input w).1 (video w u e);
            has_thumbnail =
                get_dimensions-Keeps host (present-Footprint thumbnail_file) video_file
                  (filed input w).1 (thumbnail w u e);
          }))
    where
      is_result : {x y : VideoResult} → ◌≡◌ {A = Result VideoResult} (ok x) (ok y) → x ≡ y
      is_result h = cc

-- Whichever of its calls fail: if `process_video` succeeds, then the video and its thumbnail are there,
-- the video under the new name with the extension of the input, the thumbnail under it with `.avif`.
-- The file is there also if it could not be renamed and was copied.
pub process_video-IsMoved :
    (host : Host) (input : Text) (dirs : Directories) (w : World) (r : VideoResult)
    → AreDistinct input
        (video_file host dirs (host.uuid w) (video_extension host input))
        (frame_file host dirs (host.uuid w) (video_extension host input))
        (thumbnail_file host dirs (host.uuid w) (video_extension host input))
    → (process_video host input dirs w).0 ≡ ok r
    → IsMoved dirs (host.uuid w) (video_extension host input) (process_video host input dirs w).1 r
unfolding process_video extension
process_video-IsMoved host input dirs w r apart h =
    let base = host.uuid w in
    let ext = video_extension host input in
    subst (λ m. IsMoved dirs base ext (m w).1 r) (sym (moved_lem host dirs base ext input))
      (moved-IsMoved host dirs base ext input w r apart
        (ap (λ m. (m w).0) (sym (moved_lem host dirs base ext input)) ∙ h))
