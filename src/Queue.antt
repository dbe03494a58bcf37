-- ===== src/Queue.antt =====
-- The processing queue of src/worker/src/queue.rs: one post from its source to its row in the
-- database. The pipeline's `process_image` and `process_video` are parameters with their laws.
pub mod Active
pub mod Outcome
pub mod Success
pub mod Working
pub mod Calm
pub mod State
pub mod Batch
pub mod Counters
pub mod Once
pub mod Live
pub mod Progress
use ginbar.Prelude.{
  ℕ, Bool, true, false, Option, none, some, List, [], ◌∷◌, ◌&&◌, not, Text, codes, ◌==◌, keep,
  length, if◌then◌else◌,
}
use ginbar.Database.{DirtyPost, DuplicateRow, FinalizeParams, get_possible_duplicates}
use ginbar.World.{
  World, Redis, M, Error, unsupported, no_source, duplicate, Result, Try, got, failed, downloading,
  decoding, encoding, dedup_check, finalizing, processing_video, pure, fail, attempt, ignore,
  with_context, call, ◌>>=◌, ◌>>◌,
}
use ginbar.World.Calls.{nothing, remove_file, connect, db_delete_dirty, db_finalize}
use ginbar.Paths.{Directories, join, file_name, text_or_default}
use ginbar.Media.{FileType, classify_file}
use ginbar.Media
use ginbar.Download.{Http, download_file, download_pr0gramm_file}
use ginbar.Pipeline.{PHash, ImageResult, VideoResult, Processor}
use Active.{set_phase}

pub record DownloadedPost : Type 0 where
  pub post : DirtyPost
  pub path : Text
  pub is_temp : Bool

-- `str::starts_with`
unfoldable pub starts_with : Text → Text → Bool
starts_with s [] = true
starts_with [] (c ∷ p) = false
starts_with (d ∷ s) (c ∷ p) = d == c && starts_with s p

abbrev pub pr0gramm_img_base : Text
pr0gramm_img_base = codes "https://img.pr0gramm.com/"

abbrev pub fetched : DirtyPost → Text → DownloadedPost
fetched post path = record { post = post; path = path; is_temp = true }

-- The source of a post without an upload, by its URL.
unfoldable pub resolve_url : Http → Directories → DirtyPost → Text → M DownloadedPost
resolve_url http dirs post [] = ignore (db_delete_dirty post.id) >>= (λ _. fail (no_source post.id))
resolve_url http dirs post (c ∷ url) = do
  path ← with_context (codes "download failed") (
      if starts_with (c ∷ url) pr0gramm_img_base
      then download_pr0gramm_file http (c ∷ url) dirs.tmp
      else download_file http (c ∷ url) dirs.tmp)
  pure (fetched post path)

unfoldable pub resolve_upload : Http → Directories → DirtyPost → Text → M DownloadedPost
unfolding resolve_url
resolve_upload http dirs post [] = resolve_url http dirs post post.url
resolve_upload http dirs post (c ∷ name) =
    pure (record { post = post; path = c ∷ name; is_temp = false })

unfoldable pub resolve_source : Http → Directories → DirtyPost → M DownloadedPost
unfolding resolve_upload
resolve_source http dirs post = resolve_upload http dirs post post.uploaded_filename

-- The rows that count as duplicates: other posts, and no post that still waits.
unfoldable pub real_dups : ℕ → List DuplicateRow → List DuplicateRow
real_dups id = keep (λ d. not (d.id == id) && not d.dirty)

abbrev pub finalize_image : DirtyPost → ImageResult → FinalizeParams
finalize_image post res = record {
  id = post.id;
  filename = res.filename;
  thumbnail_filename = res.thumbnail_filename;
  uploaded_filename = res.uploaded_filename;
  content_type = codes "image";
  p_hash_0 = res.p_hash.0;
  p_hash_1 = res.p_hash.1;
  p_hash_2 = res.p_hash.2;
  p_hash_3 = res.p_hash.3;
  width = res.width;
  height = res.height;
}

abbrev pub finalize_video : DirtyPost → Text → Text → VideoResult → FinalizeParams
finalize_video post input mime res = record {
  id = post.id;
  filename = res.filename;
  thumbnail_filename = res.thumbnail_filename;
  uploaded_filename = text_or_default (file_name input);
  content_type = mime;
  p_hash_0 = 0;
  p_hash_1 = 0;
  p_hash_2 = 0;
  p_hash_3 = 0;
  width = res.width;
  height = res.height;
}

-- SET EX of the duplicates under `dup:post:<id>`.
abbrev announce : ℕ → List DuplicateRow → M (Unit {0})
announce id dups =
    call nothing
      (λ w. record w { redis = record w.redis { dup_posts = (id, dups) ∷ w.redis.dup_posts } })

unfoldable pub announce_if : Try (Unit {0}) → ℕ → List DuplicateRow → M (Unit {0})
announce_if (got c) id dups = ignore (announce id dups)
announce_if (failed e) id dups = pure tt

unfoldable pub report_duplicates : ℕ → List DuplicateRow → M (Unit {0})
unfolding announce_if
report_duplicates id dups = attempt connect >>= (λ conn. announce_if conn id dups)

unfoldable pub discard_files : Directories → ImageResult → M (Unit {0})
discard_files dirs res =
    ignore (remove_file (join dirs.image res.filename))
    >> ignore (remove_file (join dirs.thumbnail res.thumbnail_filename))

-- The row goes, and the post's processing ends with an error.
abbrev pub reject : ℕ → Error → M (Unit {0})
reject id e = ignore (db_delete_dirty id) >>= (λ _. fail e)

-- The end of an image's processing, by the duplicates that were found.
unfoldable pub settle_image :
    Directories → DirtyPost → ImageResult → List DuplicateRow → M (Unit {0})
unfolding report_duplicates discard_files
settle_image dirs post res [] = do
  set_phase post.id finalizing
  db_finalize (finalize_image post res)
settle_image dirs post res (d ∷ dups) =
    discard_files dirs res
    >> (report_duplicates post.id (d ∷ dups) >> reject post.id (duplicate (length (d ∷ dups))))

abbrev pub find_duplicates : PHash → M (List DuplicateRow)
find_duplicates h = call (λ w. get_possible_duplicates h.0 h.1 h.2 h.3 w.posts) (λ w. w)

unfoldable pub process_image_post :
    Processor ImageResult → Directories → DirtyPost → Text → M (Unit {0})
unfolding settle_image
process_image_post images dirs post input = do
  set_phase post.id encoding
  res ← images.run input
  set_phase post.id dedup_check
  dups ← find_duplicates res.p_hash
  settle_image dirs post res (real_dups post.id dups)

unfoldable pub process_video_post : Processor VideoResult → DirtyPost → Text → Text → M (Unit {0})
process_video_post videos post input mime = do
  set_phase post.id processing_video
  res ← videos.run input
  set_phase post.id finalizing
  db_finalize (finalize_video post input mime res)

-- What follows a result: the temporary file goes, and after an error the row.
unfoldable pub remove_temp : DownloadedPost → M (Unit {0})
remove_temp item = if item.is_temp then ignore (remove_file item.path) else pure tt

unfoldable pub conclude : DownloadedPost → Try (Unit {0}) → M (Unit {0})
conclude item (got u) = pure tt
conclude item (failed e) = reject item.post.id e

unfoldable pub finish_post : DownloadedPost → M (Unit {0}) → M (Unit {0})
unfolding remove_temp conclude
finish_post item work = do result ← attempt work; remove_temp item; conclude item result

module _ (images : Processor ImageResult) (videos : Processor VideoResult)
    (dirs : Directories) where
  -- By the type of the file; an unknown type returns at once.
  unfoldable pub process_as : DownloadedPost → FileType → M (Unit {0})
  unfolding finish_post
  process_as item Media.image =
      finish_post item (process_image_post images dirs item.post item.path)
  process_as item (Media.video mime) =
      finish_post item (process_video_post videos item.post item.path mime)
  process_as item (Media.unknown mime) = reject item.post.id (unsupported mime)

  unfoldable pub process_downloaded_post : DownloadedPost → M (Unit {0})
  unfolding process_as
  process_downloaded_post item = do
    set_phase item.post.id decoding
    process_as item (classify_file item.path)
