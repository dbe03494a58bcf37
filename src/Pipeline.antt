-- ===== src/Pipeline.antt =====
-- What the queues (src/worker/src/queue.rs) call of the media pipeline
-- (src/worker/src/processing.rs): its results, and its three entry points with the laws that the
-- queues' theorems rest on.
use ginbar.Prelude.{ℕ, ◌≡◌, ◌≢◌, true, none, [], Text}
use ginbar.Prelude.Int.{ℤ}
use ginbar.World.{World, M, ok, hung}
use ginbar.World.FileSystem.{file_at, is_file}
use ginbar.Paths.{Directories, join}

-- The four components of a perceptual hash, each the 64-bit pattern of an `i64`.
abbrev pub PHash : Type 0
PHash = ℕ × ℕ × ℕ × ℕ

pub record ImageResult : Type 0 where
  pub filename : Text
  pub thumbnail_filename : Text
  pub uploaded_filename : Text
  pub p_hash : PHash
  pub width : ℤ
  pub height : ℤ

pub record RegenerateResult : Type 0 where
  pub new_filename : Text
  pub new_thumbnail_filename : Text
  pub p_hash : PHash
  pub width : ℤ
  pub height : ℤ

pub record VideoResult : Type 0 where
  pub filename : Text
  pub thumbnail_filename : Text
  pub width : ℤ
  pub height : ℤ

-- `regenerate_image` works on files alone, removes none that it found, and on success has written an
-- image under a name that was free.
pub record Regenerator (dirs : Directories) : Type 0 where
  pub run : Text → M RegenerateResult
  pub same_posts : (src : Text) (w : World) → (run src w).1.posts ≡ w.posts
  pub same_redis : (src : Text) (w : World) → (run src w).1.redis ≡ w.redis
  pub same_script : (src : Text) (w : World) → w.script ≡ [] → (run src w).1.script ≡ []
  pub kept :
      (src path : Text) (w : World)
      → is_file (file_at path w.files) ≡ true
      → is_file (file_at path (run src w).1.files) ≡ true
  pub written :
      (src : Text) (w : World) (r : RegenerateResult)
      → (run src w).0 ≡ ok r
      → is_file (file_at (join dirs.image r.new_filename) (run src w).1.files) ≡ true
  pub fresh :
      (src : Text) (w : World) (r : RegenerateResult)
      → (run src w).0 ≡ ok r
      → file_at (join dirs.image r.new_filename) w.files ≡ none

-- `process_image` and `process_video` work on files alone.
pub record Processor (Res : Type 0) : Type 0 where
  pub run : Text → M Res
  pub same_posts : (input : Text) (w : World) → (run input w).1.posts ≡ w.posts
  pub same_script : (input : Text) (w : World) → w.script ≡ [] → (run input w).1.script ≡ []
  -- No call of it is left unanswered where none is going to fail.
  pub ends : (input : Text) (w : World) → w.script ≡ [] → (run input w).0 ≢ hung
