-- ===== src/Queue/Calm.antt =====
-- Processing a post where no call fails: `process_downloaded_post` of src/worker/src/queue.rs.
use ginbar.Prelude.{
  ℕ, ◌≡◌, refl, ap, subst, ◌∙◌, ◌≢◌, Bool, true, false, none, List, [], Text, text_eq_refl, arith,
  if◌then◌else◌,
}
use ginbar.Database.{Post, delete_dirty_post}
use ginbar.World.{
  pure, Error, unsupported, M, World, Result, ok, err, hung, ignore, after, caught, decoding, ◌>>◌,
}
use ginbar.World.FileSystem.{file_at, erase, file_at-erase, Files}
use ginbar.Paths.{Directories}
use ginbar.Media.{FileType, classify_file}
use ginbar.Media
use ginbar.Pipeline.{ImageResult, VideoResult, Processor}
use ginbar.World.Calls.{remove_file}
use ginbar.Queue.Active.{enter_phase}
use ginbar.Queue.Working.{
  Worked, did, broke, refused_twin, calm, calm-same, image-Worked, video-Worked,
}
use ginbar.Queue.Outcome.{Finalized, delete_dirty_post-twice}
use ginbar.Queue.{
  DownloadedPost, process_image_post, process_video_post, remove_temp, conclude, finish_post,
  process_as, process_downloaded_post, reject,
}

-- Where no call fails, a post ends well with its row finalized, or badly with its row off the list.
pub data Concluded (id : ℕ) (t : List Post) (r : Result (Unit {0}) × World) : Type 0 where
  stored : r.0 ≡ ok tt → Finalized id t r.1.posts → Concluded id t r
  discarded : (e : Error) → r.0 ≡ err e → r.1.posts ≡ delete_dirty_post id t → Concluded id t r

-- What `finish_post` adds: the row goes after an error, and the temporary file goes.
record Finished (id : ℕ) (path : Text) (is_temp : Bool) (t : List Post)
    (r : Result (Unit {0}) × World) : Type 0 where
  concluded : Concluded id t r
  cleaned : is_temp ≡ true → file_at path r.1.files ≡ none

file_at-erase_same : (path : Text) (fs : Files) → file_at path (erase path fs) ≡ none
file_at-erase_same path fs = ground (arith, file_at-erase path path fs, text_eq_refl path)

abbrev tidy : Bool → Text → M (Unit {0})
tidy is_temp path = if is_temp then ignore (remove_file path) else pure tt

got-Finished :
    (id : ℕ) (path : Text) (b : Bool) (t : List Post) (v : World)
    → Finalized id t v.posts
    → Finished id path b t ((tidy b path >> pure tt) (calm v))
got-Finished id path true t v f = record {
  concluded = stored refl f;
  cleaned = λ _. file_at-erase_same path v.files;
}
got-Finished id path false t v f = record { concluded = stored refl f; cleaned = λ e. cc }

failed-Finished :
    (id : ℕ) (path : Text) (b : Bool) (t : List Post) (e : Error) (v : World)
    → delete_dirty_post id v.posts ≡ delete_dirty_post id t
    → Finished id path b t ((tidy b path >> reject id e) (calm v))
failed-Finished id path true t e v p = record {
  concluded = discarded e refl p;
  cleaned = λ _. file_at-erase_same path v.files;
}
failed-Finished id path false t e v p = record { concluded = discarded e refl p; cleaned = λ q. cc }

module _ (item : DownloadedPost) (t : List Post) where
  abbrev Ends : M (Unit {0}) → World → Type 0
  Ends m v = Finished item.post.id item.path item.is_temp t (m v)

  finished :
      (r : Result (Unit {0}) × World)
      → Worked item.post.id t r
      → Finished item.post.id item.path item.is_temp t
          (after (λ x. remove_temp item >> conclude item x) (caught r))
  unfolding remove_temp conclude
  finished (ok u, v) (did e f s) =
      subst (Ends (tidy item.is_temp item.path >> pure tt)) (calm-same v s)
        (got-Finished item.post.id item.path item.is_temp t v f)
  finished (err x, v) (did e f s) = cc
  finished (hung, v) (did e f s) = cc
  finished (err x, v) (broke y e p s) =
      subst (Ends (tidy item.is_temp item.path >> reject item.post.id x)) (calm-same v s) (
        failed-Finished item.post.id item.path item.is_temp t x v
          (ap (delete_dirty_post item.post.id) p))
  finished (ok u, v) (broke y e p s) = cc
  finished (hung, v) (broke y e p s) = cc
  finished (err x, v) (refused_twin y e p s) =
      subst (Ends (tidy item.is_temp item.path >> reject item.post.id x)) (calm-same v s) (
        failed-Finished item.post.id item.path item.is_temp t x v
          (ap (delete_dirty_post item.post.id) p ∙ delete_dirty_post-twice item.post.id t))
  finished (ok u, v) (refused_twin y e p s) = cc
  finished (hung, v) (refused_twin y e p s) = cc

  finish_post-Finished :
      (work : M (Unit {0})) (w : World)
      → Worked item.post.id t (work w)
      → Finished item.post.id item.path item.is_temp t (finish_post item work w)
  unfolding finish_post
  finish_post-Finished work w k = finished (work w) k

module _ (images : Processor ImageResult) (videos : Processor VideoResult) (dirs : Directories)
    (item : DownloadedPost) where
  process_as-Concluded :
      (type : FileType) (w : World)
      → Concluded item.post.id w.posts (process_as images videos dirs item type (calm w))
  unfolding process_as
  process_as-Concluded Media.image w =
      (finish_post-Finished item w.posts (process_image_post images dirs item.post item.path)
        (calm w) (image-Worked images videos dirs item.post item.path w)).concluded
  process_as-Concluded (Media.video mime) w =
      (finish_post-Finished item w.posts (process_video_post videos item.post item.path mime)
        (calm w) (video-Worked images videos dirs item.post item.path mime w)).concluded
  process_as-Concluded (Media.unknown mime) w = discarded (unsupported mime) refl refl

  process_as-cleans :
      (type : FileType) (w : World)
      → ((mime : Text) → type ≢ Media.unknown mime)
      → item.is_temp ≡ true
      → file_at item.path (process_as images videos dirs item type (calm w)).1.files ≡ none
  unfolding process_as
  process_as-cleans Media.image w known temp =
      (finish_post-Finished item w.posts (process_image_post images dirs item.post item.path)
          (calm w) (image-Worked images videos dirs item.post item.path w)).cleaned
        temp
  process_as-cleans (Media.video mime) w known temp =
      (finish_post-Finished item w.posts (process_video_post videos item.post item.path mime)
          (calm w) (video-Worked images videos dirs item.post item.path mime w)).cleaned
        temp
  process_as-cleans (Media.unknown mime) w known temp = elim (known mime refl) [ ]

  -- Where no call fails, processing a post comes to an end: it returns `Ok` and the row with the post's
  -- id is finalized, or it returns an error and that row is deleted if it is dirty.
  pub process_downloaded_post-Concluded :
      (w : World)
      → w.script ≡ []
      → Concluded item.post.id w.posts (process_downloaded_post images videos dirs item w)
  unfolding process_downloaded_post
  process_downloaded_post-Concluded w h =
      subst
        (λ v. Concluded item.post.id v.posts (process_downloaded_post images videos dirs item v))
        (calm-same w h)
        (process_as-Concluded (classify_file item.path)
          (record w { active = enter_phase item.post.id decoding w.active }))

  -- Where no call fails, the downloaded file of a post of a known type is gone after the processing.
  pub process_downloaded_post-cleans :
      (w : World)
      → w.script ≡ []
      → ((mime : Text) → classify_file item.path ≢ Media.unknown mime)
      → item.is_temp ≡ true
      → file_at item.path (process_downloaded_post images videos dirs item w).1.files ≡ none
  unfolding process_downloaded_post
  process_downloaded_post-cleans w h known temp =
      subst
        (λ v. file_at item.path (process_downloaded_post images videos dirs item v).1.files ≡ none)
        (calm-same w h)
        (process_as-cleans (classify_file item.path)
          (record w { active = enter_phase item.post.id decoding w.active }) known temp)

  unknown-files :
      (type : FileType) (mime : Text) (w : World)
      → type ≡ Media.unknown mime
      → (process_as images videos dirs item type w).1.files ≡ w.files
  unfolding process_as
  unknown-files Media.image mime w e = cc
  unknown-files (Media.video m) mime w e = cc
  unknown-files (Media.unknown m) mime w e = ground arith

  -- A post of an unknown type leaves every file where it is, the temporary one too, whichever calls
  -- fail.
  pub process_downloaded_post-unknown :
      (mime : Text) (w : World)
      → classify_file item.path ≡ Media.unknown mime
      → (process_downloaded_post images videos dirs item w).1.files ≡ w.files
  unfolding process_downloaded_post
  process_downloaded_post-unknown mime w e =
      unknown-files (classify_file item.path) mime
        (record w { active = enter_phase item.post.id decoding w.active }) e
