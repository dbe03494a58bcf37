-- ===== src/Queue/Outcome.antt =====
-- What processing one post leaves in the database: `process_downloaded_post` of
-- src/worker/src/queue.rs, whichever of its calls fail or never answer.
use ginbar.Prelude.{ℕ, ◌≡◌, refl, sym, ap, subst, ◌∙◌, List, [], ◌∷◌, Text, arith, length}
use ginbar.Database.{
  Post, DirtyPost, DuplicateRow, FinalizeParams, finalize_post, delete_dirty_post,
  get_possible_duplicates,
}
use ginbar.Database.Dirty.{delete_dirty_post-finalize_post}
use ginbar.World.{
  Error, duplicate, unsupported, fail, ◌>>◌, World, M, Try, got, failed, attempt, ignore, pure,
  decoding, encoding, dedup_check, finalizing, processing_video,
}
use ginbar.World.FileSystem.{erase}
use ginbar.Queue.Active.{enter_phase}
use ginbar.World.Calls.{nothing, remove_file, db_delete_dirty, db_finalize}
use ginbar.World.Rules.{
  Keeps, bind_ends, if_Keeps, attempt-world, bind-Keeps, bind_moves, call_moves, ignore-Keeps,
  call-Keeps,
}
use ginbar.Paths.{Directories}
use ginbar.Media.{FileType, classify_file}
use ginbar.Media
use ginbar.Pipeline.{ImageResult, VideoResult, Processor}
use ginbar.Queue.{
  DownloadedPost, real_dups, settle_image, process_image_post, process_video_post, remove_temp,
  conclude, finish_post, process_as, process_downloaded_post, announce_if, report_duplicates,
  discard_files, reject, find_duplicates, finalize_image, finalize_video,
}

pub delete_dirty_post-twice :
    (id : ℕ) (t : List Post)
    → delete_dirty_post id (delete_dirty_post id t) ≡ delete_dirty_post id t
unfolding delete_dirty_post
delete_dirty_post-twice id [] = refl
delete_dirty_post-twice id (p ∷ t) = ground (arith, delete_dirty_post-twice id t)

-- The table `t` with the row `id` finalized.
abbrev pub Finalized : ℕ → List Post → List Post → Type 0
Finalized id t u = (f : FinalizeParams) × (f.id ≡ id) × (u ≡ finalize_post f t)

-- The three ways in which a post's processing may leave the table.
pub data Settled (id : ℕ) (t u : List Post) : Type 0 where
  untouched : u ≡ t → Settled id t u
  finalized : Finalized id t u → Settled id t u
  deleted : u ≡ delete_dirty_post id t → Settled id t u

Settled-delete : (id : ℕ) (t u : List Post) → Settled id t u → Settled id t (delete_dirty_post id u)
Settled-delete id t u (untouched e) = deleted (ap (delete_dirty_post id) e)
Settled-delete id t u (finalized h) = finalized (
  h.0,
  h.1,
  ap (delete_dirty_post id) h.2
      ∙ (sym (ap (λ i. delete_dirty_post i (finalize_post h.0 t)) h.1)
          ∙ (delete_dirty_post-finalize_post h.0 t)),
)
Settled-delete id t u (deleted e) =
    deleted (ap (delete_dirty_post id) e ∙ delete_dirty_post-twice id t)

module _ (id : ℕ) (t : List Post) where
  abbrev pub SamePosts : World → Type 0
  SamePosts w = w.posts ≡ t

  abbrev pub SettledPosts : World → Type 0
  SettledPosts w = Settled id t w.posts

  pub delete-SettledPosts : Keeps SettledPosts (ignore (db_delete_dirty id))
  delete-SettledPosts = ignore-Keeps SettledPosts (db_delete_dirty id) (
      call-Keeps SettledPosts nothing (λ w. record w { posts = delete_dirty_post id w.posts })
        (λ w os s. s) (λ w s. Settled-delete id t w.posts s))

  report_duplicates-SamePosts :
      (dups : List DuplicateRow) → Keeps SamePosts (report_duplicates id dups)
  unfolding report_duplicates announce_if
  report_duplicates-SamePosts dups = λ w h. ground arith

  discard_files-SamePosts :
      (dirs : Directories) (res : ImageResult) → Keeps SamePosts (discard_files dirs res)
  unfolding discard_files
  discard_files-SamePosts dirs res = λ w h. ground arith

  reject-SettledPosts : (e : Error) → Keeps SettledPosts (reject id e)
  reject-SettledPosts e =
      bind-Keeps SettledPosts (ignore (db_delete_dirty id)) (λ _. fail e) delete-SettledPosts
        (λ _ w s. s)

module _ (images : Processor ImageResult) (videos : Processor VideoResult) (dirs : Directories)
    (t : List Post) where
  db_finalize-SettledPosts :
      (f : FinalizeParams) (w : World)
      → SamePosts f.id t w
      → SettledPosts f.id t (db_finalize f w).1
  db_finalize-SettledPosts f =
      call_moves (SamePosts f.id t) (SettledPosts f.id t) nothing
        (λ w. record w { posts = finalize_post f w.posts }) (λ w os h. h) (λ w h. untouched h)
        λ w h. finalized (f, refl, ap (finalize_post f) h)

  settle_image-SettledPosts :
      (post : DirtyPost) (res : ImageResult) (dups : List DuplicateRow) (w : World)
      → SamePosts post.id t w
      → SettledPosts post.id t (settle_image dirs post res dups w).1
  unfolding settle_image
  settle_image-SettledPosts post res [] w h =
      db_finalize-SettledPosts (finalize_image post res)
        (record w { active = enter_phase post.id finalizing w.active }) h
  settle_image-SettledPosts post res (d ∷ dups) w h =
      let P = SamePosts post.id t in
      let Q = SettledPosts post.id t in
      let refuse = reject post.id (duplicate (length (d ∷ dups))) in
      bind_moves P Q (discard_files dirs res) (λ _. report_duplicates post.id (d ∷ dups) >> refuse)
        (λ u e. untouched e) (discard_files-SamePosts post.id t dirs res)
        (λ _.
          bind_moves P Q (report_duplicates post.id (d ∷ dups)) (λ _. refuse) (λ u e. untouched e)
            (report_duplicates-SamePosts post.id t (d ∷ dups))
            λ _ u e. reject-SettledPosts post.id t (duplicate (length (d ∷ dups))) u (untouched e))
        w h

  process_image_post-SettledPosts :
      (post : DirtyPost) (input : Text) (w : World)
      → SamePosts post.id t w
      → SettledPosts post.id t (process_image_post images dirs post input w).1
  unfolding process_image_post
  process_image_post-SettledPosts post input w h =
      let P = SamePosts post.id t in
      let Q = SettledPosts post.id t in
      let weak = λ (u : World) (e : P u). untouched e in
      bind_moves P Q (images.run input) _ weak (λ u e. images.same_posts input u ∙ e)
        (λ res u e.
          bind_moves P Q (find_duplicates res.p_hash)
            (λ dups. settle_image dirs post res (real_dups post.id dups)) weak
            (call-Keeps P
              (λ v.
                get_possible_duplicates res.p_hash.0 res.p_hash.1 res.p_hash.2 res.p_hash.3 v.posts)
              (λ v. v) (λ v os e. e) (λ v e. e))
            (λ dups v e. settle_image-SettledPosts post res (real_dups post.id dups) v e)
            (record u { active = enter_phase post.id dedup_check u.active }) e)
        (record w { active = enter_phase post.id encoding w.active }) h

  process_video_post-SettledPosts :
      (post : DirtyPost) (input mime : Text) (w : World)
      → SamePosts post.id t w
      → SettledPosts post.id t (process_video_post videos post input mime w).1
  unfolding process_video_post
  process_video_post-SettledPosts post input mime w h =
      let P = SamePosts post.id t in
      let Q = SettledPosts post.id t in
      bind_moves P Q (videos.run input) _ (λ u e. untouched e)
        (λ u e. videos.same_posts input u ∙ e)
        (λ res u e.
          db_finalize-SettledPosts (finalize_video post input mime res)
            (record u { active = enter_phase post.id finalizing u.active }) e)
        (record w { active = enter_phase post.id processing_video w.active }) h

  remove_temp-SettledPosts :
      (id : ℕ) (item : DownloadedPost) → Keeps (SettledPosts id t) (remove_temp item)
  unfolding remove_temp
  remove_temp-SettledPosts id item =
      if_Keeps (SettledPosts id t) item.is_temp (ignore (remove_file item.path)) (pure tt)
        (ignore-Keeps (SettledPosts id t) (remove_file item.path) (
          call-Keeps (SettledPosts id t) nothing (λ w. record w { files = erase item.path w.files })
            (λ w os s. s) (λ w s. s)))
        (λ w s. s)

  conclude-SettledPosts :
      (item : DownloadedPost) (r : Try (Unit {0}))
      → Keeps (SettledPosts item.post.id t) (conclude item r)
  unfolding conclude
  conclude-SettledPosts item (got u) = λ w s. s
  conclude-SettledPosts item (failed e) = reject-SettledPosts item.post.id t e

  finish_post-SettledPosts :
      (item : DownloadedPost) (work : M (Unit {0}))
      → ((w : World) → SamePosts item.post.id t w → SettledPosts item.post.id t (work w).1)
      → (w : World) → SamePosts item.post.id t w
      → SettledPosts item.post.id t (finish_post item work w).1
  unfolding finish_post
  finish_post-SettledPosts item work k w h =
      let Q = SettledPosts item.post.id t in
      bind_ends Q (attempt work) _ w (subst Q (sym (attempt-world work w)) (k w h)) λ r _.
        bind-Keeps Q (remove_temp item) _ (remove_temp-SettledPosts item.post.id item)
          (λ _. conclude-SettledPosts item r) (attempt work w).1
          (subst Q (sym (attempt-world work w)) (k w h))

  process_as-SettledPosts :
      (item : DownloadedPost) (type : FileType) (w : World)
      → SamePosts item.post.id t w
      → SettledPosts item.post.id t (process_as images videos dirs item type w).1
  unfolding process_as
  process_as-SettledPosts item Media.image =
      finish_post-SettledPosts item _ (process_image_post-SettledPosts item.post item.path)
  process_as-SettledPosts item (Media.video mime) =
      finish_post-SettledPosts item _ (process_video_post-SettledPosts item.post item.path mime)
  process_as-SettledPosts item (Media.unknown mime) =
      λ w h. reject-SettledPosts item.post.id t (unsupported mime) w (untouched h)

-- Whichever calls fail or never answer, processing a post leaves the table as it was, or changed by
-- exactly one query: the row with the post's id finalized, or deleted as dirty.
pub process_downloaded_post-Settled :
    (images : Processor ImageResult) (videos : Processor VideoResult) (dirs : Directories)
    (item : DownloadedPost) (w : World)
    → Settled item.post.id w.posts (process_downloaded_post images videos dirs item w).1.posts
unfolding process_downloaded_post
process_downloaded_post-Settled images videos dirs item w =
    process_as-SettledPosts images videos dirs w.posts item (classify_file item.path)
      (record w { active = enter_phase item.post.id decoding w.active }) refl
