-- ===== src/Queue/Success.antt =====
-- What it means that a post was processed: `process_downloaded_post` of src/worker/src/queue.rs
-- returned `Ok`, whichever of its calls failed on the way.
use ginbar.Prelude.{ℕ, ◌≡◌, refl, sym, ap, ◌∙◌, List, [], ◌∷◌, Text, arith, length}
use ginbar.Database.{
  Post, DirtyPost, DuplicateRow, FinalizeParams, finalize_post, get_possible_duplicates,
}
use ginbar.World.{
  Error, duplicate, fail, M, World, ok, Try, got, failed, attempt, ignore, encoding, decoding,
  dedup_check, finalizing, processing_video, ◌>>=◌, ◌>>◌,
}
use ginbar.World.Calls.{nothing, db_delete_dirty, db_finalize}
use ginbar.World.Rules.{bind-ok, call-ok, call-answer, attempt-got, attempt-world}
use ginbar.Paths.{Directories}
use ginbar.Media.{FileType, classify_file}
use ginbar.Media
use ginbar.Pipeline.{ImageResult, VideoResult, Processor}
use ginbar.Queue.Active.{enter_phase}
use ginbar.Queue.{
  DownloadedPost, real_dups, settle_image, process_image_post, process_video_post, remove_temp,
  conclude, finish_post, process_as, process_downloaded_post, report_duplicates, discard_files,
  reject, find_duplicates, finalize_image, finalize_video,
}

reject-fails : (id : ℕ) (e : Error) (w : World) → (reject id e w).0 ≡ ok tt → ⊥
reject-fails id e w h =
    let step = bind-ok (ignore (db_delete_dirty id)) (λ _. fail e) w tt h in cc (step.2)

db_finalize-posts :
    (f : FinalizeParams) (w : World)
    → (db_finalize f w).0 ≡ ok tt
    → (db_finalize f w).1.posts ≡ finalize_post f w.posts
db_finalize-posts f w h =
    ap (λ u. u.posts) (call-ok nothing (λ u. record u { posts = finalize_post f u.posts }) w tt h)

-- An image's row is finalized only where no duplicate was found.
settle_image-ok :
    (dirs : Directories) (post : DirtyPost) (res : ImageResult) (dups : List DuplicateRow)
    (w : World)
    → (settle_image dirs post res dups w).0 ≡ ok tt
    → (dups ≡ [])
      × ((settle_image dirs post res dups w).1.posts
          ≡ finalize_post (finalize_image post res) w.posts)
unfolding settle_image
settle_image-ok dirs post res [] w h = (
  refl,
  db_finalize-posts (finalize_image post res)
      (record w { active = enter_phase post.id finalizing w.active }) h,
)
settle_image-ok dirs post res (d ∷ dups) w h =
    let e = duplicate (length (d ∷ dups)) in
    let s =
      bind-ok (discard_files dirs res)
        (λ _. report_duplicates post.id (d ∷ dups) >> reject post.id e) w tt h in
    let s' =
      bind-ok (report_duplicates post.id (d ∷ dups)) (λ _. reject post.id e)
        (discard_files dirs res w).1 tt s.2 in
    elim (reject-fails post.id e
      (report_duplicates post.id (d ∷ dups) (discard_files dirs res w).1).1 s'.2) [ ]

-- No post but `id` that is processed and not deleted has a hash near the one that `f` stores.
abbrev pub IsUnmatched : ℕ → FinalizeParams → List Post → Type 0
IsUnmatched id f t =
    real_dups id (get_possible_duplicates f.p_hash_0 f.p_hash_1 f.p_hash_2 f.p_hash_3 t) ≡ []

find_duplicates-ok :
    (res : ImageResult) (w : World) (dups : List DuplicateRow)
    → (find_duplicates res.p_hash w).0 ≡ ok dups
    → (dups ≡ get_possible_duplicates res.p_hash.0 res.p_hash.1 res.p_hash.2 res.p_hash.3 w.posts)
      × ((find_duplicates res.p_hash w).1.posts ≡ w.posts)
find_duplicates-ok res w dups h =
    let query = λ (v : World).
      get_possible_duplicates res.p_hash.0 res.p_hash.1 res.p_hash.2 res.p_hash.3 v.posts in
    (cc (call-answer query (λ v. v) w dups h), ap (λ v. v.posts) (call-ok query (λ v. v) w dups h))

process_image_post-ok :
    (images : Processor ImageResult) (dirs : Directories) (post : DirtyPost) (input : Text)
    (w : World)
    → (process_image_post images dirs post input w).0 ≡ ok tt
    → (f : FinalizeParams) × (f.id ≡ post.id)
      × ((process_image_post images dirs post input w).1.posts ≡ finalize_post f w.posts)
      × IsUnmatched post.id f w.posts
unfolding process_image_post
process_image_post-ok images dirs post input w h =
    let v = record w { active = enter_phase post.id encoding w.active } in
    let rest = λ (res : ImageResult).
      find_duplicates res.p_hash >>= λ dups. settle_image dirs post res (real_dups post.id dups) in
    let s =
      bind-ok (images.run input)
        (λ res u. rest res (record u { active = enter_phase post.id dedup_check u.active })) v tt
        h in
    let res = s.0 in
    let u = (images.run input v).1 in
    let x = record u { active = enter_phase post.id dedup_check u.active } in
    let s' =
      bind-ok (find_duplicates res.p_hash)
        (λ dups. settle_image dirs post res (real_dups post.id dups)) x tt s.2 in
    let found = find_duplicates-ok res x s'.0 s'.1 in
    let last =
      settle_image-ok dirs post res (real_dups post.id s'.0) (find_duplicates res.p_hash x).1
        s'.2 in
    let same = images.same_posts input v in
    (
      finalize_image post res,
      refl,
      ap (λ r. r.1.posts) (s.3 ∙ s'.3)
          ∙ (last.1 ∙ ap (finalize_post (finalize_image post res)) (found.1 ∙ same)),
      ap
            (λ t.
              real_dups post.id
                (get_possible_duplicates res.p_hash.0 res.p_hash.1 res.p_hash.2 res.p_hash.3 t))
            (sym same)
          ∙ (ap (real_dups post.id) (sym found.0) ∙ last.0),
    )

process_video_post-ok :
    (videos : Processor VideoResult) (post : DirtyPost) (input mime : Text) (w : World)
    → (process_video_post videos post input mime w).0 ≡ ok tt
    → (f : FinalizeParams) × (f.id ≡ post.id)
      × ((process_video_post videos post input mime w).1.posts ≡ finalize_post f w.posts)
unfolding process_video_post
process_video_post-ok videos post input mime w h =
    let v = record w { active = enter_phase post.id processing_video w.active } in
    let s =
      bind-ok (videos.run input)
        (λ res u.
          db_finalize (finalize_video post input mime res)
            (record u { active = enter_phase post.id finalizing u.active }))
        v tt h in
    let u = (videos.run input v).1 in
    let f = finalize_video post input mime s.0 in
    (
      f,
      refl,
      ap (λ r. r.1.posts) s.3
          ∙ (db_finalize-posts f (record u { active = enter_phase post.id finalizing u.active }) s.2
              ∙ ap (finalize_post f) (videos.same_posts input v)),
    )

conclude-ok :
    (item : DownloadedPost) (r : Try (Unit {0})) (w : World)
    → (conclude item r w).0 ≡ ok tt
    → (r ≡ got tt) × ((conclude item r w).1.posts ≡ w.posts)
unfolding conclude
conclude-ok item (got u) w h = (refl, refl)
conclude-ok item (failed e) w h = elim (reject-fails item.post.id e w h) [ ]

remove_temp-posts : (item : DownloadedPost) (w : World) → (remove_temp item w).1.posts ≡ w.posts
unfolding remove_temp
remove_temp-posts item w = ground arith

-- A post whose processing ends well was worked on well, and the row stays as that left it.
finish_post-ok :
    (item : DownloadedPost) (work : M (Unit {0})) (w : World)
    → (finish_post item work w).0 ≡ ok tt
    → ((work w).0 ≡ ok tt) × ((finish_post item work w).1.posts ≡ (work w).1.posts)
unfolding finish_post
finish_post-ok item work w h =
    let s = bind-ok (attempt work) (λ r. remove_temp item >> conclude item r) w tt h in
    let u = (attempt work w).1 in
    let s' = bind-ok (remove_temp item) (λ _. conclude item s.0) u tt s.2 in
    let last = conclude-ok item s.0 (remove_temp item u).1 s'.2 in
    (
      attempt-got work w tt (s.1 ∙ ap ok last.0),
      ap (λ r. r.1.posts) (s.3 ∙ s'.3)
          ∙ (last.1 ∙ (remove_temp-posts item u ∙ ap (λ v. v.posts) (attempt-world work w))),
    )

-- What a success means: the post's row was finalized, and an image then had no duplicate.
abbrev pub Processed : ℕ → FileType → List Post → List Post → Type 0
Processed id type t u =
    (f : FinalizeParams) × (f.id ≡ id)
    × (u ≡ finalize_post f t)
    × (type ≡ Media.image → IsUnmatched id f t)

process_as-ok :
    (images : Processor ImageResult) (videos : Processor VideoResult) (dirs : Directories)
    (item : DownloadedPost) (type : FileType) (w : World)
    → (process_as images videos dirs item type w).0 ≡ ok tt
    → Processed item.post.id type w.posts (process_as images videos dirs item type w).1.posts
unfolding process_as
process_as-ok images videos dirs item Media.image w h =
    let work = process_image_post images dirs item.post item.path in
    let s = finish_post-ok item work w h in
    let done = process_image_post-ok images dirs item.post item.path w s.0 in
    (done.0, done.1, s.1 ∙ done.2, λ _. done.3)
process_as-ok images videos dirs item (Media.video mime) w h =
    let work = process_video_post videos item.post item.path mime in
    let s = finish_post-ok item work w h in
    let done = process_video_post-ok videos item.post item.path mime w s.0 in
    (done.0, done.1, s.1 ∙ done.2, λ e. cc)
process_as-ok images videos dirs item (Media.unknown mime) w h =
    elim (reject-fails item.post.id _ w h) [ ]

-- Whichever calls fail or never answer, if the processing of a post returns `Ok`, then the table is the
-- one before with the row of the post's id finalized; and if the file is an image, then the hash that
-- it was finalized with has no duplicate in the table before, but for the post itself and for posts
-- that are not processed.
pub process_downloaded_post-ok :
    (images : Processor ImageResult) (videos : Processor VideoResult) (dirs : Directories)
    (item : DownloadedPost) (w : World)
    → (process_downloaded_post images videos dirs item w).0 ≡ ok tt
    → Processed item.post.id
        (classify_file item.path)
        w.posts
        (process_downloaded_post images videos dirs item w).1.posts
unfolding process_downloaded_post
process_downloaded_post-ok images videos dirs item w =
    process_as-ok images videos dirs item (classify_file item.path)
      (record w { active = enter_phase item.post.id decoding w.active })
