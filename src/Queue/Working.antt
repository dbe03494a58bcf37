-- ===== src/Queue/Working.antt =====
-- The work on a post where no call fails: `process_image_post` and `process_video_post` of
-- src/worker/src/queue.rs.
use ginbar.Prelude.{ℕ, ◌≡◌, refl, sym, ap, subst, ◌≢◌, List, [], ◌∷◌, Text, length}
use ginbar.Database.{
  Post, DirtyPost, DuplicateRow, finalize_post, delete_dirty_post, get_possible_duplicates,
}
use ginbar.World.{
  Error, duplicate, M, World, Result, ok, err, hung, after, encoding, dedup_check, finalizing,
  processing_video, ◌>>=◌,
}
use ginbar.Paths.{Directories}
use ginbar.Pipeline.{ImageResult, VideoResult, Processor}
use ginbar.World.Calls.{db_finalize}
use ginbar.Queue.Active.{enter_phase}
use ginbar.Queue.Outcome.{Finalized}
use ginbar.Queue.{
  real_dups, settle_image, process_image_post, process_video_post, report_duplicates, announce_if,
  discard_files, find_duplicates, finalize_image, finalize_video,
}

-- The end of the work on a post, before its temporary file is removed.
pub data Worked (id : ℕ) (t : List Post) (r : Result (Unit {0}) × World) : Type 0 where
  did : r.0 ≡ ok tt → Finalized id t r.1.posts → r.1.script ≡ [] → Worked id t r
  broke : (e : Error) → r.0 ≡ err e → r.1.posts ≡ t → r.1.script ≡ [] → Worked id t r
  refused_twin :
      (e : Error)
      → r.0 ≡ err e
      → r.1.posts ≡ delete_dirty_post id t
      → r.1.script ≡ []
      → Worked id t r

-- A world where no call fails.
abbrev pub calm : World → World
calm w = record w { script = [] }

pub calm-same : (w : World) → w.script ≡ [] → calm w ≡ w
calm-same w h = ap (λ os. record w { script = os }) (sym h)

settle_image-Worked :
    (dirs : Directories) (post : DirtyPost) (res : ImageResult) (dups : List DuplicateRow)
    (w : World)
    → Worked post.id w.posts (settle_image dirs post res dups (calm w))
unfolding settle_image discard_files report_duplicates announce_if
settle_image-Worked dirs post res [] w = did refl (finalize_image post res, refl, refl) refl
settle_image-Worked dirs post res (d ∷ dups) w =
    refused_twin (duplicate (length (d ∷ dups))) refl refl refl

module _ (id : ℕ) (t : List Post) where
  -- Work that goes on after the pipeline's part, which leaves the table and the script alone.
  run-Worked :
      {Res : Type 0} (f : Res → M (Unit {0})) (r : Result Res × World)
      → r.0 ≢ hung
      → r.1.posts ≡ t
      → r.1.script ≡ []
      → ((res : Res) (w : World) → w.posts ≡ t → Worked id t (f res (calm w)))
      → Worked id t (after f r)
  run-Worked f (ok res, u) live p s k =
      subst (λ v. Worked id t (f res v)) (calm-same u s) (k res u p)
  run-Worked f (err e, u) live p s k = broke e refl p s
  run-Worked f (hung, u) live p s k = elim (live refl) [ ]

module _ (images : Processor ImageResult) (videos : Processor VideoResult)
    (dirs : Directories) where
  pub image-Worked :
      (post : DirtyPost) (input : Text) (w : World)
      → Worked post.id w.posts (process_image_post images dirs post input (calm w))
  unfolding process_image_post
  image-Worked post input w =
      let v = calm (record w { active = enter_phase post.id encoding w.active }) in
      run-Worked post.id w.posts
        (λ res u.
          (find_duplicates res.p_hash >>= λ dups.
          settle_image dirs post res (real_dups post.id dups))
            (record u { active = enter_phase post.id dedup_check u.active }))
        (images.run input v) (images.ends input v refl) (images.same_posts input v)
        (images.same_script input v refl)
        λ res u e.
          subst
            (λ t. Worked post.id t (
              settle_image dirs post res
                (real_dups post.id (
                  get_possible_duplicates res.p_hash.0 res.p_hash.1 res.p_hash.2 res.p_hash.3
                    u.posts))
                (calm (record u { active = enter_phase post.id dedup_check u.active }))))
            e
            (settle_image-Worked dirs post res _
              (record u { active = enter_phase post.id dedup_check u.active }))

  pub video-Worked :
      (post : DirtyPost) (input mime : Text) (w : World)
      → Worked post.id w.posts (process_video_post videos post input mime (calm w))
  unfolding process_video_post
  video-Worked post input mime w =
      let v = calm (record w { active = enter_phase post.id processing_video w.active }) in
      run-Worked post.id w.posts
        (λ res u.
          db_finalize (finalize_video post input mime res)
            (record u { active = enter_phase post.id finalizing u.active }))
        (videos.run input v) (videos.ends input v refl) (videos.same_posts input v)
        (videos.same_script input v refl)
        λ res u e.
          did refl
            (
              finalize_video post input mime res,
              refl,
              ap (finalize_post (finalize_video post input mime res)) e,
            )
            refl
