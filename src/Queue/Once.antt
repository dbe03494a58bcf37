-- ===== src/Queue/Once.antt =====
-- No post of a batch is lost or worked on twice: `drain` and `download_stage` of
-- src/worker/src/queue.rs.
use ginbar.Prelude.{
  ℕ, ◌+◌, ◌≡◌, refl, sym, ap, ◌∙◌, none, some, List, [], ◌∷◌, ◌++◌, map, Text, codes, arith, ◌==◌,
  if◌then◌else◌,
}
use ginbar.Database.{DirtyPost}
use ginbar.World.{
  World, no_source, pure, fail, ignore, with_context, Result, ok, err, hung, Try, got, failed,
  attempt,
}
use ginbar.World.Rules.{bind-ok, attempt-got}
use ginbar.Paths.{Directories}
use ginbar.Download.{Http, download_file, download_pr0gramm_file}
use ginbar.Pipeline.{ImageResult, VideoResult, Processor}
use ginbar.Queue.{
  DownloadedPost, resolve_url, resolve_upload, resolve_source, fetched, starts_with,
  pr0gramm_img_base,
}
use ginbar.World.Calls.{db_delete_dirty}
use ginbar.Queue.Active.{drop_post}
use ginbar.Queue.State.{QueueState}
use ginbar.Queue.Batch.{Batch, opened, Step, Reach, download_post, take_resolved}

-- How often an id stands in a list.
unfoldable pub tally : ℕ → List ℕ → ℕ
tally v [] = 0
tally v (n ∷ ns) = if n == v then tally v ns + 1 else tally v ns

abbrev pub post_ids : List DirtyPost → List ℕ
post_ids = map (λ p. p.id)

abbrev pub item_ids : List DownloadedPost → List ℕ
item_ids = map (λ d. d.post.id)

-- How often a post stands in a batch, in all of its places together.
unfoldable pub held_count : ℕ → Batch → ℕ
held_count v b =
    tally v (post_ids b.waiting)
    + tally v (post_ids b.loading)
    + tally v (item_ids b.sending)
    + tally v (item_ids b.channel)
    + tally v (item_ids b.working)
    + tally v b.skipped
    + tally v b.settled

-- The post of a result, or `post` where there is none.
ended : DirtyPost → Result DownloadedPost → DirtyPost
ended post (ok item) = item.post
ended post (err e) = post
ended post hung = post

tally-split {ℓ} :
    {A : Type ℓ} (f : A → ℕ) (v : ℕ) (xs ys : List A) (x : A)
    → tally v (map f (xs ++ x ∷ ys)) ≡ tally v (map f (x ∷ xs ++ ys))
unfolding tally
tally-split f v [] ys x = refl
tally-split f v (z ∷ xs) ys x = ground (arith, tally-split f v xs ys x)

tally-at {ℓ} :
    {A : Type ℓ} (f : A → ℕ) (v : ℕ) (zs xs ys : List A) (x : A)
    → zs ≡ xs ++ x ∷ ys
    → tally v (map f zs) ≡ tally v (map f (x ∷ xs ++ ys))
tally-at f v zs xs ys x e = ap (λ l. tally v (map f l)) e ∙ tally-split f v xs ys x

tally-snoc {ℓ} :
    {A : Type ℓ} (f : A → ℕ) (v : ℕ) (xs : List A) (x : A)
    → tally v (map f (xs ++ x ∷ [])) ≡ tally v (map f (x ∷ xs))
unfolding tally
tally-snoc f v [] x = refl
tally-snoc f v (z ∷ xs) x = ground (arith, tally-snoc f v xs x)

take_resolved-post :
    (post : DirtyPost) (t : Try DownloadedPost) (w : World) (item : DownloadedPost)
    → (take_resolved post t w).0 ≡ ok (some item)
    → t ≡ got item
unfolding take_resolved
take_resolved-post post (got d) w item h = cc
take_resolved-post post (failed e) w item h =
    let s =
      bind-ok (ignore (db_delete_dirty post.id)) (λ _. pure none)
        (record w { active = drop_post post.id w.active }) (some item) h in
    cc (s.2)

module _ (http : Http) (dirs : Directories) (post : DirtyPost) where
  resolve_url-post :
      (url : Text) (w : World) (item : DownloadedPost)
      → (resolve_url http dirs post url w).0 ≡ ok item
      → item.post ≡ post
  unfolding ended resolve_url
  resolve_url-post [] w item h =
      let s = bind-ok (ignore (db_delete_dirty post.id)) (λ _. fail (no_source post.id)) w item h in
      cc (s.2)
  resolve_url-post (c ∷ url) w item h =
      let s =
        bind-ok
          (with_context (codes "download failed") (
            if starts_with (c ∷ url) pr0gramm_img_base
            then download_pr0gramm_file http (c ∷ url) dirs.tmp
            else download_file http (c ∷ url) dirs.tmp))
          (λ path. pure (fetched post path)) w item h in
      ap (λ r. ended post r) (sym s.2)

  resolve_upload-post :
      (name : Text) (w : World) (item : DownloadedPost)
      → (resolve_upload http dirs post name w).0 ≡ ok item
      → item.post ≡ post
  unfolding ended resolve_upload
  resolve_upload-post [] w item h = resolve_url-post post.url w item h
  resolve_upload-post (c ∷ name) w item h = ap (λ r. ended post r) (sym h)

  -- The item that a download task hands on is of the task's own post.
  download_post-post :
      (w : World) (item : DownloadedPost)
      → (download_post http dirs post w).0 ≡ ok (some item)
      → item.post ≡ post
  unfolding download_post resolve_source
  download_post-post w item h =
      let s =
        bind-ok (attempt (resolve_upload http dirs post post.uploaded_filename))
          (take_resolved post) w (some item) h in
      let t =
        take_resolved-post post s.0
          (attempt (resolve_upload http dirs post post.uploaded_filename) w).1 item s.2 in
      resolve_upload-post post.uploaded_filename w item
        (attempt-got (resolve_upload http dirs post post.uploaded_filename) w item (s.1 ∙ ap ok t))

module _ (http : Http) (images : Processor ImageResult) (videos : Processor VideoResult)
    (dirs : Directories) (download_concurrency concurrency : ℕ) where
  Step-held_count :
      {b c : Batch} (v : ℕ)
      → Step http images videos dirs download_concurrency concurrency b c
      → held_count v c ≡ held_count v b
  unfolding held_count tally
  Step-held_count v (Step.load b p ps e room) = ground (arith, ap post_ids e)
  Step-held_count v (Step.loaded b xs ys p item e r) = ground (
    arith,
    tally-at (λ q. q.id) v b.loading xs ys p e,
    ap (λ q. q.id) (download_post-post http dirs p b.world item r),
  )
  Step-held_count v (Step.skip b xs ys p e r) =
      ground (arith, tally-at (λ q. q.id) v b.loading xs ys p e)
  Step-held_count v (Step.send b xs ys item e room) = ground (
    arith,
    tally-at (λ d. d.post.id) v b.sending xs ys item e,
    tally-snoc (λ d. d.post.id) v b.channel item,
  )
  Step-held_count v (Step.receive b item rest e room) = ground (arith, ap item_ids e)
  Step-held_count v (Step.work b xs ys item result e r) =
      ground (arith, tally-at (λ d. d.post.id) v b.working xs ys item e)
  Step-held_count v (Step.report b n e r) = refl

  -- However the tasks are interleaved and whichever calls fail, no post of the batch is lost and none
  -- is taken up twice: each id stands in the batch's places together as often as in the batch's list.
  pub Reach-held_count :
      (v : ℕ) (posts : List DirtyPost) (s : QueueState) (w : World) (b : Batch)
      → Reach http images videos dirs download_concurrency concurrency (opened posts s w) b
      → held_count v b ≡ tally v (post_ids posts)
  unfolding held_count tally
  Reach-held_count v posts s w b Reach.here = omega arith
  Reach-held_count v posts s w b (Reach.next {t} r step) =
      Step-held_count v step ∙ Reach-held_count v posts s w t r
