-- ===== src/Queue/Progress.antt =====
-- A batch comes to its end where no call fails: `drain` and `download_stage` of
-- src/worker/src/queue.rs.
use ginbar.Prelude.{
  ℕ, zero, suc, ◌+◌, ◌*◌, ◌<◌, ◌≡◌, refl, sym, ap, subst, ◌⊎◌, inl, inr, Option, none, some, List,
  [], ◌∷◌, arith, length, length-append,
}
use ginbar.Database.{DirtyPost}
use ginbar.World.{World, ok, Try, got, failed, attempt, pure, ◌>>◌}
use ginbar.World.Rules.{bind-next}
use ginbar.World.Answers.{attempt-ok, attempt-Answers}
use ginbar.Paths.{Directories}
use ginbar.Download.{Http}
use ginbar.Pipeline.{ImageResult, VideoResult, Processor}
use ginbar.Queue.{DownloadedPost, resolve_source, process_downloaded_post}
use ginbar.Queue.Active.{deactivate}
use ginbar.Queue.State.{QueueState, publish_status, store_if}
use ginbar.Queue.Batch.{Batch, Step, download_post, take_resolved, work_post, has_room, chan_size}
use ginbar.Queue.Counters.{length-split}
use ginbar.Queue.Live.{resolve_source-Answers, process_downloaded_post-Answers}

take_resolved_calm :
    (post : DirtyPost) (t : Try DownloadedPost) (w : World)
    → w.script ≡ []
    → ((o : Option DownloadedPost) × ((take_resolved post t w).0 ≡ ok o))
      × ((take_resolved post t w).1.script ≡ [])
unfolding take_resolved
take_resolved_calm post (got item) w h = ((some item, refl), h)
take_resolved_calm post (failed e) w h = ((none, ground arith), ground arith)

-- Where no call fails, a download task ends with a source or without.
download_post_calm :
    (http : Http) (dirs : Directories) (post : DirtyPost) (w : World)
    → w.script ≡ []
    → ((o : Option DownloadedPost) × ((download_post http dirs post w).0 ≡ ok o))
      × ((download_post http dirs post w).1.script ≡ [])
unfolding download_post
download_post_calm http dirs post w h =
    let live = resolve_source-Answers http dirs post in
    let m = resolve_source http dirs post in
    let (t, e) = attempt-ok m w live h in
    subst (λ r. ((o : Option DownloadedPost) × (r.0 ≡ ok o)) × (r.1.script ≡ []))
      (sym (bind-next (attempt m) (take_resolved post) w t e))
      (take_resolved_calm post t (attempt m w).1 (attempt-Answers m live w h).1)

work_post_calm :
    (images : Processor ImageResult) (videos : Processor VideoResult) (dirs : Directories)
    (item : DownloadedPost) (w : World)
    → w.script ≡ []
    → ((t : Try (Unit {0})) × ((work_post images videos dirs item w).0 ≡ ok t))
      × ((work_post images videos dirs item w).1.script ≡ [])
unfolding work_post
work_post_calm images videos dirs item w h =
    let live = process_downloaded_post-Answers images videos dirs item in
    let m = process_downloaded_post images videos dirs item in
    let (t, e) = attempt-ok m w live h in
    subst (λ r. ((t : Try (Unit {0})) × (r.0 ≡ ok t)) × (r.1.script ≡ []))
      (sym (bind-next (attempt m) (λ r. deactivate item.post.id >> pure r) w t e))
      ((t, refl), (attempt-Answers m live w h).1)

publish_status_calm :
    (s : QueueState) (w : World)
    → w.script ≡ []
    → ((publish_status s w).0 ≡ ok tt) × ((publish_status s w).1.script ≡ [])
unfolding publish_status store_if
publish_status_calm s w h = (ground arith, ground arith)

-- How many steps a batch can still make.
unfoldable pub measure : Batch → ℕ
measure b =
    6 * length b.waiting
    + 5 * length b.loading
    + 4 * length b.sending
    + 3 * length b.channel
    + 2 * length b.working
    + b.reporting

module _ (http : Http) (images : Processor ImageResult) (videos : Processor VideoResult)
    (dirs : Directories) (download_concurrency concurrency : ℕ) where
  abbrev pub Next : Batch → Batch → Type 0
  Next = Step http images videos dirs download_concurrency concurrency

  Step-smaller : {b c : Batch} → Next b c → measure c < measure b
  unfolding measure
  Step-smaller (Step.load b p ps e room) = ground (arith, ap (length {0}) e)
  Step-smaller (Step.loaded b xs ys p item e r) = ground (arith, length-split b.loading xs ys p e)
  Step-smaller (Step.skip b xs ys p e r) = ground (arith, length-split b.loading xs ys p e)
  Step-smaller (Step.send b xs ys item e room) =
      ground (arith, length-split b.sending xs ys item e, length-append b.channel (item ∷ []))
  Step-smaller (Step.receive b item rest e room) = ground (arith, ap (length {0}) e)
  Step-smaller (Step.work b xs ys item result e r) =
      ground (arith, length-split b.working xs ys item e)
  Step-smaller (Step.report b n e r) = ground arith

  Step_calm : {b c : Batch} → Next b c → b.world.script ≡ [] → c.world.script ≡ []
  Step_calm (Step.load b p ps e room) h = h
  Step_calm (Step.loaded b xs ys p item e r) h = (download_post_calm http dirs p b.world h).1
  Step_calm (Step.skip b xs ys p e r) h = (download_post_calm http dirs p b.world h).1
  Step_calm (Step.send b xs ys item e room) h = h
  Step_calm (Step.receive b item rest e room) h = h
  Step_calm (Step.work b xs ys item result e r) h =
      (work_post_calm images videos dirs item b.world h).1
  Step_calm (Step.report b n e r) h = (publish_status_calm b.state b.world h).1

  abbrev pub Moves : Batch → Type 0
  Moves b = (c : Batch) × Next b c

  loading-Moves :
      (b : Batch) (p : DirtyPost) (ps : List DirtyPost)
      → b.loading ≡ p ∷ ps
      → b.world.script ≡ []
      → Moves b
  loading-Moves b p ps e h = move (download_post_calm http dirs p b.world h).0
    where
      move : (o : Option DownloadedPost) × ((download_post http dirs p b.world).0 ≡ ok o) → Moves b
      move (some item, r) = (_, Step.loaded b [] ps p item e r)
      move (none, r) = (_, Step.skip b [] ps p e r)

  -- The first place that holds something gives the step, from the channel's end on.
  moves :
      (b : Batch) (n : ℕ) (working channel sending : List DownloadedPost)
      (loading waiting : List DirtyPost)
      → 0 < download_concurrency
      → 0 < concurrency
      → b.world.script ≡ []
      → b.reporting ≡ n
      → b.working ≡ working
      → b.channel ≡ channel
      → b.sending ≡ sending
      → b.loading ≡ loading
      → b.waiting ≡ waiting
      → (measure b ≡ 0) ⊎ Moves b
  unfolding measure has_room chan_size
  moves b (suc n) wk ch se lo wa dpos cpos h r w c s l q =
      inr (_, Step.report b n r (publish_status_calm b.state b.world h).0)
  moves b zero (item ∷ wk) ch se lo wa dpos cpos h r w c s l q =
      let (t, e) = (work_post_calm images videos dirs item b.world h).0 in
      inr (_, Step.work b [] wk item t w e)
  moves b zero [] (item ∷ ch) se lo wa dpos cpos h r w c s l q =
      inr (_, Step.receive b item ch c (ground (arith, ap (length {0}) w)))
  moves b zero [] [] (item ∷ se) lo wa dpos cpos h r w c s l q =
      inr (_, Step.send b [] se item s (ground (arith, ap (length {0}) c)))
  moves b zero [] [] [] (p ∷ lo) wa dpos cpos h r w c s l q = inr (loading-Moves b p lo l h)
  moves b zero [] [] [] [] (p ∷ wa) dpos cpos h r w c s l q =
      inr (_, Step.load b p wa q (ground (arith, ap (length {0}) s, ap (length {0}) l)))
  moves b zero [] [] [] [] [] dpos cpos h r w c s l q = inl (
      ground (
        arith,
        ap (length {0}) s,
        ap (length {0}) l,
        ap (length {0}) c,
        ap (length {0}) w,
        ap (length {0}) q,
      ))

  -- Where no call fails and both limits are above 0, a batch is never stuck: either all of its tasks
  -- have ended, or a step is possible.
  pub Step-progress :
      (b : Batch)
      → 0 < download_concurrency
      → 0 < concurrency
      → b.world.script ≡ []
      → (measure b ≡ 0) ⊎ Moves b
  Step-progress b dpos cpos h =
      moves b b.reporting b.working b.channel b.sending b.loading b.waiting dpos cpos h refl refl
        refl refl refl refl

  -- From a state where no call fails, every step lowers the measure and leaves such a state.
  pub Step-measure :
      (b c : Batch)
      → Next b c
      → b.world.script ≡ []
      → (measure c < measure b) × (c.world.script ≡ [])
  Step-measure b c step h = (Step-smaller step, Step_calm step h)
