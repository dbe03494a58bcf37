-- ===== src/Queue/Batch.antt =====
-- A batch of the processing queue: `drain` and `download_stage` of src/worker/src/queue.rs. The tasks
-- of the two stages are interleaved: a step moves one post on, and the calls of a task's body are made
-- in the step that ends it. A task that never ends makes no step.
use ginbar.Prelude.{
  ℕ, suc, ◌+◌, ◌*◌, ◌<◌, ◌≡◌, max, Bool, true, Option, none, some, List, [], ◌∷◌, ◌++◌, ◌||◌, ltb,
  ◌==◌, if◌then◌else◌, length,
}
use ginbar.Database.{DirtyPost, get_dirty_posts}
use ginbar.World.{
  World, M, ok, Try, got, failed, downloading, attempt, ignore, pure, call, ◌>>=◌, ◌>>◌,
}
use ginbar.World.Calls.{db_delete_dirty}
use ginbar.Paths.{Directories}
use ginbar.Download.{Http}
use ginbar.Pipeline.{ImageResult, VideoResult, Processor}
use ginbar.Queue.{DownloadedPost, resolve_source, process_downloaded_post}
use ginbar.Queue.Active.{activate, deactivate}
use ginbar.Queue.State.{QueueState, begin_batch, end_batch, begin_post, end_post, publish_status}

-- What `drain` does before the stages run: the posts that are to be processed, none of them where the
-- query failed or found none, and the counters.
unfoldable pub open_batch : QueueState → Try (List DirtyPost) → M (QueueState × List DirtyPost)
open_batch s (failed e) = pure (s, [])
open_batch s (got []) =
    if s.running
    then ignore (publish_status (end_batch s)) >> pure (end_batch s, [])
    else pure (s, [])
open_batch s (got (p ∷ ps)) = do
  let s' = begin_batch (length (p ∷ ps)) s
  ignore (publish_status s')
  pure (s', p ∷ ps)

unfoldable pub start_drain : QueueState → M (QueueState × List DirtyPost)
unfolding open_batch
start_drain s = do
  dirty ← attempt (call (λ w. get_dirty_posts w.posts) (λ w. w))
  open_batch s dirty

-- What `drain` does after the stages.
unfoldable pub finish_drain : QueueState → M QueueState
finish_drain s = ignore (publish_status (end_batch s)) >> pure (end_batch s)

unfoldable pub chan_size : ℕ → ℕ → ℕ
chan_size download_concurrency concurrency = max download_concurrency concurrency * 2

-- `for_each_concurrent(Some(limit))` starts another task; a limit of 0 is none.
unfoldable pub has_room : ℕ → ℕ → Bool
has_room limit n = limit == 0 || ltb n limit

-- The posts by where they are, and what is shared.
pub record Batch : Type 0 where
  pub waiting : List DirtyPost
  pub loading : List DirtyPost
  pub sending : List DownloadedPost
  pub channel : List DownloadedPost
  pub working : List DownloadedPost
  -- Tasks that publish the status as their last act.
  pub reporting : ℕ
  pub skipped : List ℕ
  pub settled : List ℕ
  pub state : QueueState
  pub world : World

abbrev pub opened : List DirtyPost → QueueState → World → Batch
opened posts s w = record {
  waiting = posts;
  loading = [];
  sending = [];
  channel = [];
  working = [];
  reporting = 0;
  skipped = [];
  settled = [];
  state = s;
  world = w;
}

unfoldable pub take_resolved : DirtyPost → Try DownloadedPost → M (Option DownloadedPost)
take_resolved post (got item) = pure (some item)
take_resolved post (failed e) =
    deactivate post.id >> (ignore (db_delete_dirty post.id) >> pure none)

-- The body of a download task, up to the send.
unfoldable pub download_post : Http → Directories → DirtyPost → M (Option DownloadedPost)
unfolding take_resolved
download_post http dirs post = do
  result ← attempt (resolve_source http dirs post)
  take_resolved post result

module _ (images : Processor ImageResult) (videos : Processor VideoResult)
    (dirs : Directories) where
  -- The body of a processing task, up to the counters.
  unfoldable pub work_post : DownloadedPost → M (Try (Unit {0}))
  work_post item = do
    result ← attempt (process_downloaded_post images videos dirs item)
    deactivate item.post.id
    pure result

module _ (http : Http) (images : Processor ImageResult) (videos : Processor VideoResult)
    (dirs : Directories) (download_concurrency concurrency : ℕ) where
  pub data Step : Batch → Batch → Type 0 where
    -- A download task starts.
    load :
        (b : Batch) (p : DirtyPost) (ps : List DirtyPost)
        → b.waiting ≡ p ∷ ps
        → has_room download_concurrency (length b.loading + length b.sending) ≡ true
        → Step b (record b {
          waiting = ps;
          loading = p ∷ b.loading;
          world = (activate p.id downloading b.world).1;
        })
    -- A source is there.
    loaded :
        (b : Batch) (xs ys : List DirtyPost) (p : DirtyPost) (item : DownloadedPost)
        → b.loading ≡ xs ++ p ∷ ys
        → (download_post http dirs p b.world).0 ≡ ok (some item)
        → Step b (record b {
          loading = xs ++ ys;
          sending = item ∷ b.sending;
          world = (download_post http dirs p b.world).1;
        })
    -- A source is not there: the task ends.
    skip :
        (b : Batch) (xs ys : List DirtyPost) (p : DirtyPost)
        → b.loading ≡ xs ++ p ∷ ys
        → (download_post http dirs p b.world).0 ≡ ok none
        → Step b (record b {
          loading = xs ++ ys;
          skipped = p.id ∷ b.skipped;
          world = (download_post http dirs p b.world).1;
        })
    -- The channel takes a post while it is not full: the task ends.
    send :
        (b : Batch) (xs ys : List DownloadedPost) (item : DownloadedPost)
        → b.sending ≡ xs ++ item ∷ ys
        → length b.channel < chan_size download_concurrency concurrency
        → Step b (record b { sending = xs ++ ys; channel = b.channel ++ item ∷ [] })
    -- A processing task starts.
    receive :
        (b : Batch) (item : DownloadedPost) (rest : List DownloadedPost)
        → b.channel ≡ item ∷ rest
        → has_room concurrency (length b.working + b.reporting) ≡ true
        → Step b
            (record b { channel = rest; working = item ∷ b.working; state = begin_post b.state })
    -- A post is processed, well or not.
    work :
        (b : Batch) (xs ys : List DownloadedPost) (item : DownloadedPost) (result : Try (Unit {0}))
        → b.working ≡ xs ++ item ∷ ys
        → (work_post images videos dirs item b.world).0 ≡ ok result
        → Step b (record b {
          working = xs ++ ys;
          reporting = suc b.reporting;
          settled = item.post.id ∷ b.settled;
          state = end_post result b.state;
          world = (work_post images videos dirs item b.world).1;
        })
    -- The status is published: the task ends.
    report :
        (b : Batch) (n : ℕ)
        → b.reporting ≡ suc n
        → (publish_status b.state b.world).0 ≡ ok tt
        → Step b (record b { reporting = n; world = (publish_status b.state b.world).1 })

  -- Any number of steps.
  pub data Reach (s : Batch) : Batch → Type 0 where
    here : Reach s s
    next : {t u : Batch} → Reach s t → Step t u → Reach s u
