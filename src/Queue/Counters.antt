-- ===== src/Queue/Counters.antt =====
-- The invariant of a batch's counters and limits: `drain` of src/worker/src/queue.rs.
use ginbar.Prelude.{
  ℕ, suc, ◌+◌, ◌≤◌, ◌<◌, ◌≡◌, ap, ◌∙◌, List, [], ◌∷◌, ◌++◌, arith, length, length-append,
}
use ginbar.Database.{DirtyPost}
use ginbar.World.{World, got, failed}
use ginbar.Paths.{Directories}
use ginbar.Download.{Http}
use ginbar.Pipeline.{ImageResult, VideoResult, Processor}
use ginbar.Queue.State.{QueueState, begin_batch, begin_post, end_post, fetch_add, fetch_sub}
use ginbar.Queue.Batch.{Batch, opened, Step, Reach, has_room, chan_size}

pub length-split {ℓ} :
    {A : Type ℓ} (zs xs ys : List A) (x : A)
    → zs ≡ xs ++ x ∷ ys
    → length zs ≡ suc (length (xs ++ ys))
length-split zs xs ys x e =
    ap (length {_}) e ∙ omega (arith, length-append xs (x ∷ ys), length-append xs ys)

module _ (http : Http) (images : Processor ImageResult) (videos : Processor VideoResult)
    (dirs : Directories) (download_concurrency concurrency : ℕ) where
  -- The counters of a batch of `n` posts agree with where the posts are, and no limit is exceeded.
  pub record IsBalanced (n : ℕ) (b : Batch) : Type 0 where
    pub places :
        length b.waiting
          + length b.loading
          + length b.sending
          + length b.channel
          + length b.skipped
          + length b.working
          + length b.settled
        ≡ n
    pub pending :
        b.state.pending
        ≡ length b.waiting
          + length b.loading
          + length b.sending
          + length b.channel
          + length b.skipped
    pub active : b.state.active ≡ length b.working
    pub processed : b.state.processed ≡ length b.settled
    pub outcomes : b.state.imported + b.state.failed ≡ length b.settled
    pub total : b.state.total ≡ n
    pub downloads : length b.loading + length b.sending ≤ download_concurrency
    pub workers : length b.working + b.reporting ≤ concurrency
    pub buffered : length b.channel ≤ chan_size download_concurrency concurrency

  Step-IsBalanced :
      {b c : Batch} (n : ℕ)
      → n < 2147483648
      → 0 < download_concurrency
      → 0 < concurrency
      → Step http images videos dirs download_concurrency concurrency b c
      → IsBalanced n b
      → IsBalanced n c
  unfolding has_room begin_post end_post fetch_add fetch_sub
  Step-IsBalanced n small dpos cpos (Step.load b p ps e room) h =
      ground (arith, ap (length {0}) e, h)
  Step-IsBalanced n small dpos cpos (Step.loaded b xs ys p item e r) h =
      ground (arith, length-split b.loading xs ys p e, h)
  Step-IsBalanced n small dpos cpos (Step.skip b xs ys p e r) h =
      ground (arith, length-split b.loading xs ys p e, h)
  Step-IsBalanced n small dpos cpos (Step.send b xs ys item e r) h =
      ground (arith, length-split b.sending xs ys item e, length-append b.channel (item ∷ []), h)
  Step-IsBalanced n small dpos cpos (Step.receive b item rest e room) h =
      ground (arith, ap (length {0}) e, h)
  Step-IsBalanced n small dpos cpos (Step.work b xs ys item (got u) e r) h =
      ground (arith, length-split b.working xs ys item e, h)
  Step-IsBalanced n small dpos cpos (Step.work b xs ys item (failed x) e r) h =
      ground (arith, length-split b.working xs ys item e, h)
  Step-IsBalanced n small dpos cpos (Step.report b k e r) h = ground (arith, h)

  opened-IsBalanced :
      (posts : List DirtyPost) (s : QueueState) (w : World)
      → length posts < 2147483648
      → IsBalanced (length posts) (opened posts (begin_batch (length posts) s) w)
  unfolding begin_batch
  opened-IsBalanced posts s w small = ground arith

  -- In every state that a batch of under 2^31 posts can reach, with limits above 0, the counters say
  -- where its posts are: `active` is the number of posts at work, `processed` and
  -- `imported + failed` the number of posts that are done, and `pending` that of all the others,
  -- among them for good the posts whose download failed. The limits on downloads and on workers and
  -- the channel's size are never exceeded.
  pub Reach-IsBalanced :
      (posts : List DirtyPost) (s : QueueState) (w : World) (b : Batch)
      → length posts < 2147483648
      → 0 < download_concurrency
      → 0 < concurrency
      → Reach http images videos dirs download_concurrency concurrency
          (opened posts (begin_batch (length posts) s) w)
          b
      → IsBalanced (length posts) b
  Reach-IsBalanced posts s w b small dpos cpos Reach.here = opened-IsBalanced posts s w small
  Reach-IsBalanced posts s w b small dpos cpos (Reach.next {t} r step) =
      Step-IsBalanced (length posts) small dpos cpos step
        (Reach-IsBalanced posts s w t small dpos cpos r)
