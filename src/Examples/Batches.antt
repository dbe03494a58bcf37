-- ===== src/Examples/Batches.antt =====
-- A batch of the processing queue (src/worker/src/queue.rs), and the theorems applied to it.
use ginbar.Prelude.{◌≡◌, refl, ◌⊎◌, [], ◌∷◌, arith}
use ginbar.World.{downloading}
use ginbar.Queue.Active.{drop_post, insert_post}
use ginbar.Queue.State.{begin_batch}
use ginbar.Queue.Batch.{Batch, opened, Step, Reach, has_room}
use ginbar.Queue.Counters.{IsBalanced, Reach-IsBalanced}
use ginbar.Queue.Once.{tally, post_ids, held_count, Reach-held_count}
use ginbar.Queue.Progress.{measure, Moves, Step-progress}
use ginbar.Examples.{dirs, images, videos, http, world, post_8, idle}

-- One post, and it is being loaded.
abbrev start : Batch
start = opened (post_8 ∷ []) (begin_batch 1 idle) (world [])

abbrev loading_8 : Batch
loading_8 = record start {
  waiting = [];
  loading = post_8 ∷ [];
  world = record (world []) {
    active = record { post_id = 8; phase = downloading; started_at = 0 } ∷ [];
  };
}

first_step : Step http images videos dirs 2 1 start loading_8
unfolding has_room drop_post insert_post
first_step = Step.load start post_8 [] refl refl

Reach-IsBalanced_example : IsBalanced http images videos dirs 2 1 1 loading_8
Reach-IsBalanced_example =
    Reach-IsBalanced http images videos dirs 2 1 (post_8 ∷ []) idle (world []) loading_8
      (omega arith) (omega arith) (omega arith) (Reach.next Reach.here first_step)

Reach-held_count_example : held_count 8 loading_8 ≡ tally 8 (post_ids (post_8 ∷ []))
Reach-held_count_example =
    Reach-held_count http images videos dirs 2 1 8 (post_8 ∷ []) (begin_batch 1 idle) (world [])
      loading_8 (Reach.next Reach.here first_step)

Step-progress_example : (measure loading_8 ≡ 0) ⊎ Moves http images videos dirs 2 1 loading_8
Step-progress_example =
    Step-progress http images videos dirs 2 1 loading_8 (omega arith) (omega arith) refl
