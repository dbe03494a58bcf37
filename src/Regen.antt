-- ===== src/Regen.antt =====
-- The regeneration queue of src/worker/src/queue.rs: `pop_regen_items`, `recover_processing_list`,
-- `process_regen_item`, `publish_regen_progress` and `drain_regen`. The parser of an item's JSON
-- (`serde_json`) is a parameter, and so is the pipeline's `regenerate_image`.
pub mod Lists
pub mod Work
pub mod Concurrent
pub mod Tally
pub mod Moves
pub mod Recover
pub mod Pop
pub mod Batches
pub mod Images
pub mod Safety
pub mod Accounting
pub mod Drain
pub mod Single
pub mod Books
pub mod Ledger
use ginbar.Prelude.{
  ℕ, zero, suc, ◌+◌, Bool, true, false, Option, none, some, List, [], ◌∷◌, ◌++◌, Text, codes,
  text_eq, ◌==◌, ltb, not, if◌then◌else◌, length,
}
use ginbar.World.{
  World, Redis, Progress, M, Error, call_failed, timed_out, source_missing, Result, stuck, Try, got,
  failed, pure, fail, attempt, ignore, timeout, with_context, call, ◌>>=◌, ◌>>◌,
}
use ginbar.World.Calls.{nothing, has_file, remove_file, connect, db_update_files}
use ginbar.Paths.{Directories, join}
use ginbar.Pipeline.{RegenerateResult, Regenerator}
use Lists.{lmove_pop, lmove_times, lmove_back, lrem, somes, increment}

pub record RegenItem : Type 0 where
  pub post_id : ℕ
  pub filename : Text
  pub thumbnail_filename : Text
  pub job_key : Text
  pub raw_json : Text

-- REGEN_POP_BATCH
abbrev pub regen_pop_batch : ℕ
regen_pop_batch = 500

-- The pipeline of LMOVE commands, in one round trip.
abbrev pub move_batch : ℕ → M (List (Option Text))
move_batch size =
    call (λ w. (lmove_times size w.redis).0)
      (λ w. record w { redis = (lmove_times size w.redis).1 })

abbrev pub remove_raw : Text → M (Unit {0})
remove_raw raw =
    call nothing
      (λ w. record w { redis = record w.redis { processing = lrem raw w.redis.processing } })

module _ (from_str : Text → Option RegenItem) where
  -- The loop over the texts of one batch: a text that does not parse is removed from Redis.
  unfoldable pub parse_batch : List Text → List RegenItem → M (List RegenItem)
  parse_batch [] items = pure items
  parse_batch (raw ∷ rest) items = elim (from_str raw) [
    | some item ↦ parse_batch rest (items ++ record item { raw_json = raw } ∷ [])
    | none ↦ ignore (remove_raw raw) >> parse_batch rest items
  ]

  -- What a round does with its batch; `next` is the round after it.
  unfoldable pub round :
      (List RegenItem → M (List RegenItem)) → ℕ → List RegenItem → List Text → M (List RegenItem)
  round next size items [] = pure items
  round next size items (raw ∷ raws) = do
    more ← parse_batch (raw ∷ raws) items
    if ltb (length (raw ∷ raws)) size then pure more else next more

  unfoldable pub pop_loop : ℕ → ℕ → List RegenItem → M (List RegenItem)
  unfolding round
  pop_loop size zero items = stuck
  pop_loop size (suc fuel) items = do
    batch ← move_batch size
    round (pop_loop size fuel) size items (somes batch)

  -- A round takes a text off the queue or is the last, so one more than there are is enough.
  unfoldable pub pop_regen_items : M (List RegenItem)
  pop_regen_items w = (connect >> pop_loop regen_pop_batch (suc (length w.redis.queue)) []) w

abbrev answered : Try ℕ → ℕ
answered (got n) = n
answered (failed e) = 0

-- LMOVE back, one at a time, until the list is empty or a call fails.
unfoldable pub recover_loop : ℕ → M (Unit {0})
recover_loop zero = stuck
recover_loop (suc fuel) = do
  moved ←
      attempt
        (call (λ w. (lmove_back w.redis).0) (λ w. record w { redis = (lmove_back w.redis).1 }))
  elim moved [ got (some raw) ↦ recover_loop fuel | got none ↦ pure tt | failed e ↦ pure tt ]

unfoldable pub recover_processing_list : M (Unit {0})
recover_processing_list = do
  conn ← timeout connect
  elim conn [
    | some (got c) ↦ do
      pending ← attempt (call (λ w. length w.redis.processing) (λ w. w))
      elim (answered pending == 0) [
        | true ↦ pure tt
        | false ↦ λ w. recover_loop (suc (length w.redis.processing)) w
      ]
    | _ ↦ pure tt
  ]
