-- ===== src/Regen/Concurrent.antt =====
-- `drain_regen` of src/worker/src/queue.rs: the items of a batch are worked on by
-- `for_each_concurrent`. An item's task stops at its three awaits: the item itself, the report of its
-- progress, and the acknowledgement. Which of the running tasks goes on to its next stop is for
-- `choices` to say.
use ginbar.Prelude.{
  ℕ, zero, suc, ◌+◌, ◌*◌, Option, none, some, List, [], ◌∷◌, length, Text, ◌==◌, if◌then◌else◌,
}
use ginbar.World.{
  World, M, Result, ok, err, hung, Try, got, failed, pure, stuck, attempt, ignore, timeout, ◌>>=◌,
  ◌>>◌,
}
use ginbar.Paths.{Directories}
use ginbar.Pipeline.{Regenerator}
use ginbar.Queue.Batch.{has_room}
use ginbar.Regen.{RegenItem, pop_regen_items}
use ginbar.Regen.Work.{process_regen_item, publish_regen_progress, or_elapsed, acknowledge}

-- How far an item's task has come: it has started, the item has been worked on, its progress has been
-- reported.
pub data Stage : Type 0 where
  starting : Stage
  worked : Option (Try (Unit {0})) → Stage
  reported : Stage

pub record Task : Type 0 where
  pub item : RegenItem
  pub stage : Stage

abbrev pub task : RegenItem → Stage → Task
task item stage = record { item = item; stage = stage }

-- A task is started for each item while there is room. A task that never ends keeps its slot.
unfoldable pub start_tasks : ℕ → ℕ → List Task → List RegenItem → List Task × List RegenItem
unfolding has_room
start_tasks limit lost running [] = (running, [])
start_tasks limit lost running (item ∷ items) =
    let rest = start_tasks limit lost (task item starting ∷ running) items in
    if has_room limit (length running + lost) then rest else (running, item ∷ items)

-- The task in place `n`, or the last, and the others.
unfoldable pub take_out : ℕ → Task → List Task → Task × List Task
take_out n x [] = (x, [])
take_out zero x (y ∷ ys) = (x, y ∷ ys)
take_out (suc n) x (y ∷ ys) = let (z, zs) = take_out n y ys in (z, x ∷ zs)

abbrev pub put_back : Option Task → List Task → List Task
put_back none tasks = tasks
put_back (some t) tasks = t ∷ tasks

-- What follows one stop of a task, from the number of tasks that never end and the running ones.
abbrev pub resumed :
    (ℕ → List Task → M (Unit {0}))
    → ℕ
    → List Task
    → Result (Option Task) × World
    → Result (Unit {0}) × World
resumed k lost tasks (ok o, w) = k lost (put_back o tasks) w
resumed k lost tasks (err e, w) = k lost tasks w
resumed k lost tasks (hung, w) = k (suc lost) tasks w

module _ (dirs : Directories) (regenerator : Regenerator dirs) where
  -- A task's way to its next stop; `none` is its end.
  unfoldable pub advance_from : RegenItem → Stage → M (Option Task)
  unfolding process_regen_item publish_regen_progress acknowledge
  advance_from item starting =
      timeout (process_regen_item dirs regenerator item) >>= λ r. pure (some (task item (worked r)))
  advance_from item (worked r) =
      ignore (timeout (publish_regen_progress item (or_elapsed r)))
      >> pure (some (task item reported))
  advance_from item reported = acknowledge item >> pure none

  -- One of the running tasks goes on. With none left the loop ends, if every task has ended.
  unfoldable pub go_on :
      (List RegenItem → ℕ → List Task → M (Unit {0}))
      → ℕ
      → ℕ
      → List Task × List RegenItem
      → M (Unit {0})
  unfolding advance_from take_out
  go_on k n lost ([], items) w = if lost == 0 then pure tt w else stuck w
  go_on k n lost (x ∷ xs, items) w =
      let (t, tasks) = take_out n x xs in
      resumed (k items) lost tasks (advance_from t.item t.stage w)

  -- `for_each_concurrent(Some(limit), …)`, with a choice for each round.
  unfoldable pub for_each_concurrent :
      ℕ → (ℕ → ℕ) → ℕ → List RegenItem → ℕ → List Task → M (Unit {0})
  unfolding start_tasks go_on
  for_each_concurrent limit choices zero items lost running = stuck
  for_each_concurrent limit choices (suc fuel) items lost running =
      go_on (for_each_concurrent limit choices fuel) (choices fuel) lost
        (start_tasks limit lost running items)

  -- Three rounds for each item, and one in which nothing is left.
  unfoldable pub work_through : ℕ → (ℕ → ℕ) → Try (List RegenItem) → M (Unit {0})
  unfolding for_each_concurrent
  work_through concurrency choices (got items) =
      for_each_concurrent concurrency choices (suc (3 * length items)) items 0 []
  work_through concurrency choices (failed e) = pure tt

  unfoldable pub drain_regen : ℕ → (ℕ → ℕ) → (Text → Option RegenItem) → M (Unit {0})
  unfolding work_through
  drain_regen concurrency choices from_str =
      attempt (pop_regen_items from_str) >>= work_through concurrency choices
