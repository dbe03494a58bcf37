-- ===== src/Regen/Work.antt =====
-- One item of the regeneration queue from its start to its acknowledgement: `process_regen_item`,
-- `publish_regen_progress` and the body of the loop in `drain_regen` of src/worker/src/queue.rs.
use ginbar.Prelude.{Bool, true, false, Option, none, some, [], ◌∷◌, ◌++◌, Text, codes}
use ginbar.World.{
  Progress, M, Error, timed_out, source_missing, Try, got, failed, pure, fail, attempt, ignore,
  timeout, with_context, call, ◌>>=◌, ◌>>◌,
}
use ginbar.World.Calls.{nothing, has_file, remove_file, connect, db_update_files}
use ginbar.Paths.{Directories, join}
use ginbar.Pipeline.{RegenerateResult, Regenerator}
use ginbar.Regen.{RegenItem, remove_raw}
use ginbar.Regen.Lists.{increment}

unfoldable pub remove_old_files : Directories → RegenItem → M (Unit {0})
remove_old_files dirs item =
    ignore (remove_file (join dirs.image item.filename))
    >> ignore (remove_file (join dirs.thumbnail item.thumbnail_filename))

unfoldable pub update_post : RegenItem → RegenerateResult → M (Unit {0})
update_post item res =
    with_context (codes "update_post_files failed") (
      db_update_files item.post_id res.new_filename res.new_thumbnail_filename res.width res.height)

module _ (dirs : Directories) (regenerator : Regenerator dirs) where
  -- The steps after the source file is known to exist.
  unfoldable pub replace_files : RegenItem → M (Unit {0})
  unfolding update_post remove_old_files
  replace_files item = do
    res ←
        with_context (codes "regenerate_image failed")
          (regenerator.run (join dirs.image item.filename))
    update_post item res
    remove_old_files dirs item

  -- The check of the source file: a file that is not there, or a failed call, is an error.
  unfoldable pub when_present : RegenItem → Try Bool → M (Unit {0})
  when_present item (got true) = replace_files item
  when_present item (got false) = fail (source_missing (join dirs.image item.filename))
  when_present item (failed e) = fail (source_missing (join dirs.image item.filename))

  unfoldable pub process_regen_item : RegenItem → M (Unit {0})
  unfolding when_present
  process_regen_item item = do
    present ← attempt (has_file (join dirs.image item.filename))
    when_present item present

abbrev pub failure_of : Try (Unit {0}) → Option Error
failure_of (got u) = none
failure_of (failed e) = some e

abbrev increment_counter : Text → M (Unit {0})
increment_counter key =
    call nothing
      (λ w. record w { redis = record w.redis { counters = increment key w.redis.counters } })

abbrev pub event : RegenItem → Try (Unit {0}) → Progress
event item result = record {
  post_id = item.post_id;
  job_key = item.job_key;
  failure = failure_of result;
}

abbrev publish : Progress → M (Unit {0})
publish msg =
    call nothing
      (λ w. record w { redis = record w.redis { progress = w.redis.progress ++ msg ∷ [] } })

-- INCR, skipped for an item without a job key. The counter's prefix is left off its key.
unfoldable pub count_item : Text → M (Unit {0})
count_item [] = pure tt
count_item (c ∷ key) = ignore (timeout (increment_counter (c ∷ key)))

unfoldable pub publish_regen_progress : RegenItem → Try (Unit {0}) → M (Unit {0})
publish_regen_progress item result = do
  conn ← timeout connect
  elim conn [
    | some (got c) ↦ count_item item.job_key >> ignore (timeout (publish (event item result)))
    | _ ↦ pure tt
  ]

-- An item that was cut off counts as failed.
abbrev pub or_elapsed : Option (Try (Unit {0})) → Try (Unit {0})
or_elapsed none = failed timed_out
or_elapsed (some result) = result

-- LREM of the item's text; the command itself has no timeout.
unfoldable pub acknowledge : RegenItem → M (Unit {0})
acknowledge item = do
  conn ← timeout connect
  elim conn [ some (got c) ↦ ignore (remove_raw item.raw_json) | _ ↦ pure tt ]

module _ (dirs : Directories) (regenerator : Regenerator dirs) where
  -- The body of the loop in `drain_regen`, up to the acknowledgement.
  unfoldable pub report_regen_item : RegenItem → M (Unit {0})
  report_regen_item item = do
    result ← timeout (process_regen_item dirs regenerator item)
    ignore (timeout (publish_regen_progress item (or_elapsed result)))

  unfoldable pub handle_regen_item : RegenItem → M (Unit {0})
  handle_regen_item item = report_regen_item item >> acknowledge item
