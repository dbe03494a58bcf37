-- ===== src/Regen/Drain.antt =====
-- The steps of an item in `drain_regen` of src/worker/src/queue.rs when every call is answered.
use ginbar.Prelude.{
  ℕ, ◌≡◌, refl, sym, subst, Bool, true, false, Option, none, some, List, [], ◌∷◌, ◌++◌, Text, codes,
  arith,
}
use ginbar.World.{
  World, Redis, Result, ok, err, hung, Try, got, failed, clocked, timeout, ignore, attempt,
  with_context, ◌>>=◌,
}
use ginbar.World.Calls.{remove_file, has_file}
use ginbar.World.Rules.{Keeps, bind-Keeps, with_context-Keeps}
use ginbar.Paths.{Directories, join}
use ginbar.Pipeline.{RegenerateResult, Regenerator}
use ginbar.Regen.{RegenItem}
use ginbar.Regen.Lists.{lrem, increment}
use ginbar.Regen.Work.{
  remove_old_files, update_post, replace_files, when_present, process_regen_item, event, count_item,
  publish_regen_progress, acknowledge,
}
use ginbar.Regen.Accounting.{ignore_timeout-world, process_regen_item-SameRedis}

-- No call is going to fail.
abbrev pub IsCalm : World → Type 0
IsCalm w = w.script ≡ []

unfoldable pub counted : Text → List (Text × ℕ) → List (Text × ℕ)
counted [] m = m
counted (c ∷ key) m = increment (c ∷ key) m

-- A published report, without failures.
pub record Published (item : RegenItem) (result : Try (Unit {0})) (r s : Redis) : Type 0 where
  pub queue_same : s.queue ≡ r.queue
  pub processing_same : s.processing ≡ r.processing
  pub counters_counted : s.counters ≡ counted item.job_key r.counters
  pub progress_added : s.progress ≡ r.progress ++ event item result ∷ []

publish-IsCalm :
    (item : RegenItem) (result : Try (Unit {0})) (w : World)
    → IsCalm w
    → Published item result w.redis (publish_regen_progress item result w).1.redis
      × IsCalm (publish_regen_progress item result w).1
unfolding publish_regen_progress count_item counted
publish-IsCalm item result w h = ground arith

pub acknowledge-IsCalm :
    (item : RegenItem) (w : World)
    → IsCalm w
    → ((acknowledge item w).0 ≡ ok tt)
      × IsCalm (acknowledge item w).1
      × ((acknowledge item w).1.redis
          ≡ record w.redis { processing = lrem item.raw_json w.redis.processing })
unfolding acknowledge
acknowledge-IsCalm item w h = ground arith

module _ (dirs : Directories) (regenerator : Regenerator dirs) (item : RegenItem) where
  remove-IsCalm : (path : Text) → Keeps IsCalm (ignore (remove_file path))
  remove-IsCalm path = λ w h. ground arith

  update_post-IsCalm : (res : RegenerateResult) → Keeps IsCalm (update_post item res)
  unfolding update_post
  update_post-IsCalm res = λ w h. ground arith

  replace_files-IsCalm : Keeps IsCalm (replace_files dirs regenerator item)
  unfolding replace_files remove_old_files
  replace_files-IsCalm =
      bind-Keeps IsCalm
        (with_context (codes "regenerate_image failed")
          (regenerator.run (join dirs.image item.filename)))
        (λ res. update_post item res >>= λ _. remove_old_files dirs item)
        (with_context-Keeps IsCalm _ (regenerator.run (join dirs.image item.filename))
          (λ w h. regenerator.same_script (join dirs.image item.filename) w h))
        λ res.
          bind-Keeps IsCalm (update_post item res) (λ _. remove_old_files dirs item)
            (update_post-IsCalm res)
            λ _.
              bind-Keeps IsCalm (ignore (remove_file (join dirs.image item.filename)))
                (λ _. ignore (remove_file (join dirs.thumbnail item.thumbnail_filename)))
                (remove-IsCalm (join dirs.image item.filename))
                λ _. remove-IsCalm (join dirs.thumbnail item.thumbnail_filename)

  when_present-IsCalm : (t : Try Bool) → Keeps IsCalm (when_present dirs regenerator item t)
  unfolding when_present
  when_present-IsCalm (got true) = replace_files-IsCalm
  when_present-IsCalm (got false) = λ w h. h
  when_present-IsCalm (failed e) = λ w h. h

  process_regen_item-IsCalm : Keeps IsCalm (process_regen_item dirs regenerator item)
  unfolding process_regen_item
  process_regen_item-IsCalm =
      bind-Keeps IsCalm (attempt (has_file (join dirs.image item.filename)))
        (when_present dirs regenerator item) (λ u h. ground arith) when_present-IsCalm

  pub Published-after :
      (result : Try (Unit {0})) (r : Redis) (w : World)
      → w.redis ≡ r
      → IsCalm w
      → let u = (ignore (timeout (publish_regen_progress item result)) w).1 in
        Published item result r u.redis × IsCalm u
  Published-after result r w e c =
      subst (λ u. Published item result r u.redis × IsCalm u)
        (sym (ignore_timeout-world (publish_regen_progress item result w)))
        (subst
          (λ q.
            Published item result q (publish_regen_progress item result w).1.redis
            × IsCalm (publish_regen_progress item result w).1)
          e (publish-IsCalm item result w c))

  timed-IsCalm :
      (r : Redis) (t : Result (Unit {0}) × World)
      → t.1.redis ≡ r
      → IsCalm t.1
      → (x : Option (Try (Unit {0}))) × ((clocked t).0 ≡ ok x)
        × ((clocked t).1.redis ≡ r)
        × IsCalm (clocked t).1
  timed-IsCalm r (ok u, w) e c = (some (got u), refl, e, c)
  timed-IsCalm r (err x, w) e c = (some (failed x), refl, e, c)
  timed-IsCalm r (hung, w) e c = (none, refl, e, c)

  -- Working on an item changes nothing in Redis, and comes to a result.
  pub worked-IsCalm :
      (w : World)
      → IsCalm w
      → let t = timeout (process_regen_item dirs regenerator item) w in
        (x : Option (Try (Unit {0}))) × (t.0 ≡ ok x) × (t.1.redis ≡ w.redis) × IsCalm t.1
  worked-IsCalm w c =
      timed-IsCalm w.redis (process_regen_item dirs regenerator item w)
        (process_regen_item-SameRedis dirs regenerator item w) (process_regen_item-IsCalm w c)
