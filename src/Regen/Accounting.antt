-- ===== src/Regen/Accounting.antt =====
-- What handling an item does to Redis: `publish_regen_progress`, the acknowledgement and
-- `drain_regen` of src/worker/src/queue.rs.
use ginbar.Prelude.{
  ◌≡◌, refl, sym, subst, ◌∙◌, ◌⊎◌, ◌↔◌, Bool, true, false, Option, none, some, [], ◌∷◌, ◌++◌, Text,
  codes, arith,
}
use ginbar.World.{
  World, Redis, M, Outcome, fine, hangs, hangs_late, Result, ok, err, hung, Try, got, failed, after,
  clocked, dropped, timeout, ignore, attempt, with_context, timed_out, outcome, rest_of, ◌>>=◌,
}
use ginbar.World.Calls.{remove_file, has_file}
use ginbar.World.Rules.{Keeps, bind-Keeps, with_context-Keeps}
use ginbar.Paths.{Directories, join}
use ginbar.Pipeline.{RegenerateResult, Regenerator}
use ginbar.Regen.{RegenItem}
use ginbar.Regen.Lists.{lrem, increment}
use ginbar.Regen.Work.{
  remove_old_files, update_post, replace_files, when_present, process_regen_item, event, count_item,
  publish_regen_progress, or_elapsed, acknowledge, report_regen_item, handle_regen_item,
}

clocked-ok :
    {A : Type 0} (f : Option (Try A) → M (Unit {0})) (r : Result A × World)
    → ((x : Option (Try A)) (w : World) → (f x w).0 ≡ ok tt)
    → (after f (clocked r)).0 ≡ ok tt
clocked-ok f (ok a, w) h = h (some (got a)) w
clocked-ok f (err e, w) h = h (some (failed e)) w
clocked-ok f (hung, w) h = h none w

pub ignore_timeout-ok : {A : Type 0} (r : Result A × World) → (dropped (clocked r)).0 ≡ ok tt
ignore_timeout-ok (ok a, w) = refl
ignore_timeout-ok (err e, w) = refl
ignore_timeout-ok (hung, w) = refl

pub ignore_timeout-world : {A : Type 0} (r : Result A × World) → (dropped (clocked r)).1 ≡ r.1
ignore_timeout-world (ok a, w) = refl
ignore_timeout-world (err e, w) = refl
ignore_timeout-world (hung, w) = refl

after-ok :
    (k : M (Unit {0})) (r : Result (Unit {0}) × World) → r.0 ≡ ok tt → after (λ _. k) r ≡ k r.1
after-ok k (ok u, w) h = refl
after-ok k (err e, w) h = cc
after-ok k (hung, w) h = cc

-- A first part that succeeds hands over to the second.
pub then-ok : (m k : M (Unit {0})) (w : World) → (m w).0 ≡ ok tt → (m >>= λ _. k) w ≡ k (m w).1
then-ok m k w h = after-ok k (m w) h

-- Working on an item and publishing its progress end, whichever calls fail or never answer.
pub report_regen_item-ok :
    (dirs : Directories) (regenerator : Regenerator dirs) (item : RegenItem) (w : World)
    → (report_regen_item dirs regenerator item w).0 ≡ ok tt
unfolding report_regen_item
report_regen_item-ok dirs regenerator item w =
    clocked-ok (λ result. ignore (timeout (publish_regen_progress item (or_elapsed result))))
      (process_regen_item dirs regenerator item w)
      λ x u. ignore_timeout-ok (publish_regen_progress item (or_elapsed x) u)

abbrev pub Hangs : Outcome → Type 0
Hangs o = (o ≡ hangs) ⊎ (o ≡ hangs_late)

-- The acknowledgement never ends exactly when the connection is there and LREM is not answered.
pub acknowledge-hung :
    (item : RegenItem) (w : World)
    → ((acknowledge item w).0 ≡ hung)
      ↔ ((outcome w.script ≡ fine) × Hangs (outcome (rest_of w.script)))
unfolding acknowledge
acknowledge-hung item w = ground arith

-- What a report may do to Redis: count the item in its job's counter, and publish its event.
record Reported (item : RegenItem) (result : Try (Unit {0})) (r s : Redis) : Type 0 where
  queue_same : s.queue ≡ r.queue
  processing_same : s.processing ≡ r.processing
  counted : (s.counters ≡ r.counters) ⊎ (s.counters ≡ increment item.job_key r.counters)
  published : (s.progress ≡ r.progress) ⊎ (s.progress ≡ r.progress ++ event item result ∷ [])

publish_regen_progress-Reported :
    (item : RegenItem) (result : Try (Unit {0})) (w : World)
    → Reported item result w.redis (publish_regen_progress item result w).1.redis
unfolding publish_regen_progress count_item
publish_regen_progress-Reported item result w = ground arith

-- The result that an item is reported with.
abbrev pub verdict : Result (Unit {0}) → Try (Unit {0})
verdict (ok u) = got u
verdict (err e) = failed e
verdict hung = failed timed_out

-- What handling an item may do to Redis: only its own text may have left the processing list, once.
pub record Handled (item : RegenItem) (result : Try (Unit {0})) (r s : Redis) : Type 0 where
  queue_same : s.queue ≡ r.queue
  acknowledged : (s.processing ≡ r.processing) ⊎ (s.processing ≡ lrem item.raw_json r.processing)
  counted : (s.counters ≡ r.counters) ⊎ (s.counters ≡ increment item.job_key r.counters)
  published : (s.progress ≡ r.progress) ⊎ (s.progress ≡ r.progress ++ event item result ∷ [])

acknowledge-Handled :
    (item : RegenItem) (result : Try (Unit {0})) (r : Redis) (w : World)
    → Reported item result r w.redis
    → Handled item result r (acknowledge item w).1.redis
unfolding acknowledge
acknowledge-Handled item result r w p = ground arith

module _ (dirs : Directories) (regenerator : Regenerator dirs) (item : RegenItem) where
  abbrev SameRedis : Redis → World → Type 0
  SameRedis r w = w.redis ≡ r

  quiet : (path : Text) (r : Redis) → Keeps (SameRedis r) (ignore (remove_file path))
  quiet path r = λ w h. ground arith

  update_post-SameRedis :
      (res : RegenerateResult) (r : Redis) → Keeps (SameRedis r) (update_post item res)
  unfolding update_post
  update_post-SameRedis res r = λ w h. ground arith

  replace_files-SameRedis : (r : Redis) → Keeps (SameRedis r) (replace_files dirs regenerator item)
  unfolding replace_files remove_old_files
  replace_files-SameRedis r =
      bind-Keeps (SameRedis r)
        (with_context (codes "regenerate_image failed")
          (regenerator.run (join dirs.image item.filename)))
        (λ res. update_post item res >>= λ _. remove_old_files dirs item)
        (with_context-Keeps (SameRedis r) _ (regenerator.run (join dirs.image item.filename))
          (λ w h. regenerator.same_redis (join dirs.image item.filename) w ∙ h))
        λ res.
          bind-Keeps (SameRedis r) (update_post item res) (λ _. remove_old_files dirs item)
            (update_post-SameRedis res r)
            λ _.
              bind-Keeps (SameRedis r) (ignore (remove_file (join dirs.image item.filename)))
                (λ _. ignore (remove_file (join dirs.thumbnail item.thumbnail_filename)))
                (quiet (join dirs.image item.filename) r)
                λ _. quiet (join dirs.thumbnail item.thumbnail_filename) r

  when_present-SameRedis :
      (t : Try Bool) (r : Redis) → Keeps (SameRedis r) (when_present dirs regenerator item t)
  unfolding when_present
  when_present-SameRedis (got true) r = replace_files-SameRedis r
  when_present-SameRedis (got false) r = λ w h. h
  when_present-SameRedis (failed e) r = λ w h. h

  pub process_regen_item-SameRedis :
      (w : World) → (process_regen_item dirs regenerator item w).1.redis ≡ w.redis
  unfolding process_regen_item
  process_regen_item-SameRedis w =
      bind-Keeps (SameRedis w.redis) (attempt (has_file (join dirs.image item.filename)))
        (when_present dirs regenerator item) (λ u h. ground arith)
        (λ t. when_present-SameRedis t w.redis) w refl

  Published-after :
      (result : Try (Unit {0})) (r : Redis) (w : World)
      → w.redis ≡ r
      → Reported item result r (ignore (timeout (publish_regen_progress item result)) w).1.redis
  Published-after result r w e =
      subst (λ u. Reported item result r u.redis)
        (sym (ignore_timeout-world (publish_regen_progress item result w)))
        (subst (λ q. Reported item result q (publish_regen_progress item result w).1.redis) e
          (publish_regen_progress-Reported item result w))

  Reported-after :
      (r : Redis) (t : Result (Unit {0}) × World)
      → t.1.redis ≡ r
      → Reported item
          (verdict t.0)
          r
          (after
            (λ x. ignore (timeout (publish_regen_progress item (or_elapsed x))))
            (clocked t)).1.redis
  Reported-after r (ok u, w) e = Published-after (got u) r w e
  Reported-after r (err x, w) e = Published-after (failed x) r w e
  Reported-after r (hung, w) e = Published-after (failed timed_out) r w e

  -- Whichever calls fail or hang, handling an item leaves the queue alone, takes at most one
  -- occurrence of the item's own text from the processing list, counts the item at most once and in
  -- its own job's counter, and publishes at most one event, which carries the item's own result.
  pub handle_regen_item-Handled :
      (w : World)
      → Handled item
          (verdict (process_regen_item dirs regenerator item w).0)
          w.redis
          (handle_regen_item dirs regenerator item w).1.redis
  unfolding handle_regen_item report_regen_item
  handle_regen_item-Handled w =
      let result = verdict (process_regen_item dirs regenerator item w).0 in
      let report = report_regen_item dirs regenerator item in
      subst (λ t. Handled item result w.redis t.1.redis)
        (sym (then-ok report (acknowledge item) w (report_regen_item-ok dirs regenerator item w)))
        (acknowledge-Handled item result w.redis (report w).1 (
          Reported-after w.redis (process_regen_item dirs regenerator item w)
            (process_regen_item-SameRedis w)))
