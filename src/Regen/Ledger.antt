-- ===== src/Regen/Ledger.antt =====
-- A whole drain of the regeneration queue, `drain_regen` of src/worker/src/queue.rs, when every call
-- is answered: the ledger of items, acknowledgements, counters and events.
use ginbar.Prelude.{
  ℕ, ◌+◌, ◌≡◌, refl, sym, ap, subst, ◌∙◌, ◌≢◌, Option, none, some, Bool, suc, zero, ◌*◌, ◌<◌, List,
  [], ◌∷◌, map, length, Text, text_eq_iff, count, arith, if◌then◌else◌,
}
use ginbar.World.{World, Redis, M, Result, ok, err, hung, got, after, caught}
use ginbar.Paths.{Directories}
use ginbar.Pipeline.{Regenerator}
use ginbar.Regen.{RegenItem}
use ginbar.Regen.Lists.{counter}
use ginbar.Regen.Concurrent.{
  Task, start_tasks, take_out, put_back, resumed, go_on, for_each_concurrent, work_through,
  drain_regen,
}
use ginbar.Regen.Tally.{
  one, total, total-count, total-const, total-take_out, whole, whole-start_tasks, start_tasks-none,
}
use ginbar.Regen.Moves.{relisted}
use ginbar.Regen.Recover.{calm, with_redis}
use ginbar.Regen.Pop.{is_valid}
use ginbar.Regen.Batches.{parsed, pop_regen_items-calm}
use ginbar.Regen.Drain.{IsCalm}
use ginbar.Regen.Books.{
  event_key, item_key, raw_of, job_of, Books, Books-nil, Books-add, to_remove, to_count, to_tell,
  to_go, left, advance_from-Steps,
}

resumed-ok :
    (k : ℕ → List Task → M (Unit {0})) (tasks : List Task) (r : Result (Option Task) × World)
    (o : Option Task)
    → r.0 ≡ ok o
    → resumed k 0 tasks r ≡ k 0 (put_back o tasks) r.1
resumed-ok k tasks (ok p, w) o h = cc
resumed-ok k tasks (err e, w) o h = cc
resumed-ok k tasks (hung, w) o h = cc

module _ (v key : Text) (who : ℕ × Text → Bool) (dirs : Directories)
    (regenerator : Regenerator dirs) (ne : key ≢ []) where
  -- The loop from some running tasks and waiting items on.
  Ended : List Task × List RegenItem → Redis → Result (Unit {0}) × World → Type 0
  Ended ts r t =
      (t.0 ≡ ok tt)
      × Books v key who (whole (to_remove v key who) ts) (whole (to_count v key who) ts)
          (whole (to_tell v key who) ts) r t.1.redis

  put_back-total :
      (f : Task → ℕ) (o : Option Task) (tasks : List Task)
      → total f (put_back o tasks) ≡ left v key who f o + total f tasks
  unfolding total
  put_back-total f none tasks = omega arith
  put_back-total f (some t) tasks = omega arith

  module _ (limit : ℕ) (choices : ℕ → ℕ) where
    abbrev loop : ℕ → List RegenItem → ℕ → List Task → M (Unit {0})
    loop = for_each_concurrent dirs regenerator limit choices

    -- What one step of the chosen task and the rest of the loop come to.
    step_weight :
        (f : Task → ℕ) (n m : ℕ) (x : Task) (xs : List Task) (items : List RegenItem)
        (next : Option Task)
        → f (take_out n x xs).0 ≡ m + left v key who f next
        → whole f (x ∷ xs, items) ≡ m + whole f (put_back next (take_out n x xs).1, items)
    unfolding total
    step_weight f n m x xs items next e =
        omega (arith, e, total-take_out f n x xs, put_back-total f next (take_out n x xs).1)

    from_start :
        (fuel n : ℕ)
        → ((items : List RegenItem) (running : List Task) (w : World)
            → IsCalm w
            → whole (to_go v key who) (running, items) < fuel
            → Ended (running, items) w.redis (loop fuel items 0 running w))
        → (ts : List Task × List RegenItem) (w : World) → IsCalm w
        → whole (to_go v key who) ts < suc fuel
        → (ts.0 ≡ [] → ts.1 ≡ [])
        → Ended ts w.redis (go_on dirs regenerator (loop fuel) n 0 ts w)
    unfolding Ended total go_on
    from_start fuel n again ([], items) w c l none_left =
        subst (λ is. Ended ([], is) w.redis (ok tt, w)) (sym (none_left refl))
          (refl, Books-nil v key who w.redis)
    from_start fuel n again (x ∷ xs, items) w c l none_left =
        let t = (take_out n x xs).0 in
        let tasks = (take_out n x xs).1 in
        let s = advance_from-Steps v key who dirs regenerator ne t.item t.stage w c in
        let g = step_weight (to_go v key who) n 1 x xs items s.next (s.shorter ∙ omega arith) in
        let (e, b) = again items (put_back s.next tasks) _ s.calm_after (omega (arith, l, g)) in
        subst (Ended (x ∷ xs, items) w.redis)
          (sym (resumed-ok (loop fuel items) tasks _ s.next s.ends))
          (
            e,
            Books-add v key who s.books b
                (step_weight (to_remove v key who) n s.removes x xs items s.next s.removed)
                (step_weight (to_count v key who) n s.counts x xs items s.next s.counted_once)
                (step_weight (to_tell v key who) n s.tells x xs items s.next s.told_once),
          )

    for_each_concurrent-Ended :
        (fuel : ℕ) (items : List RegenItem) (running : List Task) (w : World)
        → IsCalm w
        → whole (to_go v key who) (running, items) < fuel
        → Ended (running, items) w.redis (loop fuel items 0 running w)
    unfolding for_each_concurrent Ended
    for_each_concurrent-Ended zero items running w c l = absurd (omega (arith, l))
    for_each_concurrent-Ended (suc fuel) items running w c l =
        let same = λ (f : Task → ℕ). whole-start_tasks f limit 0 running items in
        let (e, b) =
          from_start fuel (choices fuel) (for_each_concurrent-Ended fuel)
            (start_tasks limit 0 running items) w c (omega (arith, l, same (to_go v key who)))
            (start_tasks-none limit running items) in
        (
          e,
          Books-add v key who (Books-nil v key who w.redis) b
              (omega (arith, same (to_remove v key who))) (omega (arith, same (to_count v key who)))
              (omega (arith, same (to_tell v key who))),
        )

module _ (from_str : Text → Option RegenItem) where
  raw_of-parsed :
      (v : Text) (q : List Text)
      → count v (map raw_of (parsed from_str q)) ≡ (if is_valid from_str v then count v q else 0)
  unfolding count
  raw_of-parsed v [] = ground arith
  raw_of-parsed v (raw ∷ q) = ground (arith, raw_of-parsed v q, text_eq_iff raw v)

  -- What is claimed of a drain, for its result and the world after it.
  abbrev pub Drained : Text → Text → (ℕ × Text → Bool) → World → Result (Unit {0}) × World → Type 0
  Drained v key who w t =
      (t.0 ≡ ok tt)
      × (t.1.redis.queue ≡ [])
      × (count v t.1.redis.processing ≡ count v w.redis.processing)
      × (counter key t.1.redis.counters
          ≡ counter key w.redis.counters + count key (map job_of (parsed from_str w.redis.queue)))
      × (total (λ e. one (who (event_key e))) t.1.redis.progress
          ≡ total (λ e. one (who (event_key e))) w.redis.progress
            + total (λ i. one (who (item_key i))) (parsed from_str w.redis.queue))

  work_through-Ended :
      (dirs : Directories) (regenerator : Regenerator dirs) (concurrency : ℕ) (choices : ℕ → ℕ)
      (v key : Text) (who : ℕ × Text → Bool) (items : List RegenItem) (w : World)
      → key ≢ []
      → IsCalm w
      → let t = work_through dirs regenerator concurrency choices (got items) w in
        (t.0 ≡ ok tt)
        × Books v key who
            (count v (map raw_of items))
            (count key (map job_of items))
            (total (λ i. one (who (item_key i))) items)
            w.redis
            t.1.redis
  unfolding work_through Ended total
  work_through-Ended dirs regenerator concurrency choices v key who items w ne c =
      let (e, b) =
        for_each_concurrent-Ended v key who dirs regenerator ne concurrency choices
          (suc (3 * length items)) items [] w c (omega (arith, total-const 3 items)) in
      (
        e,
        Books-add v key who (Books-nil v key who w.redis) b
            (omega (arith, total-count v raw_of items))
            (omega (arith, total-count key job_of items)) (omega arith),
      )

  -- When no call fails, a drain returns, whatever its concurrency and in whatever order its tasks go on
  -- from one of their stops to the next. It leaves the queue empty, and each text on the processing list
  -- as often as before the drain. The queue's items are its texts that parse: the counter of each job
  -- with a key has grown by the number of items with that key; and for the posts and jobs that a test
  -- `who` picks, whichever it is, as many more events have been published as the queue had items.
  pub drain_regen-calm :
      (dirs : Directories) (regenerator : Regenerator dirs) (concurrency : ℕ) (choices : ℕ → ℕ)
      (w : World) (v key : Text) (who : ℕ × Text → Bool)
      → key ≢ []
      → Drained v key who w (drain_regen dirs regenerator concurrency choices from_str (calm w))
  unfolding drain_regen
  drain_regen-calm dirs regenerator concurrency choices w v key who ne =
      let (ps, e, counts) = pop_regen_items-calm from_str w in
      let u = calm (with_redis w (relisted w.redis [] ps)) in
      let items = parsed from_str w.redis.queue in
      let (done, b) =
        work_through-Ended dirs regenerator concurrency choices v key who items u ne refl in
      subst (Drained v key who w)
        (sym (ap (λ r. after (work_through dirs regenerator concurrency choices) (caught r)) e))
        (
          done,
          b.queue_same,
          ground (arith, b.fewer, counts v, raw_of-parsed v w.redis.queue),
          b.more,
          b.told,
        )
