-- ===== src/Regen/Books.antt =====
-- What the steps of the tasks in `drain_regen` (src/worker/src/queue.rs) add to the books in Redis when
-- every call is answered.
use ginbar.Prelude.{
  ℕ, ◌+◌, ◌-◌, ◌≡◌, refl, sym, ap, subst, ◌∙◌, ◌≢◌, Option, none, some, Bool, suc, List, [], ◌∷◌,
  Text, text_eq, text_eq_iff, count, arith, if◌then◌else◌,
}
use ginbar.World.{
  World, Redis, M, Progress, Result, ok, err, hung, Try, after, pure, timeout, ignore, ◌>>=◌,
}
use ginbar.Paths.{Directories}
use ginbar.Pipeline.{Regenerator}
use ginbar.Regen.{RegenItem}
use ginbar.Regen.Lists.{lrem, counter}
use ginbar.Regen.Work.{event, or_elapsed, process_regen_item, publish_regen_progress, acknowledge}
use ginbar.Regen.Accounting.{ignore_timeout-ok}
use ginbar.Regen.Concurrent.{Stage, starting, worked, reported, Task, task, advance_from}
use ginbar.Regen.Tally.{one, total, total-append}
use ginbar.Regen.Moves.{count-lrem, counter-increment}
use ginbar.Regen.Drain.{
  IsCalm, Published, counted, worked-IsCalm, Published-after, acknowledge-IsCalm,
}

abbrev pub event_key : Progress → ℕ × Text
event_key e = (e.post_id, e.job_key)

abbrev pub item_key : RegenItem → ℕ × Text
item_key i = (i.post_id, i.job_key)

abbrev pub raw_of : RegenItem → Text
raw_of i = i.raw_json

abbrev pub job_of : RegenItem → Text
job_of i = i.job_key

counter-counted :
    (key job : Text) (m : List (Text × ℕ))
    → key ≢ []
    → counter key (counted job m) ≡ (if text_eq job key then counter key m + 1 else counter key m)
unfolding counted
counter-counted key [] m ne = ground (arith, text_eq_iff [] key)
counter-counted key (c ∷ job) m ne = counter-increment (c ∷ job) key m

then_pure :
    {A B : Type 0} (m : M A) (f : A → B) (w : World) (a : A)
    → (m w).0 ≡ ok a
    → (m >>= λ x. pure (f x)) w ≡ (ok (f a), (m w).1)
then_pure m f w a h = by_result f (m w) a h
  where
    by_result :
        {A B : Type 0} (f : A → B) (r : Result A × World) (a : A)
        → r.0 ≡ ok a
        → after (λ x. pure (f x)) r ≡ (ok (f a), r.1)
    by_result f (ok b, w) a h = cc
    by_result f (err e, w) a h = cc
    by_result f (hung, w) a h = cc

-- What a number of steps adds to the books: how often the text `v` is removed from the processing list,
-- by how much the counter `key` grows, and how many events of the posts and jobs that `who` picks
-- are published.
module _ (v key : Text) (who : ℕ × Text → Bool) where
  pub record Books (removed jobs events : ℕ) (r s : Redis) : Type 0 where
    pub queue_same : s.queue ≡ r.queue
    pub fewer : count v s.processing ≡ count v r.processing - removed
    pub more : counter key s.counters ≡ counter key r.counters + jobs
    pub told :
        total (λ e. one (who (event_key e))) s.progress
        ≡ total (λ e. one (who (event_key e))) r.progress + events

  pub Books-nil : (r : Redis) → Books 0 0 0 r r
  Books-nil r = record {
    queue_same = refl;
    fewer = omega arith;
    more = omega arith;
    told = omega arith;
  }

  pub Books-add :
      {a b c a' b' c' x y z : ℕ} {r s t : Redis}
      → Books a b c r s
      → Books a' b' c' s t
      → x ≡ a + a'
      → y ≡ b + b'
      → z ≡ c + c'
      → Books x y z r t
  Books-add l m ex ey ez = record {
    queue_same = m.queue_same ∙ l.queue_same;
    fewer = omega (arith, l.fewer, m.fewer, ex);
    more = omega (arith, l.more, m.more, ey);
    told = omega (arith, l.told, m.told, ez);
  }

  -- What a task has still to do.
  abbrev if_owed : Stage → ℕ → ℕ
  if_owed reported n = 0
  if_owed starting n = n
  if_owed (worked r) n = n

  abbrev rounds_of : Stage → ℕ
  rounds_of starting = 3
  rounds_of (worked r) = 2
  rounds_of reported = 1

  abbrev pub to_remove : Task → ℕ
  to_remove t = one (text_eq t.item.raw_json v)

  abbrev pub to_count : Task → ℕ
  to_count t = if_owed t.stage (one (text_eq t.item.job_key key))

  abbrev pub to_tell : Task → ℕ
  to_tell t = if_owed t.stage (one (who (item_key t.item)))

  abbrev pub to_go : Task → ℕ
  to_go t = rounds_of t.stage

  abbrev pub left : (Task → ℕ) → Option Task → ℕ
  left f none = 0
  left f (some t) = f t

  -- A step of a task: what it does is what it need no longer do.
  pub record Steps (t : Task) (r : Redis) (x : Result (Option Task) × World) : Type 0 where
    pub next : Option Task
    pub ends : x.0 ≡ ok next
    pub calm_after : IsCalm x.1
    pub removes : ℕ
    pub counts : ℕ
    pub tells : ℕ
    pub books : Books removes counts tells r x.1.redis
    pub removed : to_remove t ≡ removes + left to_remove next
    pub counted_once : to_count t ≡ counts + left to_count next
    pub told_once : to_tell t ≡ tells + left to_tell next
    pub shorter : to_go t ≡ suc (left to_go next)

  Books-Published :
      (item : RegenItem) (result : Try (Unit {0})) (r s : Redis)
      → key ≢ []
      → Published item result r s
      → Books 0 (one (text_eq item.job_key key)) (one (who (item_key item))) r s
  unfolding total
  Books-Published item result r s ne p = record {
    queue_same = p.queue_same;
    fewer = omega (arith, ap (count v) p.processing_same);
    more = ground (
      arith,
      ap (counter key) p.counters_counted,
      counter-counted key item.job_key r.counters ne,
    );
    told =
        ap (total (λ e. one (who (event_key e)))) p.progress_added
        ∙ (total-append (λ e. one (who (event_key e))) r.progress (event item result ∷ [])
            ∙ omega arith);
  }

  Books-acknowledged :
      (item : RegenItem) (r s : Redis)
      → s ≡ record r { processing = lrem item.raw_json r.processing }
      → Books (one (text_eq item.raw_json v)) 0 0 r s
  Books-acknowledged item r s e =
      subst (Books (one (text_eq item.raw_json v)) 0 0 r) (sym e) (record {
        queue_same = refl;
        fewer = ground (arith, count-lrem item.raw_json v r.processing);
        more = omega arith;
        told = omega arith;
      })

  module _ (dirs : Directories) (regenerator : Regenerator dirs) (ne : key ≢ []) where
    pub advance_from-Steps :
        (item : RegenItem) (stage : Stage) (w : World)
        → IsCalm w
        → Steps (task item stage) w.redis (advance_from dirs regenerator item stage w)
    unfolding advance_from
    advance_from-Steps item starting w c =
        let (x, e, q, c') = worked-IsCalm dirs regenerator item w c in
        subst (Steps (task item starting) w.redis)
          (sym (
            then_pure (timeout (process_regen_item dirs regenerator item))
              (λ r. some (task item (worked r))) w x e))
          (record {
            next = some (task item (worked x));
            ends = refl;
            calm_after = c';
            removes = 0;
            counts = 0;
            tells = 0;
            books = subst (Books 0 0 0 w.redis) (sym q) (Books-nil w.redis);
            removed = omega arith;
            counted_once = omega arith;
            told_once = omega arith;
            shorter = refl;
          })
    advance_from-Steps item (worked r) w c =
        let report = publish_regen_progress item (or_elapsed r) in
        let (p, c') = Published-after dirs regenerator item (or_elapsed r) w.redis w refl c in
        subst (Steps (task item (worked r)) w.redis)
          (sym (
            then_pure (ignore (timeout report)) (λ u. some (task item reported)) w tt
              (ignore_timeout-ok (report w))))
          (record {
            next = some (task item reported);
            ends = refl;
            calm_after = c';
            removes = 0;
            counts = one (text_eq item.job_key key);
            tells = one (who (item_key item));
            books = Books-Published item (or_elapsed r) w.redis _ ne p;
            removed = omega arith;
            counted_once = omega arith;
            told_once = omega arith;
            shorter = refl;
          })
    advance_from-Steps item reported w c =
        let (e, c', q) = acknowledge-IsCalm item w c in
        subst (Steps (task item reported) w.redis)
          (sym (then_pure (acknowledge item) (λ u. none) w tt e))
          (record {
            next = none;
            ends = refl;
            calm_after = c';
            removes = one (text_eq item.raw_json v);
            counts = 0;
            tells = 0;
            books = Books-acknowledged item w.redis _ q;
            removed = omega arith;
            counted_once = omega arith;
            told_once = omega arith;
            shorter = refl;
          })
