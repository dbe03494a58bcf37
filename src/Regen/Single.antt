-- ===== src/Regen/Single.antt =====
-- The loop of `drain_regen` (src/worker/src/queue.rs) over a single item.
use ginbar.Prelude.{
  ℕ, ◌≡◌, refl, subst, ◌⊎◌, inl, inr, true, none, some, Option, List, [], ◌∷◌, arith, if◌then◌else◌,
}
use ginbar.World.{
  World, M, Result, ok, err, hung, Try, got, failed, pure, after, clocked, dropped, ignore, timeout,
  ◌>>◌,
}
use ginbar.Paths.{Directories}
use ginbar.Pipeline.{Regenerator}
use ginbar.Queue.Batch.{has_room}
use ginbar.Regen.{RegenItem}
use ginbar.Regen.Work.{
  process_regen_item, publish_regen_progress, or_elapsed, acknowledge, report_regen_item,
  handle_regen_item,
}
use ginbar.Regen.Concurrent.{
  starting, worked, reported, Task, task, resumed, for_each_concurrent, go_on, advance_from,
  take_out, start_tasks,
}

acknowledge-ends :
    (item : RegenItem) (w : World)
    → ((acknowledge item w).0 ≡ ok tt) ⊎ ((acknowledge item w).0 ≡ hung)
unfolding acknowledge
acknowledge-ends item w = ground arith

module _ (dirs : Directories) (regenerator : Regenerator dirs) (limit : ℕ) (choices : ℕ → ℕ) where
  abbrev loop : ℕ → List RegenItem → ℕ → List Task → M (Unit {0})
  loop = for_each_concurrent dirs regenerator limit choices

  acknowledged :
      (item : RegenItem) (w : World) → loop 2 [] 0 (task item reported ∷ []) w ≡ acknowledge item w
  unfolding for_each_concurrent go_on advance_from take_out start_tasks
  acknowledged item w = by_result (acknowledge item w) (acknowledge-ends item w)
    where
      by_result :
          (r : Result (Unit {0}) × World)
          → (r.0 ≡ ok tt) ⊎ (r.0 ≡ hung)
          → resumed (loop 1 []) 0 [] (after (λ _. pure none) r) ≡ r
      by_result (ok u, v) h = refl
      by_result (hung, v) h = refl
      by_result (err e, v) (inl h) = cc
      by_result (err e, v) (inr h) = cc

  published :
      (item : RegenItem) (x : Option (Try (Unit {0}))) (w : World)
      → loop 3 [] 0 (task item (worked x) ∷ []) w
        ≡ (ignore (timeout (publish_regen_progress item (or_elapsed x))) >> acknowledge item) w
  unfolding for_each_concurrent go_on advance_from take_out start_tasks
  published item x w = by_result (publish_regen_progress item (or_elapsed x) w)
    where
      by_result :
          (r : Result (Unit {0}) × World)
          → resumed
              (loop 2 [])
              0
              []
              (after (λ _. pure (some (task item reported))) (dropped (clocked r)))
            ≡ after (λ _. acknowledge item) (dropped (clocked r))
      by_result (ok u, v) = acknowledged item v
      by_result (err e, v) = acknowledged item v
      by_result (hung, v) = acknowledged item v

  worked_on :
      (item : RegenItem) (w : World)
      → loop 4 [] 0 (task item starting ∷ []) w ≡ handle_regen_item dirs regenerator item w
  unfolding for_each_concurrent go_on advance_from take_out start_tasks handle_regen_item
      report_regen_item
  worked_on item w = by_result (process_regen_item dirs regenerator item w)
    where
      by_result :
          (r : Result (Unit {0}) × World)
          → resumed (loop 3 []) 0 [] (after (λ x. pure (some (task item (worked x)))) (clocked r))
            ≡ after
                (λ _. acknowledge item)
                (after
                  (λ x. ignore (timeout (publish_regen_progress item (or_elapsed x))))
                  (clocked r))
      by_result (ok u, v) = published item (some (got u)) v
      by_result (err e, v) = published item (some (failed e)) v
      by_result (hung, v) = published item none v

  -- Over one item the loop does what `handle_regen_item` does, whichever calls fail or never answer.
  for_each_concurrent-handle_regen_item :
      (item : RegenItem) (w : World)
      → loop 4 (item ∷ []) 0 [] w ≡ handle_regen_item dirs regenerator item w
  unfolding for_each_concurrent start_tasks
  for_each_concurrent-handle_regen_item item w =
      let room : true ≡ has_room limit 0 = unfold has_room in ground arith in
      subst
        (λ b.
          go_on dirs regenerator (loop 3) (choices 3) 0
            (if b then (task item starting ∷ [], []) else ([], item ∷ [])) w
          ≡ handle_regen_item dirs regenerator item w)
        room (worked_on item w)
