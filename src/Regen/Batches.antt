-- ===== src/Regen/Batches.antt =====
-- What `pop_regen_items` of src/worker/src/queue.rs returns when Redis answers every call.
use ginbar.Prelude.{
  ℕ, zero, suc, ◌+◌, ◌-◌, ◌<◌, ◌≡◌, refl, sym, ap, ◌∙◌, ◌⊎◌, inl, inr, true, false, Option, none,
  some, List, [], ◌∷◌, ◌++◌, append_assoc, append-nil, Text, text_eq, text_eq_iff, count, arith,
  length, take, drop, take-append-drop, length-take, length-drop, if◌then◌else◌, ltb, Option-cases,
  Bool-cases,
}
use ginbar.World.{World, M, ok}
use ginbar.Regen.{RegenItem, parse_batch, round, pop_loop, pop_regen_items, regen_pop_batch}
use ginbar.Regen.Lists.{lrem}
use ginbar.Regen.Moves.{relisted, lmove_times_lem, count-append, count-lrem}
use ginbar.Regen.Recover.{with_redis, calm}
use ginbar.Regen.Pop.{is_valid}

nil_of_length : (xs : List Text) → length xs ≡ 0 → xs ≡ []
nil_of_length [] h = refl
nil_of_length (x ∷ xs) h = absurd (omega arith)

count_nil : (v : Text) → count v [] ≡ 0
unfolding count
count_nil v = refl

-- A batch that is not full has emptied the queue, and a full one has shortened it.
drop_short : (size : ℕ) (q : List Text) → ltb (length (take size q)) size ≡ true → drop size q ≡ []
drop_short size q h =
    nil_of_length (drop size q) (ground (arith, length-take size q, length-drop size q))

drop_fewer :
    (size : ℕ) (q : List Text) (fuel : ℕ)
    → 0 < size
    → ltb (length (take size q)) size ≡ false
    → length q < suc fuel
    → length (drop size q) < fuel
drop_fewer size q fuel pos full h = ground (arith, length-take size q, length-drop size q)

module _ (from_str : Text → Option RegenItem) where
  -- The items of those texts that parse, in order.
  abbrev pub parsed : List Text → List RegenItem
  parsed [] = []
  parsed (raw ∷ rest) = elim (from_str raw) [
    | none ↦ parsed rest
    | some item ↦ record item { raw_json = raw } ∷ parsed rest
  ]

  -- A list from which each text of another that does not parse is removed once.
  cleaned : List Text → List Text → List Text
  cleaned [] ps = ps
  cleaned (raw ∷ rest) ps = cleaned rest (if is_valid from_str raw then ps else lrem raw ps)

  parsed-append : (xs ys : List Text) → parsed (xs ++ ys) ≡ parsed xs ++ parsed ys
  parsed-append [] ys = refl
  parsed-append (x ∷ xs) ys = ground (arith, parsed-append xs ys)

  valid_or_ne :
      (v raw : Text) → (is_valid from_str raw ≡ is_valid from_str v) ⊎ (text_eq raw v ≡ false)
  valid_or_ne v raw = elim (Bool-cases (text_eq raw v)) [
    | inl e ↦ inl (ap (is_valid from_str) ((text_eq_iff raw v).0 e))
    | inr e ↦ inr e
  ]

  count-cleaned :
      (v : Text) (raws ps : List Text)
      → count v (cleaned raws ps)
        ≡ (if is_valid from_str v then count v ps else count v ps - count v raws)
  unfolding cleaned count
  count-cleaned v [] ps = ground arith
  count-cleaned v (raw ∷ rest) ps = ground (
    arith,
    valid_or_ne v raw,
    count-cleaned v rest ps,
    count-cleaned v rest (lrem raw ps),
    count-lrem raw v ps,
  )

  abbrev with_processing : World → List Text → World
  with_processing w ps = record w { redis = record w.redis { processing = ps } }

  parse_batch-calm :
      (raws : List Text) (items : List RegenItem) (w : World)
      → parse_batch from_str raws items (calm w)
        ≡ (ok (items ++ parsed raws), calm (with_processing w (cleaned raws w.redis.processing)))
  unfolding parse_batch cleaned
  parse_batch-calm [] items w = ground (arith, append-nil items)
  parse_batch-calm (raw ∷ rest) items w = elim (Option-cases (from_str raw)) [
    | inr (item, e) ↦ ground (
      arith,
      e,
      parse_batch-calm rest (items ++ record item { raw_json = raw } ∷ []) w,
      append_assoc items (record item { raw_json = raw } ∷ []) (parsed rest),
    )
    | inl e ↦
        ground
          (arith, e, parse_batch-calm rest items (with_processing w (lrem raw w.redis.processing)))
  ]

  -- The world when the batch has been moved, and when its invalid texts have been removed too.
  abbrev moved : World → List Text → List Text → World
  moved w batch left = with_redis w (relisted w.redis left (w.redis.processing ++ batch))

  abbrev swept : World → List Text → List Text → World
  swept w batch left =
      with_redis w (relisted w.redis left (cleaned batch (w.redis.processing ++ batch)))

  round-calm :
      (next : List RegenItem → M (List RegenItem)) (size : ℕ) (items : List RegenItem)
      (batch left : List Text) (w : World)
      → 0 < size
      → round from_str next size items batch (calm (moved w batch left)) ≡ (
          if ltb (length batch) size
          then (ok (items ++ parsed batch), calm (swept w batch left))
          else next (items ++ parsed batch) (calm (swept w batch left)))
  unfolding round cleaned
  round-calm next size items [] left w pos = ground (arith, append-nil items)
  round-calm next size items (raw ∷ raws) left w pos =
      ground (arith, parse_batch-calm (raw ∷ raws) items (moved w (raw ∷ raws) left))

  -- What is claimed of the rounds from a world on.
  abbrev pub Popped : List RegenItem → World → M (List RegenItem) → Type 0
  Popped items w m =
      (ps : List Text) × (m (calm w)
        ≡ (ok (items ++ parsed w.redis.queue), calm (with_redis w (relisted w.redis [] ps))))
      × ((v : Text)
          → count v ps ≡ (
              if is_valid from_str v
              then count v w.redis.processing + count v w.redis.queue
              else count v w.redis.processing))

  -- The counts after a round that took `batch` from the queue.
  count-round :
      (v : Text) (size : ℕ) (q ps : List Text)
      → count v (cleaned (take size q) (ps ++ take size q))
        ≡ (if is_valid from_str v then count v ps + count v (take size q) else count v ps)
  count-round v size q ps =
      ground
        (arith, count-cleaned v (take size q) (ps ++ take size q), count-append v ps (take size q))

  count-queue :
      (v : Text) (size : ℕ) (q : List Text)
      → count v (take size q) + count v (drop size q) ≡ count v q
  count-queue v size q =
      sym (count-append v (take size q) (drop size q)) ∙ ap (count v) (take-append-drop size q)

  parsed-queue :
      (size : ℕ) (items : List RegenItem) (q : List Text)
      → (items ++ parsed (take size q)) ++ parsed (drop size q) ≡ items ++ parsed q
  parsed-queue size items q =
      append_assoc items (parsed (take size q)) (parsed (drop size q))
      ∙ ap (λ r. items ++ r)
          (sym (parsed-append (take size q) (drop size q)) ∙ ap parsed (take-append-drop size q))

  pop_loop_step :
      (size fuel : ℕ) (items : List RegenItem) (w : World)
      → pop_loop from_str size (suc fuel) items (calm w)
        ≡ round from_str
            (pop_loop from_str size fuel)
            size
            items
            (take size w.redis.queue)
            (calm (moved w (take size w.redis.queue) (drop size w.redis.queue)))
  unfolding pop_loop
  pop_loop_step size fuel items w =
      let lem = lmove_times_lem size w.redis w.redis.queue w.redis.processing in
      λ i.
        round from_str (pop_loop from_str size fuel) size items (lem.0 i)
          (calm (with_redis w (lem.1 i)))

  pop_loop-calm :
      (size fuel : ℕ) (items : List RegenItem) (w : World)
      → 0 < size
      → length w.redis.queue < fuel
      → Popped items w (pop_loop from_str size fuel items)
  pop_loop-calm size zero items w pos h = elim h [ ]
  pop_loop-calm size (suc fuel) items w pos h =
      elim (Bool-cases (ltb (length (take size w.redis.queue)) size)) [
        | inl short ↦ (
          cleaned (take size w.redis.queue) (w.redis.processing ++ take size w.redis.queue),
          ground (
            arith,
            pop_loop_step size fuel items w,
            round-calm (pop_loop from_str size fuel) size items (take size w.redis.queue)
                (drop size w.redis.queue) w pos,
            drop_short size w.redis.queue short,
            parsed-queue size items w.redis.queue,
            append-nil (items ++ parsed (take size w.redis.queue)),
          ),
          λ v. ground (
            arith,
            count-round v size w.redis.queue w.redis.processing,
            count-queue v size w.redis.queue,
            ap (count v) (drop_short size w.redis.queue short),
            count_nil v,
          ),
        )
        | inr full ↦
            let u = swept w (take size w.redis.queue) (drop size w.redis.queue) in
            let (ps, e, counts) =
              pop_loop-calm size fuel (items ++ parsed (take size w.redis.queue)) u pos
                (drop_fewer size w.redis.queue fuel pos full h) in
            (
              ps,
              ground (
                arith,
                e,
                pop_loop_step size fuel items w,
                round-calm (pop_loop from_str size fuel) size items (take size w.redis.queue)
                    (drop size w.redis.queue) w pos,
                parsed-queue size items w.redis.queue,
              ),
              λ v. ground (
                arith,
                counts v,
                count-round v size w.redis.queue w.redis.processing,
                count-queue v size w.redis.queue,
              ),
            )
      ]

  -- When no call fails, popping the queue returns an item for each text that parses, in the order of
  -- the queue, and empties the queue. The processing list then holds the texts that parse as often as
  -- both lists did before, and every other text as often as it did itself: those taken from the
  -- queue that do not parse are gone. Nothing else changes.
  pub pop_regen_items-calm : (w : World) → Popped [] w (pop_regen_items from_str)
  unfolding pop_regen_items
  pop_regen_items-calm w =
      pop_loop-calm regen_pop_batch (suc (length w.redis.queue)) [] w (omega arith) (omega arith)
