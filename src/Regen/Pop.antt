-- ===== src/Regen/Pop.antt =====
-- Taking work off the queue: `pop_regen_items` of src/worker/src/queue.rs.
use ginbar.Prelude.{
  ℕ, zero, suc, ◌≡◌, refl, ap, ◌∙◌, inl, inr, Bool, true, false, Option, none, some, List, [], ◌∷◌,
  ◌++◌, Text, text_eq, text_eq_iff, count, arith, length, ltb, Option-cases,
}
use ginbar.World.{World, Redis, M, pure, rest_of}
use ginbar.World.Calls.{connect, nothing}
use ginbar.World.Rules.{Keeps, bind-Keeps, call-Keeps, if_Keeps}
use ginbar.Regen.{RegenItem, move_batch, round, parse_batch, pop_loop, pop_regen_items}
use ginbar.Regen.Lists.{lmove_times, lrem, somes}
use ginbar.Regen.Moves.{held, held-lmove_times, count-append, count-lrem}

module _ (from_str : Text → Option RegenItem) where
  abbrev pub is_valid : Text → Bool
  is_valid raw = elim (from_str raw) [ none ↦ false | some item ↦ true ]

  valid-ne : (v raw : Text) → is_valid v ≡ true → from_str raw ≡ none → text_eq raw v ≡ false
  valid-ne v raw h e = ground (arith, text_eq_iff raw v)

  -- Removing a text that does not parse leaves the texts that do.
  count-held-lrem :
      (v raw : Text) (r : Redis)
      → is_valid v ≡ true
      → from_str raw ≡ none
      → count v (held (record r { processing = lrem raw r.processing })) ≡ count v (held r)
  count-held-lrem v raw r h e = ground (
    arith,
    valid-ne v raw h e,
    count-lrem raw v r.processing,
    count-append v (lrem raw r.processing) r.queue,
    count-append v r.processing r.queue,
  )

  count-parse_batch :
      (v : Text) (raws : List Text) (items : List RegenItem) (w : World)
      → is_valid v ≡ true
      → count v (held (parse_batch from_str raws items w).1.redis) ≡ count v (held w.redis)
  unfolding parse_batch
  count-parse_batch v [] items w h = refl
  count-parse_batch v (raw ∷ rest) items w h = elim (Option-cases (from_str raw)) [
    | inr (item, e) ↦
        ground
          (arith, e, count-parse_batch v rest (items ++ record item { raw_json = raw } ∷ []) w h)
    | inl e ↦ ground (
      arith,
      e,
      count-held-lrem v raw w.redis h e,
      count-parse_batch v rest items (record w { script = rest_of w.script }) h,
      count-parse_batch v rest items
          (record w {
            script = rest_of w.script;
            redis = record w.redis { processing = lrem raw w.redis.processing };
          })
          h,
    )
  ]

  -- The invariant of the rounds, for one text.
  abbrev Held : Text → ℕ → World → Type 0
  Held v n w = count v (held w.redis) ≡ n

  move_batch-Keeps : (v : Text) (n size : ℕ) → Keeps (Held v n) (move_batch size)
  move_batch-Keeps v n size =
      call-Keeps (Held v n) (λ w. (lmove_times size w.redis).0)
        (λ w. record w { redis = (lmove_times size w.redis).1 }) (λ w os h. h)
        (λ w h. ap (count v) (held-lmove_times size w.redis) ∙ h)

  parse_batch-Keeps :
      (v : Text) (n : ℕ) (raws : List Text) (items : List RegenItem)
      → is_valid v ≡ true
      → Keeps (Held v n) (parse_batch from_str raws items)
  parse_batch-Keeps v n raws items valid w h = count-parse_batch v raws items w valid ∙ h

  round-Keeps :
      (v : Text) (n size : ℕ) (next : List RegenItem → M (List RegenItem)) (items : List RegenItem)
      (raws : List Text)
      → is_valid v ≡ true
      → ((more : List RegenItem) → Keeps (Held v n) (next more))
      → Keeps (Held v n) (round from_str next size items raws)
  unfolding round
  round-Keeps v n size next items [] valid kn = λ w h. h
  round-Keeps v n size next items (raw ∷ raws) valid kn =
      bind-Keeps (Held v n) (parse_batch from_str (raw ∷ raws) items) _
        (parse_batch-Keeps v n (raw ∷ raws) items valid)
        λ more.
          if_Keeps (Held v n) (ltb (length (raw ∷ raws)) size) (pure more) (next more) (λ w h. h)
            (kn more)

  pop_loop-Keeps :
      (v : Text) (n size fuel : ℕ) (items : List RegenItem)
      → is_valid v ≡ true
      → Keeps (Held v n) (pop_loop from_str size fuel items)
  unfolding pop_loop
  pop_loop-Keeps v n size zero items valid = λ w h. h
  pop_loop-Keeps v n size (suc fuel) items valid =
      bind-Keeps (Held v n) (move_batch size) _ (move_batch-Keeps v n size) λ batch.
        round-Keeps v n size (pop_loop from_str size fuel) items (somes batch) valid
          λ more. pop_loop-Keeps v n size fuel more valid

  -- Whichever calls fail or hang while the queue is popped, a text that parses is neither lost nor
  -- doubled: it stands as often in the two lists together after the call as before.
  pub count-pop_regen_items :
      (v : Text) (w : World)
      → is_valid v ≡ true
      → count v (held (pop_regen_items from_str w).1.redis) ≡ count v (held w.redis)
  unfolding pop_regen_items
  count-pop_regen_items v w valid =
      bind-Keeps (Held v (count v (held w.redis))) connect _
        (call-Keeps (Held v (count v (held w.redis))) nothing (λ u. u) (λ u os h. h) (λ u h. h))
        (λ c. pop_loop-Keeps v (count v (held w.redis)) _ _ [] valid) w refl
