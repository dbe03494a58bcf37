-- ===== src/Regen/Recover.antt =====
-- Startup recovery: `recover_processing_list` of src/worker/src/queue.rs.
use ginbar.Prelude.{
  ℕ, zero, suc, ◌<◌, ◌≡◌, refl, sym, ap, ◌∙◌, inl, inr, List, [], ◌∷◌, ◌++◌, append_assoc, Text,
  arith, length, length-append,
}
use ginbar.World.{World, Redis, ok, rest_of}
use ginbar.Regen.{recover_loop, recover_processing_list}
use ginbar.Regen.Lists.{lmove_back}
use ginbar.Regen.Moves.{held, relisted, lmove_back_lem, held-lmove_back}

-- A world that differs in Redis and in the rest of the script.
abbrev pub with_redis : World → Redis → World
with_redis w r = record w { redis = r }

held-recover_loop : (fuel : ℕ) (w : World) → held (recover_loop fuel w).1.redis ≡ held w.redis
unfolding recover_loop
held-recover_loop zero w = refl
held-recover_loop (suc fuel) w = ground (
  arith,
  held-lmove_back w.redis,
  held-recover_loop fuel (record w { script = rest_of w.script; redis = (lmove_back w.redis).1 }),
)

-- Whichever calls fail or hang, startup recovery neither loses nor reorders a text: the processing
-- list followed by the queue is the same list before and after.
pub held-recover_processing_list :
    (w : World) → held (recover_processing_list w).1.redis ≡ held w.redis
unfolding recover_processing_list
held-recover_processing_list w = ground (
  arith,
  held-recover_loop (suc (length w.redis.processing))
      (record w { script = rest_of (rest_of w.script) }),
)

-- A world in which every further call succeeds.
abbrev pub calm : World → World
calm w = record w { script = [] }

-- Redis when all of the processing list is back at the front of the queue.
abbrev pub requeued : Redis → Redis
requeued r = relisted r (r.processing ++ r.queue) []

requeued-relisted :
    (r : Redis) (us : List Text) (u : Text)
    → r.processing ≡ us ++ u ∷ []
    → requeued (relisted r (u ∷ r.queue) us) ≡ requeued r
requeued-relisted r us u e =
    ap (λ q. relisted r q [])
      (sym (append_assoc us (u ∷ []) r.queue) ∙ ap (λ p. p ++ r.queue) (sym e))

requeued-empty : (r : Redis) → r.processing ≡ [] → requeued r ≡ r
requeued-empty r e =
    ap (λ p. relisted r (p ++ r.queue) []) e ∙ ap (λ p. relisted r r.queue p) (sym e)

recover_loop-calm :
    (fuel : ℕ) (w : World)
    → length w.redis.processing < fuel
    → recover_loop fuel (calm w) ≡ (ok tt, calm (with_redis w (requeued w.redis)))
unfolding recover_loop
recover_loop-calm zero w h = elim h [ ]
recover_loop-calm (suc fuel) w h = elim (lmove_back_lem w.redis) [
  | inl (empty, e) ↦ ground (arith, requeued-empty w.redis empty)
  | inr (us, u, split, e) ↦ ground (
    arith,
    requeued-relisted w.redis us u split,
    ap (length {0}) split,
    length-append us (u ∷ []),
    recover_loop-calm fuel (with_redis w (relisted w.redis (u ∷ w.redis.queue) us)),
  )
]

-- When no call fails, startup recovery returns, empties the processing list and puts its texts, in
-- their order, in front of the queue; nothing else changes.
pub recover_processing_list-calm :
    (w : World) → recover_processing_list (calm w) ≡ (ok tt, calm (with_redis w (requeued w.redis)))
unfolding recover_processing_list
recover_processing_list-calm w =
    ground (arith, recover_loop-calm (suc (length w.redis.processing)) w, requeued-empty w.redis)
