-- ===== src/Regen/Lists.antt =====
-- The Redis commands of the regeneration queue (src/worker/src/queue.rs): LMOVE in both directions,
-- LREM with count 1, INCR.
use ginbar.Prelude.{
  ℕ, zero, suc, ◌+◌, Option, none, some, List, [], ◌∷◌, ◌++◌, Text, text_eq, if◌then◌else◌,
}
use ginbar.World.{Redis}

pop_from : List Text → Redis → Option Text × Redis
pop_from [] r = (none, r)
pop_from (t ∷ ts) r = (some t, record r { queue = ts; processing = r.processing ++ t ∷ [] })

-- LMOVE queue processing LEFT RIGHT
unfoldable pub lmove_pop : Redis → Option Text × Redis
unfolding pop_from
lmove_pop r = pop_from r.queue r

unfoldable pub lmove_times : ℕ → Redis → List (Option Text) × Redis
unfolding lmove_pop
lmove_times zero r = ([], r)
lmove_times (suc n) r =
    let (t, r') = lmove_pop r in let (ts, r'') = lmove_times n r' in (t ∷ ts, r'')

unfoldable pub split_last : List Text → Option (List Text × Text)
split_last [] = none
split_last (t ∷ ts) = elim (split_last ts) [ none ↦ some ([], t) | some (us, u) ↦ some (t ∷ us, u) ]

push_to : Option (List Text × Text) → Redis → Option Text × Redis
push_to none r = (none, r)
push_to (some (ts, t)) r = (some t, record r { queue = t ∷ r.queue; processing = ts })

-- LMOVE processing queue RIGHT LEFT
unfoldable pub lmove_back : Redis → Option Text × Redis
unfolding push_to split_last
lmove_back r = push_to (split_last r.processing) r

-- LREM list 1 value: the first entry that equals the value goes.
unfoldable pub lrem : Text → List Text → List Text
unfolding text_eq
lrem v [] = []
lrem v (t ∷ ts) = if text_eq t v then ts else t ∷ lrem v ts

-- `into_iter().flatten()`
unfoldable pub somes : List (Option Text) → List Text
somes [] = []
somes (none ∷ ts) = somes ts
somes (some t ∷ ts) = t ∷ somes ts

-- INCR key, from 0 where there is none.
unfoldable pub increment : Text → List (Text × ℕ) → List (Text × ℕ)
increment key [] = (key, 1) ∷ []
increment key ((k, n) ∷ m) = if text_eq k key then (k, n + 1) ∷ m else (k, n) ∷ increment key m

unfoldable pub counter : Text → List (Text × ℕ) → ℕ
counter key [] = 0
counter key ((k, n) ∷ m) = if text_eq k key then n else counter key m
