-- ===== src/Regen/Moves.antt =====
-- How the Redis commands of the regeneration queue move texts: LMOVE only shifts the border between
-- the two lists, LREM takes one entry out (src/worker/src/queue.rs).
use ginbar.Prelude.{
  ℕ, zero, suc, ◌+◌, ◌-◌, ◌≡◌, refl, sym, ap, ◌∙◌, ◌⊎◌, inl, inr, none, some, List, [], ◌∷◌, ◌++◌,
  append_assoc, append-nil, Text, text_eq, text_eq_iff, count, arith, if◌then◌else◌, take, drop,
  take-append-drop,
}
use ginbar.World.{Redis}
use ginbar.Regen.Lists.{lmove_times, split_last, lmove_back, lrem, somes, increment, counter}

-- The processing list with the queue behind it.
abbrev pub held : Redis → List Text
held r = r.processing ++ r.queue

-- A Redis whose two lists are replaced.
abbrev pub relisted : Redis → List Text → List Text → Redis
relisted r queue processing = record r { queue = queue; processing = processing }

take-nil : (n : ℕ) → take {A = Text} n [] ≡ []
take-nil zero = refl
take-nil (suc n) = refl

drop-nil : (n : ℕ) → drop {A = Text} n [] ≡ []
drop-nil zero = refl
drop-nil (suc n) = refl

-- A batch of LMOVE commands hands over, and moves, what stands at the front of the queue.
pub lmove_times_lem :
    (n : ℕ) (r : Redis) (queue processing : List Text)
    → (somes (lmove_times n (relisted r queue processing)).0 ≡ take n queue)
      × ((lmove_times n (relisted r queue processing)).1
          ≡ relisted r (drop n queue) (processing ++ take n queue))
unfolding lmove_times somes
lmove_times_lem zero r queue ps = (refl, ap (relisted r queue) (sym (append-nil ps)))
lmove_times_lem (suc n) r [] ps = ground (arith, lmove_times_lem n r [] ps, take-nil n, drop-nil n)
lmove_times_lem (suc n) r (t ∷ ts) ps =
    ground (arith, lmove_times_lem n r ts (ps ++ t ∷ []), append_assoc ps (t ∷ []) (take n ts))

-- A batch moves the border between the two lists and nothing else.
pub held-lmove_times : (n : ℕ) (r : Redis) → held (lmove_times n r).1 ≡ held r
held-lmove_times n r =
    ap held (lmove_times_lem n r r.queue r.processing).1
    ∙ (append_assoc r.processing (take n r.queue) (drop n r.queue)
        ∙ ap (λ q. r.processing ++ q) (take-append-drop n r.queue))

split_last-append : (ts : List Text) (t : Text) → split_last (ts ++ t ∷ []) ≡ some (ts, t)
unfolding split_last
split_last-append [] t = refl
split_last-append (u ∷ ts) t = rw (split_last-append ts t)

split_last_lem :
    (ts : List Text)
    → ((ts ≡ []) × (split_last ts ≡ none))
      ⊎ ((us : List Text) × (u : Text) × (ts ≡ us ++ u ∷ []) × (split_last ts ≡ some (us, u)))
unfolding split_last
split_last_lem [] = inl (refl, refl)
split_last_lem (t ∷ ts) = elim (split_last_lem ts) [
  | inl (empty, e) ↦ inr ([], t, ap (λ s. t ∷ s) empty, rw e)
  | inr (us, u, split, e) ↦ inr (t ∷ us, u, ap (λ s. t ∷ s) split, rw e)
]

-- LMOVE back moves the border the other way; on an empty processing list it does nothing.
pub lmove_back_lem :
    (r : Redis)
    → ((r.processing ≡ []) × (lmove_back r ≡ (none, r)))
      ⊎ ((us : List Text) × (u : Text) × (r.processing ≡ us ++ u ∷ [])
          × (lmove_back r ≡ (some u, relisted r (u ∷ r.queue) us)))
unfolding lmove_back
lmove_back_lem r = elim (split_last_lem r.processing) [
  | inl (empty, e) ↦ inl (empty, rw e)
  | inr (us, u, split, e) ↦ inr (us, u, split, rw e)
]

pub held-lmove_back : (r : Redis) → held (lmove_back r).1 ≡ held r
held-lmove_back r = elim (lmove_back_lem r) [
  | inl (empty, e) ↦ ap (λ x. held x.1) e
  | inr (us, u, split, e) ↦
      ap (λ x. held x.1) e
      ∙ (sym (append_assoc us (u ∷ []) r.queue) ∙ ap (λ p. p ++ r.queue) (sym split))
]

pub count-append : (v : Text) (xs ys : List Text) → count v (xs ++ ys) ≡ count v xs + count v ys
unfolding count
count-append v [] ys = omega arith
count-append v (x ∷ xs) ys = ground (arith, count-append v xs ys)

-- LREM takes out one entry if there is one, and no entry that differs.
pub count-lrem :
    (v w : Text) (ts : List Text)
    → count w (lrem v ts) ≡ (if text_eq v w then count w ts - 1 else count w ts)
unfolding count lrem
count-lrem v w [] = ground arith
count-lrem v w (t ∷ ts) =
    ground (arith, text_eq_iff t v, text_eq_iff t w, text_eq_iff v w, count-lrem v w ts)

-- INCR adds one to its own counter and leaves the others.
pub counter-increment :
    (key other : Text) (m : List (Text × ℕ))
    → counter other (increment key m)
      ≡ (if text_eq key other then counter other m + 1 else counter other m)
unfolding counter increment
counter-increment key other [] = ground arith
counter-increment key other ((k, n) ∷ m) = ground (
  arith,
  text_eq_iff k key,
  text_eq_iff k other,
  text_eq_iff key other,
  counter-increment key other m,
)
