-- ===== src/Regen/Tally.antt =====
-- Sums over the tasks of `drain_regen` (src/worker/src/queue.rs), which do not depend on their order.
use ginbar.Prelude.{
  ℕ, zero, suc, ◌+◌, ◌*◌, ◌≡◌, refl, ap, subst, ◌≤◌, Bool, true, Bool-cases, inl, inr, List, [],
  ◌∷◌, ◌++◌, map, length, Text, text_eq, count, arith, if◌then◌else◌,
}
use ginbar.Regen.{RegenItem}
use ginbar.Regen.Concurrent.{Task, task, starting, start_tasks, take_out}
use ginbar.Queue.Batch.{has_room}

abbrev pub one : Bool → ℕ
one b = if b then 1 else 0

unfoldable pub total : {A : Type 0} → (A → ℕ) → List A → ℕ
total f [] = 0
total f (x ∷ xs) = f x + total f xs

pub total-append :
    {A : Type 0} (f : A → ℕ) (xs ys : List A) → total f (xs ++ ys) ≡ total f xs + total f ys
unfolding total
total-append f [] ys = omega arith
total-append f (x ∷ xs) ys = omega (arith, total-append f xs ys)

pub total-count :
    (v : Text) (f : RegenItem → Text) (items : List RegenItem)
    → total (λ i. one (text_eq (f i) v)) items ≡ count v (map f items)
unfolding total count
total-count v f [] = refl
total-count v f (i ∷ items) = ground (arith, total-count v f items)

pub total-const : (n : ℕ) (items : List RegenItem) → total (λ i. n) items ≡ n * length items
unfolding total
total-const n [] = omega arith
total-const n (i ∷ items) = grind (arith, total-const n items)

pub total-take_out :
    (f : Task → ℕ) (n : ℕ) (x : Task) (xs : List Task)
    → f (take_out n x xs).0 + total f (take_out n x xs).1 ≡ f x + total f xs
unfolding total take_out
total-take_out f zero x [] = refl
total-take_out f (suc n) x [] = refl
total-take_out f zero x (y ∷ ys) = refl
total-take_out f (suc n) x (y ∷ ys) = omega (arith, total-take_out f n y ys)

-- What the waiting items and the running tasks come to together.
abbrev pub whole : (Task → ℕ) → List Task × List RegenItem → ℕ
whole f (running, items) = total f running + total (λ i. f (task i starting)) items

pub whole-start_tasks :
    (f : Task → ℕ) (limit lost : ℕ) (running : List Task) (items : List RegenItem)
    → whole f (start_tasks limit lost running items) ≡ whole f (running, items)
unfolding total start_tasks
whole-start_tasks f limit lost running [] = refl
whole-start_tasks f limit lost running (i ∷ items) =
    elim (Bool-cases (has_room limit (length running + lost))) [
      | inl e ↦
          rw e (ground (arith, whole-start_tasks f limit lost (task i starting ∷ running) items))
      | inr e ↦ rw e refl
    ]

start_tasks-length :
    (limit lost : ℕ) (running : List Task) (items : List RegenItem)
    → length running ≤ length (start_tasks limit lost running items).0
unfolding start_tasks
start_tasks-length limit lost running [] = omega arith
start_tasks-length limit lost running (i ∷ items) =
    elim (Bool-cases (has_room limit (length running + lost))) [
      | inl e ↦
          rw e (omega (arith, start_tasks-length limit lost (task i starting ∷ running) items))
      | inr e ↦ rw e (omega arith)
    ]

-- With every slot free, an item that is there is started.
pub start_tasks-none :
    (limit : ℕ) (running : List Task) (items : List RegenItem)
    → (start_tasks limit 0 running items).0 ≡ []
    → (start_tasks limit 0 running items).1 ≡ []
unfolding start_tasks
start_tasks-none limit running [] h = refl
start_tasks-none limit (t ∷ running) (i ∷ items) h =
    absurd (omega (arith, start_tasks-length limit 0 (t ∷ running) (i ∷ items), ap length h))
start_tasks-none limit [] (i ∷ items) h =
    let room : has_room limit 0 ≡ true = unfold has_room in ground arith in
    let rest = start_tasks limit 0 (task i starting ∷ []) items in
    let e = subst (λ b. (if b then rest else ([], i ∷ items)).0 ≡ []) room h in
    absurd (omega (arith, start_tasks-length limit 0 (task i starting ∷ []) items, ap length e))
