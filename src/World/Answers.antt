-- ===== src/World/Answers.antt =====
-- Code whose calls are all answered comes to an end: a rule for each way to put calls together.
use ginbar.Prelude.{◌≡◌, refl, sym, ap, subst, ◌≢◌, Bool, true, false, [], Text, if◌then◌else◌}
use ginbar.World.Monad.{
  World, Result, ok, err, hung, M, Try, got, failed, Error, pure, fail, attempt, ignore, timeout,
  with_context, call, outcome, rest_of, after, caught, dropped, clocked, wrapped, settle, ◌>>=◌,
}

-- An end, after which every further call would be answered too.
abbrev Ended : {A : Type 0} → Result A × World → Type 0
Ended r = (r.0 ≢ hung) × (r.1.script ≡ [])

abbrev pub Answers : {A : Type 0} → M A → Type 0
Answers m = (w : World) → w.script ≡ [] → Ended (m w)

pub pure-Answers : {A : Type 0} (a : A) → Answers (pure a)
pure-Answers a w h = (λ e. cc, h)

pub fail-Answers : {A : Type 0} (e : Error) → Answers (fail {A = A} e)
fail-Answers x w h = (λ e. cc, h)

after-Ended :
    {A B : Type 0} (f : A → M B) (r : Result A × World)
    → Ended r
    → ((a : A) → Answers (f a))
    → Ended (after f r)
after-Ended f (ok a, w) h k = k a w h.1
after-Ended f (err e, w) h k = (λ x. cc, h.1)
after-Ended f (hung, w) h k = elim (h.0 refl) [ ]

pub bind-Answers :
    {A B : Type 0} (m : M A) (f : A → M B)
    → Answers m
    → ((a : A) → Answers (f a))
    → Answers (m >>= f)
bind-Answers m f km kf w h = after-Ended f (m w) (km w h) kf

caught-Ended : {A : Type 0} (r : Result A × World) → Ended r → Ended (caught r)
caught-Ended (ok a, w) h = (λ x. cc, h.1)
caught-Ended (err e, w) h = (λ x. cc, h.1)
caught-Ended (hung, w) h = elim (h.0 refl) [ ]

pub attempt-Answers : {A : Type 0} (m : M A) → Answers m → Answers (attempt m)
attempt-Answers m k w h = caught-Ended (m w) (k w h)

dropped-Ended : {A : Type 0} (r : Result A × World) → Ended r → Ended (dropped r)
dropped-Ended (ok a, w) h = (λ x. cc, h.1)
dropped-Ended (err e, w) h = (λ x. cc, h.1)
dropped-Ended (hung, w) h = elim (h.0 refl) [ ]

pub ignore-Answers : {A : Type 0} (m : M A) → Answers m → Answers (ignore m)
ignore-Answers m k w h = dropped-Ended (m w) (k w h)

clocked-Ended : {A : Type 0} (r : Result A × World) → Ended r → Ended (clocked r)
clocked-Ended (ok a, w) h = (λ x. cc, h.1)
clocked-Ended (err e, w) h = (λ x. cc, h.1)
clocked-Ended (hung, w) h = (λ x. cc, h.1)

pub timeout-Answers : {A : Type 0} (m : M A) → Answers m → Answers (timeout m)
timeout-Answers m k w h = clocked-Ended (m w) (k w h)

wrapped-Ended : {A : Type 0} (c : Text) (r : Result A × World) → Ended r → Ended (wrapped c r)
wrapped-Ended c (ok a, w) h = (λ x. cc, h.1)
wrapped-Ended c (err e, w) h = (λ x. cc, h.1)
wrapped-Ended c (hung, w) h = elim (h.0 refl) [ ]

pub with_context-Answers :
    {A : Type 0} (c : Text) (m : M A) → Answers m → Answers (with_context c m)
with_context-Answers c m k w h = wrapped-Ended c (m w) (k w h)

pub call-Answers :
    {A : Type 0} (answer : World → A) (effect : World → World)
    → ((w : World) → w.script ≡ [] → (effect w).script ≡ [])
    → Answers (call answer effect)
call-Answers answer effect k w h =
    subst
      (λ os. Ended (
        settle (outcome os) (answer (record w { script = rest_of os }))
          (effect (record w { script = rest_of os })) (record w { script = rest_of os })))
      (sym h) (λ x. cc, k (record w { script = [] }) refl)

pub if-Answers :
    {A : Type 0} (b : Bool) (m n : M A) → Answers m → Answers n → Answers (if b then m else n)
if-Answers true m n km kn = km
if-Answers false m n km kn = kn

succeeded :
    {A : Type 0} (r : Result (Try A) × World) (m : Result A × World)
    → Ended r
    → r ≡ caught m
    → (t : Try A) × (r.0 ≡ ok t)
succeeded r (ok a, w) h e = (got a, ap (λ x. x.0) e)
succeeded r (err x, w) h e = (failed x, ap (λ x. x.0) e)
succeeded r (hung, w) h e = elim (h.0 (ap (λ x. x.0) e)) [ ]

-- A caught result is a result.
pub attempt-ok :
    {A : Type 0} (m : M A) (w : World)
    → Answers m
    → w.script ≡ []
    → (t : Try A) × ((attempt m w).0 ≡ ok t)
attempt-ok m w k h = succeeded (attempt m w) (m w) (attempt-Answers m k w h) refl
