-- ===== src/World/Rules.antt =====
-- What a sequence of calls keeps: a rule for each way to put calls together, over every script.
use ginbar.Prelude.{◌≡◌, refl, sym, ap, Bool, true, false, List, Text, if◌then◌else◌}
use ginbar.World.Monad.{
  World, Outcome, fine, refused, lost, hangs, hangs_late, Result, ok, err, hung, M, got, attempt,
  ignore, timeout, with_context, call, settle, outcome, rest_of, after, caught, dropped, clocked,
  wrapped, ◌>>=◌,
}

-- Whatever becomes of `m`, what held before it holds after it.
abbrev pub Keeps {κ} : {A : Type 0} → (World → Type κ) → M A → Type κ
Keeps P m = (w : World) → P w → P (m w).1

module _ {κ} (P : World → Type κ) where
  after-keeps :
      {A B : Type 0} (f : A → M B) (r : Result A × World)
      → P r.1
      → ((a : A) → Keeps P (f a))
      → P (after f r).1
  after-keeps f (ok a, w) h k = k a w h
  after-keeps f (err e, w) h k = h
  after-keeps f (hung, w) h k = h

  pub bind-Keeps :
      {A B : Type 0} (m : M A) (f : A → M B)
      → Keeps P m
      → ((a : A) → Keeps P (f a))
      → Keeps P (m >>= f)
  bind-Keeps m f km kf w h = after-keeps f (m w) (km w h) kf

  caught-keeps : {A : Type 0} (r : Result A × World) → P r.1 → P (caught r).1
  caught-keeps (ok a, w) h = h
  caught-keeps (err e, w) h = h
  caught-keeps (hung, w) h = h

  pub attempt-Keeps : {A : Type 0} (m : M A) → Keeps P m → Keeps P (attempt m)
  attempt-Keeps m k w h = caught-keeps (m w) (k w h)

  dropped-keeps : {A : Type 0} (r : Result A × World) → P r.1 → P (dropped r).1
  dropped-keeps (ok a, w) h = h
  dropped-keeps (err e, w) h = h
  dropped-keeps (hung, w) h = h

  pub ignore-Keeps : {A : Type 0} (m : M A) → Keeps P m → Keeps P (ignore m)
  ignore-Keeps m k w h = dropped-keeps (m w) (k w h)

  clocked-keeps : {A : Type 0} (r : Result A × World) → P r.1 → P (clocked r).1
  clocked-keeps (ok a, w) h = h
  clocked-keeps (err e, w) h = h
  clocked-keeps (hung, w) h = h

  pub timeout-Keeps : {A : Type 0} (m : M A) → Keeps P m → Keeps P (timeout m)
  timeout-Keeps m k w h = clocked-keeps (m w) (k w h)

  wrapped-keeps : {A : Type 0} (c : Text) (r : Result A × World) → P r.1 → P (wrapped c r).1
  wrapped-keeps c (ok a, w) h = h
  wrapped-keeps c (err e, w) h = h
  wrapped-keeps c (hung, w) h = h

  pub with_context-Keeps :
      {A : Type 0} (c : Text) (m : M A) → Keeps P m → Keeps P (with_context c m)
  with_context-Keeps c m k w h = wrapped-keeps c (m w) (k w h)

  settle-keeps : {A : Type 0} (o : Outcome) (a : A) (v u : World) → P v → P u → P (settle o a v u).1
  settle-keeps fine a v u hv hu = hv
  settle-keeps refused a v u hv hu = hu
  settle-keeps lost a v u hv hu = hv
  settle-keeps hangs a v u hv hu = hu
  settle-keeps hangs_late a v u hv hu = hv

  -- A call keeps what its effect keeps, if the script does not matter to it.
  pub call-Keeps :
      {A : Type 0} (answer : World → A) (effect : World → World)
      → ((w : World) (os : List Outcome) → P w → P (record w { script = os }))
      → ((w : World) → P w → P (effect w))
      → Keeps P (call answer effect)
  call-Keeps answer effect script keep w h =
      let u = record w { script = rest_of w.script } in
      settle-keeps (outcome w.script) (answer u) (effect u) u
        (keep u (script w (rest_of w.script) h)) (script w (rest_of w.script) h)

  pub if_Keeps :
      {A : Type 0} (b : Bool) (m n : M A) → Keeps P m → Keeps P n → Keeps P (if b then m else n)
  if_Keeps true m n km kn = km
  if_Keeps false m n km kn = kn

  ends-after :
      {A B : Type 0} (f : A → M B) (r : Result A × World)
      → P r.1
      → ((a : A) → r.0 ≡ ok a → P (f a r.1).1)
      → P (after f r).1
  ends-after f (ok a, w) h k = k a refl
  ends-after f (err e, w) h k = h
  ends-after f (hung, w) h k = h

  -- What holds after the first part, however it ends, and after the rest where the rest is run.
  pub bind_ends :
      {A B : Type 0} (m : M A) (f : A → M B) (w : World)
      → P (m w).1
      → ((a : A) → (m w).0 ≡ ok a → P (f a (m w).1).1)
      → P ((m >>= f) w).1
  bind_ends m f w h k = ends-after f (m w) h k

pub with_context-ok :
    {A : Type 0} (c : Text) (m : M A) (w : World) (a : A)
    → (with_context c m w).0 ≡ ok a
    → (m w).0 ≡ ok a
with_context-ok c m w a h = wrapped-ok c (m w) a h
  where
    wrapped-ok :
        {A : Type 0} (c : Text) (r : Result A × World) (a : A) → (wrapped c r).0 ≡ ok a → r.0 ≡ ok a
    wrapped-ok c (ok b, w) a h = h
    wrapped-ok c (err e, w) a h = cc
    wrapped-ok c (hung, w) a h = cc

pub with_context-world :
    {A : Type 0} (c : Text) (m : M A) (w : World) → (with_context c m w).1 ≡ (m w).1
with_context-world c m w = wrapped-world c (m w)
  where
    wrapped-world : {A : Type 0} (c : Text) (r : Result A × World) → (wrapped c r).1 ≡ r.1
    wrapped-world c (ok b, w) = refl
    wrapped-world c (err e, w) = refl
    wrapped-world c (hung, w) = refl

-- A call that is answered has had its effect.
pub call-ok :
    {A : Type 0} (answer : World → A) (effect : World → World) (w : World) (a : A)
    → (call answer effect w).0 ≡ ok a
    → (call answer effect w).1 ≡ effect (record w { script = rest_of w.script })
call-ok answer effect w a h = settled (outcome w.script) _ _ _ a h
  where
    settled :
        {A : Type 0} (o : Outcome) (b : A) (v u : World) (a : A)
        → (settle o b v u).0 ≡ ok a
        → (settle o b v u).1 ≡ v
    settled fine b v u a h = refl
    settled refused b v u a h = cc
    settled lost b v u a h = refl
    settled hangs b v u a h = cc
    settled hangs_late b v u a h = refl

-- A part that keeps `P` at whose end `Q` holds, and what takes `P` to `Q`.
pub bind_moves {κ} :
    {A B : Type 0} (P Q : World → Type κ) (m : M A) (f : A → M B)
    → ((w : World) → P w → Q w)
    → Keeps P m
    → ((a : A) (w : World) → P w → Q (f a w).1)
    → (w : World) → P w
    → Q ((m >>= f) w).1
bind_moves P Q m f pq km kf w h =
    bind_ends Q m f w (pq (m w).1 (km w h)) λ a _. kf a (m w).1 (km w h)

-- A sequence that succeeds has had each part succeed.
pub bind-ok :
    {A B : Type 0} (m : M A) (f : A → M B) (w : World) (b : B)
    → ((m >>= f) w).0 ≡ ok b
    → (a : A) × ((m w).0 ≡ ok a) × ((f a (m w).1).0 ≡ ok b) × ((m >>= f) w ≡ f a (m w).1)
bind-ok m f w b h = after-succeeds f (m w) b h
  where
    after-succeeds :
        {A B : Type 0} (f : A → M B) (r : Result A × World) (b : B)
        → (after f r).0 ≡ ok b
        → (a : A) × (r.0 ≡ ok a) × ((f a r.1).0 ≡ ok b) × (after f r ≡ f a r.1)
    after-succeeds f (ok a, w) b h = (a, refl, h, refl)
    after-succeeds f (err e, w) b h = cc
    after-succeeds f (hung, w) b h = cc

-- A call that takes `P` to `Q`, carried out or not.
pub call_moves {κ} :
    {A : Type 0} (P Q : World → Type κ) (answer : World → A) (effect : World → World)
    → ((w : World) (os : List Outcome) → P w → P (record w { script = os }))
    → ((w : World) → P w → Q w)
    → ((w : World) → P w → Q (effect w))
    → (w : World) → P w
    → Q (call answer effect w).1
call_moves P Q answer effect script pq pe w h =
    let u = record w { script = rest_of w.script } in
    settle-keeps Q (outcome w.script) (answer u) (effect u) u (pe u (script w (rest_of w.script) h))
      (pq u (script w (rest_of w.script) h))

pub attempt-world : {A : Type 0} (m : M A) (w : World) → (attempt m w).1 ≡ (m w).1
attempt-world m w = caught-world (m w)
  where
    caught-world : {A : Type 0} (r : Result A × World) → (caught r).1 ≡ r.1
    caught-world (ok a, w) = refl
    caught-world (err e, w) = refl
    caught-world (hung, w) = refl

-- A call that is answered has the answer of the world that it came to.
pub call-answer :
    {A : Type 0} (answer : World → A) (effect : World → World) (w : World) (a : A)
    → (call answer effect w).0 ≡ ok a
    → ok a ≡ ok (answer (record w { script = rest_of w.script }))
call-answer answer effect w a h = answered (outcome w.script) _ _ _ a h
  where
    answered :
        {A : Type 0} (o : Outcome) (b : A) (v u : World) (a : A)
        → (settle o b v u).0 ≡ ok a
        → ok a ≡ ok b
    answered fine b v u a h = sym h
    answered refused b v u a h = cc
    answered lost b v u a h = cc
    answered hangs b v u a h = cc
    answered hangs_late b v u a h = cc

pub attempt-got :
    {A : Type 0} (m : M A) (w : World) (a : A) → (attempt m w).0 ≡ ok (got a) → (m w).0 ≡ ok a
attempt-got m w a h = caught-got (m w) a h
  where
    caught-got :
        {A : Type 0} (r : Result A × World) (a : A) → (caught r).0 ≡ ok (got a) → r.0 ≡ ok a
    caught-got (ok b, w) a h = cc
    caught-got (err e, w) a h = cc
    caught-got (hung, w) a h = cc

-- A first part that succeeds hands its value over.
pub bind-next :
    {A B : Type 0} (m : M A) (f : A → M B) (w : World) (a : A)
    → (m w).0 ≡ ok a
    → (m >>= f) w ≡ f a (m w).1
bind-next m f w a h = after-next f (m w) a h
  where
    after-next :
        {A B : Type 0} (f : A → M B) (r : Result A × World) (a : A)
        → r.0 ≡ ok a
        → after f r ≡ f a r.1
    after-next f (ok b, w) a h = ap (λ r. after f (r, w)) h
    after-next f (err e, w) a h = cc
    after-next f (hung, w) a h = cc
