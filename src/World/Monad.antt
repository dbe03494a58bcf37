-- ===== src/World/Monad.antt =====
-- The state, the errors and the sequencing of `async` code with `?`, `let _ =` and `timeout`.
use ginbar.Prelude.{ℕ, Bool, Option, none, some, List, [], ◌∷◌, Text}
use ginbar.Database.{Post, DuplicateRow}
use ginbar.World.FileSystem.{Files}

-- The errors that the worker's functions return or wrap.
pub data Error : Type 0 where
  call_failed no_filename timed_out : Error
  -- A task that panicked, bytes that do not decode, pixels that do not encode, a command that failed.
  panicked undecodable unencodable command_failed : Error
  bad_url : Error
  bad_status : ℕ → Error
  unsupported : Text → Error
  source_missing : Text → Error
  no_source : ℕ → Error
  duplicate : ℕ → Error
  context : Text → Error → Error

-- A message on `wallium:regen:progress`: the post, the job, and the item's result, which the JSON
-- shows as `"ok": true`, or as `"ok": false` with the error.
pub record Progress : Type 0 where
  pub post_id : ℕ
  pub job_key : Text
  pub failure : Option Error

pub data PostPhase : Type 0 where
  downloading decoding encoding dedup_check finalizing processing_video : PostPhase

pub record ActivePostInfo : Type 0 where
  pub post_id : ℕ
  pub phase : PostPhase
  pub started_at : ℕ

-- The JSON under `wallium:queue:status`: the counters, and each post in flight with the seconds that
-- it has been there.
pub record Status : Type 0 where
  pub pending : ℕ
  pub active : ℕ
  pub total : ℕ
  pub processed : ℕ
  pub imported : ℕ
  pub failed : ℕ
  pub running : Bool
  pub active_posts : List (ℕ × PostPhase × ℕ)

-- The Redis keys of the regeneration queue, the keys `dup:post:<id>`, and the
-- status of the processing queue.
pub record Redis : Type 0 where
  pub queue : List Text
  pub processing : List Text
  pub counters : List (Text × ℕ)
  pub progress : List Progress
  pub dup_posts : List (ℕ × List DuplicateRow)
  pub status : Option Status

-- What becomes of one call: carried out and answered; refused with no effect; carried out, but the
-- reply is an error; never answered, with no effect or with it.
pub data Outcome : Type 0 where
  fine refused lost hangs hangs_late : Outcome

pub record World : Type 0 where
  pub posts : List Post
  pub files : Files
  pub redis : Redis
  pub active : List ActivePostInfo
  pub now : ℕ
  pub script : List Outcome

-- `hung` is a future that never completes: only a timeout gets past it.
pub data Result (A : Type 0) : Type 0 where
  ok : A → Result A
  err : Error → Result A
  hung : Result A

abbrev pub M : Type 0 → Type 0
M A = World → Result A × World

abbrev pub pure : {A : Type 0} → A → M A
pure a w = (ok a, w)

abbrev pub fail : {A : Type 0} → Error → M A
fail e w = (err e, w)

-- A loop out of fuel.
abbrev pub stuck : {A : Type 0} → M A
stuck w = (hung, w)

abbrev pub after : {A B : Type 0} → (A → M B) → Result A × World → Result B × World
after f (ok a, w) = f a w
after f (err e, w) = (err e, w)
after f (hung, w) = (hung, w)

infixl 5 ◌>>=◌ ◌>>◌
abbrev pub ◌>>=◌ : {A B : Type 0} → M A → (A → M B) → M B
◌>>=◌ m f w = after f (m w)

abbrev pub ◌>>◌ : {B : Type 0} → M (Unit {0}) → M B → M B
◌>>◌ m k = m >>= λ _. k

-- The value of a `Result` that the code looks at.
pub data Try (A : Type 0) : Type 0 where
  got : A → Try A
  failed : Error → Try A

abbrev pub caught : {A : Type 0} → Result A × World → Result (Try A) × World
caught (ok a, w) = (ok (got a), w)
caught (err e, w) = (ok (failed e), w)
caught (hung, w) = (hung, w)

-- `match call.await { Ok(a) => …, Err(e) => … }`.
abbrev pub attempt : {A : Type 0} → M A → M (Try A)
attempt m w = caught (m w)

abbrev pub dropped : {A : Type 0} → Result A × World → Result (Unit {0}) × World
dropped (ok a, w) = (ok tt, w)
dropped (err e, w) = (ok tt, w)
dropped (hung, w) = (hung, w)

-- `let _ = call.await;`.
abbrev pub ignore : {A : Type 0} → M A → M (Unit {0})
ignore m w = dropped (m w)

abbrev pub clocked : {A : Type 0} → Result A × World → Result (Option (Try A)) × World
clocked (ok a, w) = (ok (some (got a)), w)
clocked (err e, w) = (ok (some (failed e)), w)
clocked (hung, w) = (ok none, w)

-- `tokio::time::timeout(d, call).await`: `none` is `Err(Elapsed)`. What the call did stays done.
abbrev pub timeout : {A : Type 0} → M A → M (Option (Try A))
timeout m w = clocked (m w)

-- A panic unwinds past `.context`.
abbrev pub in_context : Text → Error → Error
in_context c panicked = panicked
in_context c e = context c e

abbrev pub wrapped : {A : Type 0} → Text → Result A × World → Result A × World
wrapped c (ok a, w) = (ok a, w)
wrapped c (err e, w) = (err (in_context c e), w)
wrapped c (hung, w) = (hung, w)

-- `.context("…")`.
abbrev pub with_context : {A : Type 0} → Text → M A → M A
with_context c m w = wrapped c (m w)

abbrev pub settle : {A : Type 0} → Outcome → A → World → World → Result A × World
settle fine a w' w = (ok a, w')
settle refused a w' w = (err call_failed, w)
settle lost a w' w = (err call_failed, w')
settle hangs a w' w = (hung, w)
settle hangs_late a w' w = (hung, w')

-- The next outcome of the script; past its end every call succeeds.
abbrev pub outcome : List Outcome → Outcome
outcome [] = fine
outcome (o ∷ os) = o

abbrev pub rest_of : List Outcome → List Outcome
rest_of [] = []
rest_of (o ∷ os) = os

-- One call with its answer and its effect.
abbrev pub call : {A : Type 0} → (World → A) → (World → World) → M A
call answer effect w =
    let u = record w { script = rest_of w.script } in
    settle (outcome w.script) (answer u) (effect u) u
