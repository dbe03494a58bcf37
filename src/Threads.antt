-- ===== src/Threads.antt =====
-- How many threads an encoder gets: `encoder_thread_count` (src/worker/src/avif.rs),
-- `fullres_encode_threads` (src/worker/src/processing.rs) and `ffmpeg_thread_count`
-- (src/worker/src/ffmpeg.rs). The environment and the number of CPUs are arguments; `none` is the
-- panic of a division by zero.
use ginbar.Prelude.{
  ℕ, zero, suc, ◌+◌, ◌-◌, ◌*◌, ◌/◌, ◌%◌, ◌≤◌, ◌≡◌, refl, sym, ap, ◌∙◌, ◌↔◌, ◌⊎◌, inl, inr, max,
  Option, none, some, Text, codes, arith,
}
use ginbar.Prelude.Digits.{parse_number}

abbrev pub word : ℕ
word = 4294967296

-- `v.parse::<u32>()`
unfoldable pub parse_u32 : Text → Option ℕ
unfolding parse_number
parse_u32 s = parse_number word s

abbrev pub Environment : Type 0
Environment = Text → Option Text

abbrev parsed : Option Text → Option ℕ
parsed none = none
parsed (some v) = parse_u32 v

abbrev unwrap_or : ℕ → Option ℕ → ℕ
unwrap_or d none = d
unwrap_or d (some n) = n

-- A number above 0 in a variable is taken, and else what follows.
unfoldable pub or_positive : Option ℕ → Option ℕ → Option ℕ
or_positive none rest = rest
or_positive (some zero) rest = rest
or_positive (some (suc n)) rest = some (suc n)

-- `a / b`
unfoldable pub divide : ℕ → ℕ → Option ℕ
divide a zero = none
divide a (suc b) = some (a / suc b)

abbrev pub worker_concurrency : Environment → ℕ
worker_concurrency env = unwrap_or 4 (parsed (env (codes "WORKER_CONCURRENCY")))

abbrev pub override : Environment → Option ℕ
override env = parsed (env (codes "SVT_AV1_THREADS"))

abbrev at_least_one : Option ℕ → Option ℕ
at_least_one none = none
at_least_one (some n) = some (max n 1)

abbrev less_one : Option ℕ → Option ℕ
less_one none = none
less_one (some n) = some (n - 1)

unfoldable pub encoder_thread_count : Environment → ℕ → Option ℕ
unfolding or_positive divide
encoder_thread_count env cpus =
    or_positive (override env) (at_least_one (divide cpus (2 * worker_concurrency env % word)))

unfoldable pub fullres_encode_threads : Environment → ℕ → Option ℕ
unfolding or_positive divide
fullres_encode_threads env cpus =
    or_positive (override env) (at_least_one (less_one (divide cpus (worker_concurrency env))))

unfoldable pub ffmpeg_thread_count : Environment → ℕ → Option ℕ
unfolding or_positive
ffmpeg_thread_count env cpus =
    or_positive (parsed (env (codes "FFMPEG_THREADS"))) (some (max (cpus / 4) 1))

div_mul_le : (a b : ℕ) → suc b * (a / suc b) ≤ a
div_mul_le a b = grind arith

-- The number of threads by the override and the concurrency.
abbrev threads : Option ℕ → ℕ → ℕ → Option ℕ
threads o c cpus = or_positive o (at_least_one (less_one (divide cpus c)))

threads-none :
    (o : Option ℕ) (c cpus : ℕ)
    → (threads o c cpus ≡ none) ↔ ((c ≡ 0) × ((o ≡ none) ⊎ (o ≡ some 0)))
unfolding or_positive divide
threads-none none zero cpus = (λ e. (refl, inl refl), λ h. refl)
threads-none none (suc c) cpus = (λ e. cc, λ h. absurd (omega (arith, h.0)))
threads-none (some zero) zero cpus = (λ e. (refl, inr refl), λ h. refl)
threads-none (some zero) (suc c) cpus = (λ e. cc, λ h. absurd (omega (arith, h.0)))
threads-none (some (suc n)) c cpus = ground arith

threads-budget :
    (c cpus n : ℕ) → threads none c cpus ≡ some n → (c * (1 + n) ≤ cpus) ↔ (2 * c ≤ cpus)
unfolding or_positive divide
threads-budget zero cpus n e = cc
threads-budget (suc c) cpus n e =
    let q : n ≡ max (cpus / suc c - 1) 1 = cc e in
    (λ h. grind (arith, q, h), λ h. grind (arith, q, h, div_mul_le cpus c))

-- A panic happens exactly where the concurrency is 0 and no number of threads above 0 is given.
pub fullres_encode_threads-none :
    (env : Environment) (cpus : ℕ)
    → (fullres_encode_threads env cpus ≡ none)
      ↔ ((worker_concurrency env ≡ 0) × ((override env ≡ none) ⊎ (override env ≡ some 0)))
unfolding fullres_encode_threads or_positive divide
fullres_encode_threads-none env cpus = threads-none (override env) (worker_concurrency env) cpus

-- Without an override, all workers together use no more threads than there are CPUs, each with one
-- for the thumbnail, exactly where there are two CPUs for each worker.
pub fullres_encode_threads-budget :
    (env : Environment) (cpus n : ℕ)
    → override env ≡ none
    → fullres_encode_threads env cpus ≡ some n
    → (worker_concurrency env * (1 + n) ≤ cpus) ↔ (2 * worker_concurrency env ≤ cpus)
unfolding fullres_encode_threads or_positive divide
fullres_encode_threads-budget env cpus n o e =
    threads-budget (worker_concurrency env) cpus n
      (ap (λ r. threads r (worker_concurrency env) cpus) (sym o) ∙ e)
