-- ===== src/Config/Defaults.antt =====
-- What `Config::from_env` of src/worker/src/config.rs comes to where variables are missing.
use ginbar.Prelude.{ℕ, ◌*◌, ◌%◌, ◌<◌, ◌≡◌, ap, ◌∙◌, none, Text, codes, arith}
use ginbar.Prelude.Digits.{to_text, parse_number}
use ginbar.Prelude.Numerals.{parse_number-to_text}
use ginbar.Threads.{Environment}
use ginbar.Config.{env_or, number_or, or_text, or_number, word_64, from_env}

-- A missing variable stands for its default, which is read back from the text that is made of it.
number_or-none :
    (env : Environment) (key : Text) (n : ℕ)
    → n < word_64
    → env key ≡ none
    → number_or env key n ≡ n
unfolding number_or env_or
number_or-none env key n h e =
    ap (λ o. or_number n (parse_number word_64 (or_text (to_text n) o))) e
    ∙ ap (or_number n) (parse_number-to_text word_64 n h)

-- Where no number of downloads is given, it is twice the number of posts that are worked on, on 64 bits.
pub download_concurrency_lem :
    (env : Environment)
    → env (codes "WORKER_DOWNLOAD_CONCURRENCY") ≡ none
    → (from_env env).download_concurrency ≡ (from_env env).concurrency * 2 % word_64
unfolding from_env
download_concurrency_lem env e =
    number_or-none env (codes "WORKER_DOWNLOAD_CONCURRENCY")
      ((from_env env).concurrency * 2 % word_64) (omega arith) e
