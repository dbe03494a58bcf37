-- ===== src/Ffmpeg/Dimensions.antt =====
-- What `parse_dimensions` of src/worker/src/ffmpeg.rs reads of the line that ffprobe prints.
use ginbar.Prelude.{
  ℕ, ◌^◌, ◌≤◌, ◌<◌, ◌≡◌, refl, sym, ap, subst, ◌∙◌, none, some, [], ◌∷◌, ◌++◌, Text, All, arith,
  ltb, if◌then◌else◌,
}
use ginbar.Prelude.Int.{pos}
use ginbar.Prelude.Digits.{to_text, parse_digits, parse_unsigned}
use ginbar.Prelude.Numerals.{IsDigit, to_text-IsDigit, to_text-Stands}
use ginbar.Threads.{word}
use ginbar.Ffmpeg.{parse_i32, trim_start, trim_end, split_comma, read_parts, parse_dimensions}

-- A number that fits is read back.
parse_i32-to_text : (n : ℕ) → n < 2 ^ 31 → parse_i32 (to_text n) ≡ some (pos n)
parse_i32-to_text n h =
    let s = to_text-Stands word n in ap parse_i32 s.cons ∙ read s.head s.tail s.digits s.value
  where
    read :
        (c : ℕ) (t : Text)
        → All IsDigit (c ∷ t)
        → parse_digits word 0 (c ∷ t) ≡ (if ltb n word then some n else none)
        → parse_i32 (c ∷ t) ≡ some (pos n)
    read c t d e = unfold parse_i32 parse_unsigned in ground (arith, e)

trim_end-newline : (t : Text) → All (λ c. 33 ≤ c) t → trim_end (t ++ b'\n' ∷ []) ≡ t
unfolding trim_end
trim_end-newline [] a = refl
trim_end-newline (c ∷ []) a = ground arith
trim_end-newline (c ∷ d ∷ s) a = ground (arith, trim_end-newline (d ∷ s) a.1)

split_comma-append :
    (a b : Text) → All IsDigit a → All IsDigit b → split_comma (a ++ b',' ∷ b) ≡ a ∷ b ∷ []
unfolding split_comma
split_comma-append [] b da db = ap (λ r. [] ∷ r) (whole b db)
  where
    whole : (b : Text) → All IsDigit b → split_comma b ≡ b ∷ []
    whole [] d = refl
    whole (c ∷ s) d = ground (arith, whole s d.1)
split_comma-append (c ∷ a) b da db = ground (arith, split_comma-append a b da.1 db)

All-append : (P : ℕ → Type 0) (a b : Text) → All P a → All P b → All P (a ++ b)
All-append P [] b pa pb = pb
All-append P (c ∷ a) b pa pb = (pa.0, All-append P a b pa.1 pb)

visible : (t : Text) → All IsDigit t → All (λ c. 33 ≤ c) t
visible [] a = tt
visible (c ∷ t) a = (omega arith, visible t a.1)

-- The line of `-of csv=p=0` for a width and a height.
abbrev pub csv_line : ℕ → ℕ → Text
unfolding to_text
csv_line w h = (to_text w ++ b',' ∷ to_text h) ++ b'\n' ∷ []

line_trimmed :
    (a b : Text) (c : ℕ) (t : Text)
    → a ≡ c ∷ t
    → All IsDigit a
    → All IsDigit b
    → trim_end (trim_start ((a ++ b',' ∷ b) ++ b'\n' ∷ [])) ≡ a ++ b',' ∷ b
line_trimmed a b c t e da db =
    ap trim_end start
    ∙ trim_end-newline (a ++ b',' ∷ b)
        (All-append (λ c. 33 ≤ c) a (b',' ∷ b) (visible a da) (omega arith, visible b db))
  where
    first : (c : ℕ) (s : Text) → IsDigit c → trim_start (c ∷ s) ≡ c ∷ s
    first c s d = unfold trim_start in ground arith

    start : trim_start ((a ++ b',' ∷ b) ++ b'\n' ∷ []) ≡ (a ++ b',' ∷ b) ++ b'\n' ∷ []
    start =
        subst (λ x. trim_start ((x ++ b',' ∷ b) ++ b'\n' ∷ []) ≡ (x ++ b',' ∷ b) ++ b'\n' ∷ [])
          (sym e) (first c _ (subst (All IsDigit) e da).0)

-- A width and a height that fit an `i32` are read back from the line that ffprobe prints of them.
pub parse_dimensions-csv_line :
    (w h : ℕ) → w < 2 ^ 31 → h < 2 ^ 31 → parse_dimensions (csv_line w h) ≡ (pos w, pos h)
unfolding parse_dimensions to_text
parse_dimensions-csv_line w h lw lh =
    let s = to_text-Stands word w in
    let a = to_text-IsDigit w in
    let b = to_text-IsDigit h in
    ap (λ t. read_parts (split_comma t))
      (line_trimmed (to_text w) (to_text h) s.head s.tail s.cons a b)
    ∙ (ap read_parts (split_comma-append (to_text w) (to_text h) a b)
        ∙ unfold read_parts in ground (arith, parse_i32-to_text w lw, parse_i32-to_text h lh))
