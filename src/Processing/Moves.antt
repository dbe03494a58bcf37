-- ===== src/Processing/Moves.antt =====
-- `move_video`, the first step of `process_video` of src/worker/src/processing.rs: where it succeeds, the
-- video is at its new path, whether it was renamed or copied.
use ginbar.Prelude.{
  ◌≡◌, ◌≢◌, refl, sym, ap, subst, ◌∙◌, Bool, true, false, Option, none, some, Text, codes,
  text_eq_refl, if◌then◌else◌,
}
use ginbar.World.{
  World, Result, ok, Try, got, failed, attempt, ignore, with_context, call, rest_of, ◌>>=◌,
}
use ginbar.World.Calls.{remove_file}
use ginbar.World.FileSystem.{Files, file_at, is_file, write, erase, file_at-write}
use ginbar.World.Footprint.{present-Footprint, remove_file-Keeps}
use ginbar.World.Rules.{ignore-Keeps, bind-ok, attempt-got, attempt-world, call-ok, call-answer}
use ginbar.Avif.Written.{Writes, bind-Writes_first, with_context-Writes}
use ginbar.Processing.Video.{copy_bytes, move_bytes, or_missing, rename, copy, or_copy, move_video}

abbrev pub Present : Text → Files → Type 0
Present path fs = is_file (file_at path fs) ≡ true

written-Present : (path bytes : Text) (fs : Files) → Present path (write path bytes fs)
written-Present path bytes fs = rw (file_at-write path path bytes fs, text_eq_refl path) refl

copied-Present :
    (dst : Text) (o : Option Text) (fs : Files)
    → is_file o ≡ true
    → Present dst (copy_bytes dst o fs)
copied-Present dst none fs h = cc
copied-Present dst (some bytes) fs h = written-Present dst bytes fs

moved-Present : (src dst : Text) (fs : Files) → Present src fs → Present dst (move_bytes src dst fs)
moved-Present src dst fs h = by_test (is_file (file_at src fs)) h
  where
    by_test :
        (b : Bool)
        → b ≡ true
        → Present dst (if b then copy_bytes dst (file_at src fs) (erase src fs) else fs)
    by_test true e = copied-Present dst (file_at src fs) (erase src fs) h
    by_test false e = cc

or_missing-ok :
    (b : Bool) (w : World) (u : Unit {0})
    → (or_missing b w).0 ≡ ok u
    → (b ≡ true) × ((or_missing b w).1 ≡ w)
or_missing-ok true w u h = (refl, refl)
or_missing-ok false w u h = cc

module _ (src : Text) (effect : Files → Files) where
  abbrev found : World → Bool
  found w = is_file (file_at src w.files)

  abbrev apply : World → World
  apply w = record w { files = effect w.files }

  ok_true : {b c : Bool} → ◌≡◌ {A = Result Bool} (ok b) (ok c) → b ≡ c
  ok_true h = cc

  -- A call that succeeds has found its source, and has had its effect.
  sourced :
      (w : World) (u : Unit {0})
      → ((call found apply >>= or_missing) w).0 ≡ ok u
      → (v : World) × Present src v.files
        × ((call found apply >>= or_missing) w).1.files ≡ effect v.files
  sourced w u h =
      let (b, e, g, s) = bind-ok (call found apply) or_missing w u h in
      let v = record w { script = rest_of w.script } in
      let (t, k) = or_missing-ok b (call found apply w).1 u g in
      (
        v,
        ok_true (sym (call-answer found apply w b e)) ∙ t,
        ap (λ r. r.1.files) s
            ∙ (ap (λ x. x.files) k ∙ ap (λ x. x.files) (call-ok found apply w b e)),
      )

module _ (src dst : Text) where
  rename-Writes : Writes dst (rename src dst)
  unfolding rename
  rename-Writes w u h =
      let (v, p, e) = sourced src (move_bytes src dst) w u h in
      subst (Present dst) (sym e) (moved-Present src dst v.files p)

  copy-Writes : Writes dst (copy src dst)
  unfolding copy
  copy-Writes w u h =
      let (v, p, e) = sourced src (λ fs. copy_bytes dst (file_at src fs) fs) w u h in
      subst (Present dst) (sym e) (copied-Present dst (file_at src v.files) v.files p)

  pub move_video-Writes : src ≢ dst → Writes dst (move_video src dst)
  unfolding move_video rename copy
  move_video-Writes ne w u h =
      let (t, e, g, s) = bind-ok (attempt (rename src dst)) (or_copy src dst) w u h in
      subst (λ r. Present dst r.1.files) (sym s) (after t e g)
    where
      after :
          (t : Try (Unit {0}))
          → (attempt (rename src dst) w).0 ≡ ok t
          → (or_copy src dst t (attempt (rename src dst) w).1).0 ≡ ok u
          → Present dst (or_copy src dst t (attempt (rename src dst) w).1).1.files
      after (got done) e g =
          rw (attempt-world (rename src dst) w)
            (rename-Writes w done (attempt-got (rename src dst) w done e))
      after (failed x) e g =
          bind-Writes_first dst (with_context (codes "copy video file") (copy src dst))
            (λ _. ignore (remove_file src)) (with_context-Writes dst _ (copy src dst) copy-Writes)
            (λ _.
              ignore-Keeps (λ w. Present dst w.files) (remove_file src)
                (remove_file-Keeps (present-Footprint dst) src ne))
            (attempt (rename src dst) w).1 u g
