-- ===== src/Processing/Leftovers.antt =====
-- What becomes of the normalized file of an exotic image, src/worker/src/processing.rs.
use ginbar.Prelude.{◌≡◌, ◌≢◌, refl, sym, subst, ◌∙◌, none, some, [], Text, text_eq_refl}
use ginbar.Prelude.Int.{ℤ}
use ginbar.World.{
  World, Result, ok, err, hung, pure, ignore, outcome, rest_of, settle, dropped, after, ◌>>◌,
}
use ginbar.World.Calls.{remove_file}
use ginbar.World.FileSystem.{file_at, erase, file_at-erase}
use ginbar.World.Footprint.{file-Footprint}
use ginbar.Pipeline.{PHash}
use ginbar.Processing.{encode_both, encode_loaded, remove_tmp}
use ginbar.Processing.Tasks.{encode_both-Keeps}
use ginbar.Processing.Ends.{encode_both-Answers}
use ginbar.Host.{Host}

-- A removal that is not going to fail.
removed :
    (path : Text) (w : World)
    → w.script ≡ []
    → ((ignore (remove_file path) w).0 ≡ ok tt)
      × (file_at path (ignore (remove_file path) w).1.files ≡ none)
removed path w h =
    subst
      (λ os.
        let u = record w { script = rest_of os } in
        let r = dropped (settle (outcome os) tt (record u { files = erase path w.files }) u) in
        (r.0 ≡ ok tt) × (file_at path r.1.files ≡ none))
      (sym h) (refl, file_at-erase path path w.files ∙ rw (text_eq_refl path) refl)

abbrev pub IsCleared : Text → Result (PHash × ℤ × ℤ) → World → World → Type 0
IsCleared path (ok r) before left = file_at path left.files ≡ none
IsCleared path (err e) before left = file_at path left.files ≡ file_at path before.files
IsCleared path hung before left = Unit

after-IsCleared :
    (host : Host) (path : Text) (before : World) (r : Result (PHash × ℤ × ℤ) × World)
    → file_at path r.1.files ≡ file_at path before.files
    → r.1.script ≡ []
    → let s = after (λ x. remove_tmp host (some path) >> pure x) r in IsCleared path s.0 before s.1
after-IsCleared host path before (ok x, w) same h =
    let (e, gone) = removed path w h in cleared (ignore (remove_file path) w) e gone
  where
    cleared :
        (m : Result (Unit {0}) × World)
        → m.0 ≡ ok tt
        → file_at path m.1.files ≡ none
        → let s = after (λ _. pure x) m in IsCleared path s.0 before s.1
    cleared (ok u, v) e gone = gone
    cleared (err y, v) e gone = cc
    cleared (hung, v) e gone = cc
after-IsCleared host path before (err e, w) same h = same
after-IsCleared host path before (hung, w) same h = tt

-- Where no call fails: if the encoding of an image succeeds, its normalized file is gone; but if the
-- encoding ends with an error, then that file is left as it was.
pub encode_loaded-IsCleared :
    (host : Host) (thumb_path output_path path : Text) (img : host.Image) (w : World)
    → thumb_path ≢ path
    → output_path ≢ path
    → w.script ≡ []
    → IsCleared path
        (encode_loaded host thumb_path output_path (img, some path) w).0
        w
        (encode_loaded host thumb_path output_path (img, some path) w).1
unfolding encode_loaded
encode_loaded-IsCleared host thumb_path output_path path img w a b h =
    after-IsCleared host path w (encode_both host thumb_path output_path img w)
      (encode_both-Keeps host (file-Footprint path (file_at path w.files)) thumb_path output_path a
        b img w refl)
      (encode_both-Answers host thumb_path output_path img w h).1
