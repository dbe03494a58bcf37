-- ===== src/World/Footprint.antt =====
-- What code that works on files alone keeps: any property of the world that neither the script nor a
-- write to the paths that it touches can change.
use ginbar.Prelude.{◌≡◌, ◌≢◌, Option, List, Text, true, text_eq_iff, arith}
use ginbar.Database.{Post}
use ginbar.World.Monad.{World, Outcome, Redis, call}
use ginbar.World.FileSystem.{write, erase, file_at, file_at-write, file_at-erase, is_file}
use ginbar.World.Calls.{nothing, remove_file}
use ginbar.World.Rules.{Keeps, call-Keeps}

pub record Footprint {κ} (P : World → Type κ) (Touched : Text → Type 0) : Type κ where
  pub scripts : (w : World) (os : List Outcome) → P w → P (record w { script = os })
  pub writes :
      (path bytes : Text) (w : World)
      → Touched path
      → P w
      → P (record w { files = write path bytes w.files })
  pub erases :
      (path : Text) (w : World) → Touched path → P w → P (record w { files = erase path w.files })

module _ {κ} {P : World → Type κ} {Touched : Text → Type 0} (fp : Footprint P Touched) where
  pub look-Keeps : {A : Type 0} (answer : World → A) → Keeps P (call answer (λ w. w))
  look-Keeps answer = call-Keeps P answer (λ w. w) fp.scripts λ w h. h

  pub remove_file-Keeps : (path : Text) → Touched path → Keeps P (remove_file path)
  remove_file-Keeps path t =
      call-Keeps P nothing (λ w. record w { files = erase path w.files }) fp.scripts
        λ w. fp.erases path w t

-- A file at another path.
pub file-Footprint :
    (path : Text) (contents : Option Text)
    → Footprint (λ w. file_at path w.files ≡ contents) (λ p. p ≢ path)
file-Footprint path contents = record {
  scripts = λ w os h. h;
  writes =
      λ p bytes w ne h. ground (arith, file_at-write p path bytes w.files, text_eq_iff p path, ne);
  erases = λ p w ne h. ground (arith, file_at-erase p path w.files, text_eq_iff p path, ne);
}

-- A file that is there stays, if it is not removed.
pub present-Footprint :
    (path : Text) → Footprint (λ w. is_file (file_at path w.files) ≡ true) (λ p. p ≢ path)
present-Footprint path = record {
  scripts = λ w os h. h;
  writes = λ p bytes w ne h. ground (arith, file_at-write p path bytes w.files);
  erases = λ p w ne h. ground (arith, file_at-erase p path w.files, text_eq_iff p path, ne);
}

pub posts-Footprint : (ps : List Post) → Footprint (λ w. w.posts ≡ ps) (λ path. Unit {0})
posts-Footprint ps = record {
  scripts = λ w os h. h;
  writes = λ path bytes w t h. h;
  erases = λ path w t h. h;
}

pub redis-Footprint : (r : Redis) → Footprint (λ w. w.redis ≡ r) (λ path. Unit {0})
redis-Footprint r = record {
  scripts = λ w os h. h;
  writes = λ path bytes w t h. h;
  erases = λ path w t h. h;
}
