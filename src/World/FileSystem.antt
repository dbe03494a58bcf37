-- ===== src/World/FileSystem.antt =====
-- The file system as the contents at each path, as `tokio::fs` is used by the worker.
use ginbar.Prelude.{
  ◌≡◌, Bool, true, false, Option, none, some, List, [], ◌∷◌, Text, text_eq, text_eq_iff, arith,
  if◌then◌else◌,
}

abbrev pub Files : Type 0
Files = List (Text × Text)

unfoldable pub file_at : Text → Files → Option Text
file_at path [] = none
file_at path ((p, bytes) ∷ fs) = if text_eq p path then some bytes else file_at path fs

abbrev pub is_file : Option Text → Bool
is_file none = false
is_file (some bytes) = true

unfoldable pub erase : Text → Files → Files
erase path [] = []
erase path ((p, bytes) ∷ fs) = if text_eq p path then erase path fs else (p, bytes) ∷ erase path fs

unfoldable pub write : Text → Text → Files → Files
unfolding erase
write path bytes fs = (path, bytes) ∷ erase path fs

pub file_at-erase :
    (path other : Text) (fs : Files)
    → file_at other (erase path fs) ≡ (if text_eq path other then none else file_at other fs)
unfolding file_at erase
file_at-erase path other [] = ground arith
file_at-erase path other ((p, bytes) ∷ fs) = ground (
  arith,
  text_eq_iff p path,
  text_eq_iff p other,
  text_eq_iff path other,
  file_at-erase path other fs,
)

pub file_at-write :
    (path other bytes : Text) (fs : Files)
    → file_at other (write path bytes fs)
      ≡ (if text_eq path other then some bytes else file_at other fs)
unfolding file_at write
file_at-write path other bytes fs = ground (arith, file_at-erase path other fs)
