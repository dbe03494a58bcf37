-- ===== src/Regen/Images.antt =====
-- Which rows name which images, and which images are on disk: what `process_regen_item` of
-- src/worker/src/queue.rs must keep.
use ginbar.Prelude.{ℕ, ◌≡◌, ap, ◌∙◌, ◌≢◌, true, List, [], ◌∷◌, Text, text_eq_iff, arith, All}
use ginbar.Prelude.Int.{ℤ}
use ginbar.Database.{Post, update_post_files}
use ginbar.World.{World}
use ginbar.World.FileSystem.{Files, file_at, is_file, erase, file_at-erase}
use ginbar.Paths.{Directories, join}

-- Every row with this id names this file.
abbrev pub Names : ℕ → Text → List Post → Type 0
Names id name = All (λ p. p.id ≡ id → p.filename ≡ name)

-- Every row with this id names an image that is on disk.
abbrev pub HasImage : Directories → ℕ → World → Type 0
HasImage dirs id w =
    All (λ p. p.id ≡ id → is_file (file_at (join dirs.image p.filename) w.files) ≡ true) w.posts

pub HasImage-Names :
    (dirs : Directories) (id : ℕ) (name : Text) (fs : Files) (ps : List Post)
    → Names id name ps
    → is_file (file_at (join dirs.image name) fs) ≡ true
    → All (λ p. p.id ≡ id → is_file (file_at (join dirs.image p.filename) fs) ≡ true) ps
HasImage-Names dirs id name fs [] n h = tt
HasImage-Names dirs id name fs (p ∷ ps) n h = (
  λ e. ap (λ f. is_file (file_at (join dirs.image f) fs)) (n.0 e) ∙ h,
  HasImage-Names dirs id name fs ps n.1 h,
)

pub Names-update_post_files :
    (id : ℕ) (f g : Text) (width height : ℤ) (ps : List Post)
    → Names id f (update_post_files id f g width height ps)
unfolding update_post_files
Names-update_post_files id f g width height [] = tt
Names-update_post_files id f g width height (p ∷ ps) =
    ground (arith, Names-update_post_files id f g width height ps)

-- Removing another file leaves a file.
pub is_file-erase :
    (path other : Text) (fs : Files)
    → path ≢ other
    → is_file (file_at other fs) ≡ true
    → is_file (file_at other (erase path fs)) ≡ true
is_file-erase path other fs ne h =
    ground (arith, file_at-erase path other fs, text_eq_iff path other)
