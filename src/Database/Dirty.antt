-- ===== src/Database/Dirty.antt =====
-- What the queries on unprocessed rows guarantee (src/worker/src/db.rs).
use mathlib.Core.List.{Perm}
use mathlib.Core.List.Perm
use ginbar.Prelude.{
  ℕ, ◌≤◌, ◌≡◌, refl, ap, ◌∙◌, ◌≢◌, Bool, ◌&&◌, not, List, [], ◌∷◌, map, arith, ◌==◌, if◌then◌else◌,
  keep, All, Text,
}
use ginbar.Prelude.Int.{ℤ}
use ginbar.Prelude.Sorting.{
  sort_by, IsSorted, sort_by-IsSorted, All-sort_by, sort_by-perm, sort_by-map,
}
use ginbar.Database.{
  Post, FinalizeParams, dirty_row, get_dirty_posts, finalize_post, delete_dirty_post,
  update_post_files, refiled,
}

-- The rows that another id selects.
abbrev pub others : ℕ → List Post → List Post
others id = keep (λ p. not (p.id == id))

-- The rows that the worker has yet to process.
abbrev pub is_pending : Post → Bool
is_pending p = p.dirty && not p.deleted

All-dirty_row :
    (m : ℕ) (xs : List Post) → All (λ p. m ≤ p.id) xs → All (λ d. m ≤ d.id) (map dirty_row xs)
All-dirty_row m [] a = tt
All-dirty_row m (x ∷ xs) a = (a.0, All-dirty_row m xs a.1)

map-IsSorted : (xs : List Post) → IsSorted (λ p. p.id) xs → IsSorted (λ d. d.id) (map dirty_row xs)
map-IsSorted [] s = tt
map-IsSorted (x ∷ xs) s = (All-dirty_row x.id xs s.0, map-IsSorted xs s.1)

-- The worker is handed each row that is dirty and not deleted exactly once, in ascending order of
-- the ids.
pub get_dirty_posts-order :
    (t : List Post)
    → IsSorted (λ d. d.id) (get_dirty_posts t)
      × Perm (get_dirty_posts t) (map dirty_row (keep is_pending t))
unfolding get_dirty_posts
get_dirty_posts-order t = (
  map-IsSorted _ (sort_by-IsSorted (λ p. p.id) (keep is_pending t)),
  Perm.map dirty_row (sort_by-perm (λ p. p.id) (keep is_pending t)),
)

All-ne :
    (id : ℕ) (xs : List Post) → All (λ p. p.id ≢ id) xs → All (λ d. d.id ≢ id) (map dirty_row xs)
All-ne id [] a = tt
All-ne id (x ∷ xs) a = (a.0, All-ne id xs a.1)

get_dirty_posts-ne :
    (id : ℕ) (t : List Post)
    → All (λ p. p.id ≢ id) (keep is_pending t)
    → All (λ d. d.id ≢ id) (get_dirty_posts t)
unfolding get_dirty_posts
get_dirty_posts-ne id t a =
    All-ne id _ (All-sort_by (λ p. p.id) (λ p. p.id ≢ id) (keep is_pending t) a)

finalize_post-ne :
    (f : FinalizeParams) (t : List Post)
    → All (λ p. p.id ≢ f.id) (keep is_pending (finalize_post f t))
unfolding finalize_post
finalize_post-ne f [] = tt
finalize_post-ne f (p ∷ t) = ground (arith, finalize_post-ne f t)

delete_dirty_post-ne :
    (id : ℕ) (t : List Post) → All (λ p. p.id ≢ id) (keep is_pending (delete_dirty_post id t))
unfolding delete_dirty_post
delete_dirty_post-ne id [] = tt
delete_dirty_post-ne id (p ∷ t) = ground (arith, delete_dirty_post-ne id t)

others-finalize_post :
    (f : FinalizeParams) (t : List Post) → others f.id (finalize_post f t) ≡ others f.id t
unfolding finalize_post
others-finalize_post f [] = refl
others-finalize_post f (p ∷ t) = ground (arith, others-finalize_post f t)

others-delete_dirty_post :
    (id : ℕ) (t : List Post) → others id (delete_dirty_post id t) ≡ others id t
unfolding delete_dirty_post
others-delete_dirty_post id [] = refl
others-delete_dirty_post id (p ∷ t) = ground (arith, others-delete_dirty_post id t)

others-update_post_files :
    (id : ℕ) (f g : Text) (w h : ℤ) (t : List Post)
    → others id (update_post_files id f g w h t) ≡ others id t
unfolding update_post_files
others-update_post_files id f g w h [] = refl
others-update_post_files id f g w h (p ∷ t) = ground (arith, others-update_post_files id f g w h t)

-- Finalizing a post takes it off the worker's list and leaves every other row as it was.
pub finalize_post-settles :
    (f : FinalizeParams) (t : List Post)
    → All (λ d. d.id ≢ f.id) (get_dirty_posts (finalize_post f t))
      × (others f.id (finalize_post f t) ≡ others f.id t)
finalize_post-settles f t =
    (get_dirty_posts-ne f.id (finalize_post f t) (finalize_post-ne f t), others-finalize_post f t)

-- Deleting a dirty post takes it off the worker's list and leaves every other row as it was.
pub delete_dirty_post-settles :
    (id : ℕ) (t : List Post)
    → All (λ d. d.id ≢ id) (get_dirty_posts (delete_dirty_post id t))
      × (others id (delete_dirty_post id t) ≡ others id t)
delete_dirty_post-settles id t = (
  get_dirty_posts-ne id (delete_dirty_post id t) (delete_dirty_post-ne id t),
  others-delete_dirty_post id t,
)

-- A finalized post survives the deletion of its id as a dirty post: the two queries, run one after
-- the other on one id, are the first of them.
pub delete_dirty_post-finalize_post :
    (f : FinalizeParams) (t : List Post)
    → delete_dirty_post f.id (finalize_post f t) ≡ finalize_post f t
unfolding delete_dirty_post finalize_post
delete_dirty_post-finalize_post f [] = refl
delete_dirty_post-finalize_post f (p ∷ t) = ground (arith, delete_dirty_post-finalize_post f t)

module _ (id : ℕ) (f g : Text) (w h : ℤ) where
  refile : Post → Post
  refile p = if p.id == id then refiled f g w h p else p

  refile-id : (p : Post) → (refile p).id ≡ p.id
  unfolding refile
  refile-id p = ground arith

  keep-refile : (t : List Post) → keep is_pending (map refile t) ≡ map refile (keep is_pending t)
  unfolding refile
  keep-refile [] = refl
  keep-refile (p ∷ t) = ground (arith, keep-refile t)

  map-refile : (t : List Post) → map dirty_row (map refile t) ≡ map dirty_row t
  unfolding refile
  map-refile [] = refl
  map-refile (p ∷ t) = ground (arith, map-refile t)

  -- Replacing a post's files leaves the list of posts that wait for the worker as it was, whether the
  -- post is on it or not, and leaves every other row as it was.
  pub update_post_files-settles :
      (t : List Post)
      → (get_dirty_posts (update_post_files id f g w h t) ≡ get_dirty_posts t)
        × (others id (update_post_files id f g w h t) ≡ others id t)
  unfolding get_dirty_posts update_post_files refile
  update_post_files-settles t = (
    ap (λ r. map dirty_row (sort_by (λ p. p.id) r)) (keep-refile t)
        ∙ (ap (map dirty_row) (sort_by-map (λ p. p.id) refile refile-id (keep is_pending t))
            ∙ map-refile (sort_by (λ p. p.id) (keep is_pending t))),
    others-update_post_files id f g w h t,
  )
