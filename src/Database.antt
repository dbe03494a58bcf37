-- ===== src/Database.antt =====
-- src/worker/src/db.rs: the rows of `posts` that the worker reads and writes, and its queries.
-- A query is a function of the table; that a call may fail instead is added in `World`.
-- An id is a number, a hash is the 64-bit pattern of its `i64`, `deleted` says that `deleted_at`
-- is set, and rows with equal keys of an `ORDER BY` keep the table's order.
pub mod Hamming
pub mod Dirty
pub mod Duplicates
use ginbar.Prelude.{
  ℕ, ◌+◌, Bool, false, ◌&&◌, not, List, map, Text, ltb, leb, ◌==◌, if◌then◌else◌, keep, length,
}
use ginbar.Prelude.Int.{ℤ}
use ginbar.Prelude.Sorting.{sort_by}
use Hamming.{distance64}

-- The columns that the queries use, of the table in src/backend/db/migrations.
pub record Post : Type 0 where
  pub id : ℕ
  pub url : Text
  pub uploaded_filename : Text
  pub filename : Text
  pub thumbnail_filename : Text
  pub content_type : Text
  pub user_name : Text
  pub filter : Text
  pub released : Bool
  pub dirty : Bool
  pub deleted : Bool
  pub p_hash_0 : ℕ
  pub p_hash_1 : ℕ
  pub p_hash_2 : ℕ
  pub p_hash_3 : ℕ
  pub width : ℤ
  pub height : ℤ

pub record DirtyPost : Type 0 where
  pub id : ℕ
  pub url : Text
  pub uploaded_filename : Text
  pub user_name : Text
  pub filter : Text
  pub released : Bool

pub record DuplicateRow : Type 0 where
  pub id : ℕ
  pub thumbnail_filename : Text
  pub dirty : Bool
  pub hamming_distance : ℕ

pub record FinalizeParams : Type 0 where
  pub id : ℕ
  pub filename : Text
  pub thumbnail_filename : Text
  pub uploaded_filename : Text
  pub content_type : Text
  pub p_hash_0 : ℕ
  pub p_hash_1 : ℕ
  pub p_hash_2 : ℕ
  pub p_hash_3 : ℕ
  pub width : ℤ
  pub height : ℤ

abbrev pub dirty_row : Post → DirtyPost
dirty_row p = record {
  id = p.id;
  url = p.url;
  uploaded_filename = p.uploaded_filename;
  user_name = p.user_name;
  filter = p.filter;
  released = p.released;
}

unfoldable pub get_dirty_posts : List Post → List DirtyPost
get_dirty_posts t = map dirty_row (sort_by (λ p. p.id) (keep (λ p. p.dirty && not p.deleted) t))

-- The new contents of the row that `WHERE id = $11` selects.
abbrev pub finalized : FinalizeParams → Post → Post
finalized f p = record p {
  filename = f.filename;
  thumbnail_filename = f.thumbnail_filename;
  uploaded_filename = f.uploaded_filename;
  content_type = f.content_type;
  p_hash_0 = f.p_hash_0;
  p_hash_1 = f.p_hash_1;
  p_hash_2 = f.p_hash_2;
  p_hash_3 = f.p_hash_3;
  width = f.width;
  height = f.height;
  dirty = false;
}

unfoldable pub finalize_post : FinalizeParams → List Post → List Post
finalize_post f = map (λ p. if p.id == f.id then finalized f p else p)

unfoldable pub delete_dirty_post : ℕ → List Post → List Post
delete_dirty_post id = keep (λ p. not (p.id == id && p.dirty))

unfoldable pub hamming_distance : ℕ → ℕ → ℕ → ℕ → Post → ℕ
hamming_distance h0 h1 h2 h3 p =
    distance64 h0 p.p_hash_0
    + distance64 h1 p.p_hash_1
    + distance64 h2 p.p_hash_2
    + distance64 h3 p.p_hash_3

abbrev pub duplicate_row : ℕ → ℕ → ℕ → ℕ → Post → DuplicateRow
duplicate_row h0 h1 h2 h3 p = record {
  id = p.id;
  thumbnail_filename = p.thumbnail_filename;
  dirty = p.dirty;
  hamming_distance = hamming_distance h0 h1 h2 h3 p;
}

unfoldable pub get_possible_duplicates : ℕ → ℕ → ℕ → ℕ → List Post → List DuplicateRow
get_possible_duplicates h0 h1 h2 h3 t =
    sort_by (λ r. r.hamming_distance)
      (keep (λ r. ltb r.hamming_distance 50)
        (map (duplicate_row h0 h1 h2 h3) (keep (λ p. not p.deleted) t)))

unfoldable pub count_dirty_before : ℕ → List Post → ℕ
count_dirty_before post_id t = length (keep (λ p. p.dirty && not p.deleted && leb p.id post_id) t)

abbrev pub refiled : Text → Text → ℤ → ℤ → Post → Post
refiled filename thumbnail_filename width height p = record p {
  filename = filename;
  thumbnail_filename = thumbnail_filename;
  width = width;
  height = height;
}

unfoldable pub update_post_files : ℕ → Text → Text → ℤ → ℤ → List Post → List Post
update_post_files id filename thumbnail_filename width height =
    map (λ p. if p.id == id then refiled filename thumbnail_filename width height p else p)
