-- ===== src/Examples.antt =====
-- Runs of the worker (src/worker/src) on concrete data: a post, its files, a pipeline and a server
-- that are written out, and the theorems applied to them.
pub mod Runs
pub mod Batches
pub mod Encoding
pub mod Machine
pub mod Media
use ginbar.Prelude.{
  ℕ, ◌+◌, ◌≤◌, ◌<◌, ◌≡◌, refl, ap, subst, ◌∙◌, ◌≢◌, ◌⊎◌, ◌↔◌, inl, inr, Bool, true, false, Option,
  none, some, List, [], ◌∷◌, ◌++◌, map, Text, codes, count, All, arith, length, text_eq,
  text_eq_iff, text_eq_refl, if◌then◌else◌,
}
use ginbar.Prelude.Int.{pos}
use ginbar.Database.{
  Post, DirtyPost, FinalizeParams, duplicate_row, get_possible_duplicates, get_dirty_posts,
  finalize_post, delete_dirty_post, update_post_files, hamming_distance,
}
use ginbar.World.{
  World, Redis, M, Outcome, fine, refused, lost, hangs, hangs_late, Result, ok, err, hung, Error,
  call_failed,
}
use ginbar.World.FileSystem.{Files, file_at, is_file, write, erase, file_at-write}
use ginbar.Paths.{Directories, join}
use ginbar.Pipeline.{ImageResult, RegenerateResult, VideoResult, Regenerator, Processor}
use ginbar.Regen.{RegenItem}
use ginbar.Download.{Http, response}
use ginbar.Queue.{DownloadedPost}
use ginbar.Queue.State.{QueueState}

abbrev pub dirs : Directories
dirs = record {
  image = codes "i";
  thumbnail = codes "t";
  video = codes "v";
  tmp = codes "x";
  upload = codes "u";
}

abbrev pub result : RegenerateResult
result = record {
  new_filename = codes "b";
  new_thumbnail_filename = codes "c";
  p_hash = (1, 2, 3, 4);
  width = pos 64;
  height = pos 64;
}

abbrev pub new_image : Text
new_image = join dirs.image result.new_filename

-- An encoder whose one name may be taken.
unfoldable pub encode_to : Option Text → World → Result RegenerateResult × World
encode_to none w = (ok result, record w { files = write new_image (b'9' ∷ []) w.files })
encode_to (some bytes) w = (err call_failed, w)

pub encode_to-posts : (o : Option Text) (w : World) → (encode_to o w).1.posts ≡ w.posts
unfolding encode_to
encode_to-posts none w = refl
encode_to-posts (some bytes) w = refl

pub encode_to-redis : (o : Option Text) (w : World) → (encode_to o w).1.redis ≡ w.redis
unfolding encode_to
encode_to-redis none w = refl
encode_to-redis (some bytes) w = refl

pub encode_to-script : (o : Option Text) (w : World) → (encode_to o w).1.script ≡ w.script
unfolding encode_to
encode_to-script none w = refl
encode_to-script (some bytes) w = refl

pub encode_to-kept :
    (o : Option Text) (path : Text) (w : World)
    → is_file (file_at path w.files) ≡ true
    → is_file (file_at path (encode_to o w).1.files) ≡ true
unfolding encode_to
encode_to-kept none path w h = ground (arith, file_at-write new_image path (b'9' ∷ []) w.files)
encode_to-kept (some bytes) path w h = h

name_of : Result RegenerateResult → Text
name_of (ok r) = r.new_filename
name_of (err e) = []
name_of hung = []

pub encode_to-written :
    (o : Option Text) (w : World) (r : RegenerateResult)
    → (encode_to o w).0 ≡ ok r
    → is_file (file_at (join dirs.image r.new_filename) (encode_to o w).1.files) ≡ true
unfolding encode_to name_of
encode_to-written none w r e =
    subst (λ n. is_file (file_at (join dirs.image n) (write new_image (b'9' ∷ []) w.files)) ≡ true)
      (ap name_of e)
      (ground
        (arith, file_at-write new_image new_image (b'9' ∷ []) w.files, text_eq_refl new_image))
encode_to-written (some bytes) w r e = cc

pub encode_to-fresh :
    (o : Option Text) (w : World) (r : RegenerateResult)
    → (encode_to o w).0 ≡ ok r
    → file_at new_image w.files ≡ o
    → file_at (join dirs.image r.new_filename) w.files ≡ none
unfolding encode_to name_of
encode_to-fresh none w r e f =
    subst (λ n. file_at (join dirs.image n) w.files ≡ none) (ap name_of e) f
encode_to-fresh (some bytes) w r e f = cc

abbrev pub regenerator : Regenerator dirs
regenerator = record {
  run = λ src w. encode_to (file_at new_image w.files) w;
  same_posts = λ src w. encode_to-posts (file_at new_image w.files) w;
  same_redis = λ src w. encode_to-redis (file_at new_image w.files) w;
  same_script = λ src w h. encode_to-script (file_at new_image w.files) w ∙ h;
  kept = λ src path w h. encode_to-kept (file_at new_image w.files) path w h;
  written = λ src w r e. encode_to-written (file_at new_image w.files) w r e;
  fresh = λ src w r e. encode_to-fresh (file_at new_image w.files) w r e refl;
}

pub ok-hung : {A : Type 0} {a : A} → ok a ≢ hung
ok-hung e = cc

pub err-hung : {A : Type 0} {e : Error} → ◌≢◌ {A = Result A} (err e) hung
err-hung e = cc

abbrev pub images : Processor ImageResult
images = record {
  run = λ input w. (
    ok (record {
      filename = codes "n";
      thumbnail_filename = codes "m";
      uploaded_filename = codes "a.png";
      p_hash = (15, 0, 0, 0);
      width = pos 64;
      height = pos 64;
    }),
    w,
  );
  same_posts = λ input w. refl;
  same_script = λ input w h. h;
  ends = λ input w h. ok-hung;
}

abbrev pub videos : Processor VideoResult
videos = record {
  run = λ input w. (err call_failed, w);
  same_posts = λ input w. refl;
  same_script = λ input w h. h;
  ends = λ input w h. err-hung;
}

-- A server that answers every GET with one byte.
abbrev pub http : Http
http = record {
  parse = λ url. some (some (codes "a.png"));
  get = λ url headers. response 200 (some (b'1' ∷ []) ∷ []);
}

abbrev pub post_of : ℕ → Bool → ℕ → Post
post_of id dirty hash = record {
  id = id;
  url = codes "http://h/a.png";
  uploaded_filename = [];
  filename = codes "a";
  thumbnail_filename = codes "s";
  content_type = codes "image";
  user_name = codes "u";
  filter = codes "sfw";
  released = true;
  dirty = dirty;
  deleted = false;
  p_hash_0 = hash;
  p_hash_1 = 0;
  p_hash_2 = 0;
  p_hash_3 = 0;
  width = pos 0;
  height = pos 0;
}

abbrev pub item_7 : RegenItem
item_7 = record {
  post_id = 7;
  filename = codes "a";
  thumbnail_filename = codes "s";
  job_key = codes "j";
  raw_json = codes "7";
}

-- Only the text `7` is an item.
abbrev pub from_str : Text → Option RegenItem
from_str t = if text_eq t (codes "7") then some item_7 else none

-- The queue holds the item and a text that is no item, and one more item was left behind.
abbrev pub redis : Redis
redis = record {
  queue = codes "7" ∷ codes "?" ∷ [];
  processing = codes "7" ∷ [];
  counters = [];
  progress = [];
  dup_posts = [];
  status = none;
}

-- Post 7 is processed and post 8 waits.
abbrev pub world : List Outcome → World
world script = record {
  posts = post_of 7 false 0 ∷ post_of 8 true 0 ∷ [];
  files = (codes "i/a", b'1' ∷ []) ∷ (codes "t/s", b'2' ∷ []) ∷ (codes "x/a.png", b'3' ∷ []) ∷ [];
  redis = redis;
  active = [];
  now = 0;
  script = script;
}

abbrev pub post_8 : DirtyPost
post_8 = record {
  id = 8;
  url = codes "http://h/a.png";
  uploaded_filename = [];
  user_name = codes "u";
  filter = codes "sfw";
  released = true;
}

abbrev pub downloaded_as : Text → DownloadedPost
downloaded_as path = record { post = post_8; path = path; is_temp = true }

abbrev pub idle : QueueState
idle = record {
  pending = 0;
  active = 0;
  total = 0;
  processed = 0;
  imported = 0;
  failed = 0;
  running = false;
}

-- The same with every bit of post 7's hash set in one of its components.
abbrev pub far_world : List Outcome → World
far_world script = record (world script) {
  posts = post_of 7 false 18446744073709551615 ∷ post_of 8 true 0 ∷ [];
}
