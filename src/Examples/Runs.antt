-- ===== src/Examples/Runs.antt =====
-- The theorems on the regeneration queue, the database and one post's processing (src/worker/src),
-- applied to the data of `Examples`.
use mathlib.Core.List.{Memᴰ}
use ginbar.Prelude.{
  ◌≡◌, refl, ◌≢◌, ◌↔◌, false, none, [], ◌∷◌, text_eq, codes, count, All, arith, ◌==◌, ◌%◌,
}
use ginbar.Prelude.Int.{pos}
use ginbar.Prelude.Sorting.{IsSorted, sort_by}
use ginbar.Database.{
  FinalizeParams, duplicate_row, get_possible_duplicates, get_dirty_posts, finalize_post,
  delete_dirty_post, hamming_distance,
}
use ginbar.Database.Dirty.{others, finalize_post-settles, delete_dirty_post-finalize_post}
use ginbar.Database.Hamming.{bit_count, distance64, xor_bits}
use ginbar.Database.Duplicates.{IsNear, get_possible_duplicates-exact, zero_hash_matches}
use ginbar.World.{ok, hung, fine, refused, lost, hangs, hangs_late, outcome, rest_of}
use ginbar.World.FileSystem.{file_at}
use ginbar.Paths.{join}
use ginbar.Media.{classify_file}
use ginbar.Regen.{pop_regen_items, recover_processing_list}
use ginbar.Regen.Moves.{held}
use ginbar.Regen.Recover.{
  calm, held-recover_processing_list, recover_processing_list-calm, with_redis, requeued,
}
use ginbar.Regen.Pop.{count-pop_regen_items}
use ginbar.Regen.Batches.{Popped, pop_regen_items-calm}
use ginbar.Regen.Work.{process_regen_item, acknowledge, report_regen_item, handle_regen_item}
use ginbar.Regen.Concurrent.{drain_regen}
use ginbar.Regen.Images.{HasImage}
use ginbar.Regen.Safety.{process_regen_item-HasImage}
use ginbar.Regen.Accounting.{
  Handled, Hangs, verdict, acknowledge-hung, report_regen_item-ok, handle_regen_item-Handled,
}
use ginbar.Regen.Ledger.{Drained, drain_regen-calm}
use ginbar.Queue.{real_dups, process_image_post, process_downloaded_post}
use ginbar.Queue.Outcome.{Settled, process_downloaded_post-Settled}
use ginbar.Queue.Success.{Processed, process_downloaded_post-ok}
use ginbar.Queue.Calm.{
  Concluded, process_downloaded_post-Concluded, process_downloaded_post-cleans,
  process_downloaded_post-unknown,
}
use ginbar.Examples.{
  dirs, regenerator, images, videos, item_7, from_str, world, far_world, post_of, downloaded_as,
}

-- The reply to the update is lost.
process_regen_item-HasImage_example :
    HasImage dirs 7 (process_regen_item dirs regenerator item_7 (world (fine ∷ lost ∷ []))).1
unfolding file_at text_eq join
process_regen_item-HasImage_example =
    process_regen_item-HasImage dirs regenerator item_7 (world (fine ∷ lost ∷ []))
      (record { named = (λ _. refl, (λ e. cc, tt)); has_image = refl; has_thumbnail = refl })

process_downloaded_post-ok_example :
    Processed 8
      (classify_file (codes "x/a.png"))
      (far_world []).posts
      (process_downloaded_post images videos dirs
        (downloaded_as (codes "x/a.png"))
        (far_world [])).1.posts
unfolding process_downloaded_post classify_file process_image_post real_dups get_possible_duplicates
    sort_by hamming_distance distance64 bit_count xor_bits
process_downloaded_post-ok_example =
    process_downloaded_post-ok images videos dirs (downloaded_as (codes "x/a.png")) (far_world [])
      refl

-- The row of post 8 is deleted, or not, in spite of the failures.
process_downloaded_post-Settled_example :
    Settled 8
      (world (lost ∷ hangs ∷ [])).posts
      (process_downloaded_post images videos dirs
        (downloaded_as (codes "x/a.png"))
        (world (lost ∷ hangs ∷ []))).1.posts
process_downloaded_post-Settled_example =
    process_downloaded_post-Settled images videos dirs (downloaded_as (codes "x/a.png"))
      (world (lost ∷ hangs ∷ []))

process_downloaded_post-Concluded_example :
    Concluded 8
      (world []).posts
      (process_downloaded_post images videos dirs (downloaded_as (codes "x/a.png")) (world []))
process_downloaded_post-Concluded_example =
    process_downloaded_post-Concluded images videos dirs (downloaded_as (codes "x/a.png"))
      (world []) refl

process_downloaded_post-cleans_example :
    file_at
      (codes "x/a.png")
      (process_downloaded_post images videos dirs
        (downloaded_as (codes "x/a.png"))
        (world [])).1.files
    ≡ none
unfolding classify_file
process_downloaded_post-cleans_example =
    process_downloaded_post-cleans images videos dirs (downloaded_as (codes "x/a.png")) (world [])
      refl (λ mime e. cc) refl

process_downloaded_post-unknown_example :
    (process_downloaded_post images videos dirs
      (downloaded_as (codes "x/a.zip"))
      (world [])).1.files
    ≡ (world []).files
unfolding classify_file
process_downloaded_post-unknown_example =
    process_downloaded_post-unknown images videos dirs (downloaded_as (codes "x/a.zip"))
      (codes "unknown/zip") (world []) refl

-- The pipelined moves never come back, but are carried out.
count-pop_regen_items_example :
    count (codes "7") (held (pop_regen_items from_str (world (fine ∷ hangs_late ∷ []))).1.redis)
    ≡ count (codes "7") (held (world (fine ∷ hangs_late ∷ [])).redis)
unfolding text_eq
count-pop_regen_items_example =
    count-pop_regen_items from_str (codes "7") (world (fine ∷ hangs_late ∷ [])) refl

pop_regen_items-calm_example : Popped from_str [] (world []) (pop_regen_items from_str)
pop_regen_items-calm_example = pop_regen_items-calm from_str (world [])

held-recover_processing_list_example :
    held (recover_processing_list (world (fine ∷ fine ∷ lost ∷ []))).1.redis
    ≡ held (world (fine ∷ fine ∷ lost ∷ [])).redis
held-recover_processing_list_example =
    held-recover_processing_list (world (fine ∷ fine ∷ lost ∷ []))

recover_processing_list-calm_example :
    recover_processing_list (calm (world []))
    ≡ (ok tt, calm (with_redis (world []) (requeued (world []).redis)))
recover_processing_list-calm_example = recover_processing_list-calm (world [])

drain_regen-calm_example :
    Drained from_str
      (codes "7")
      (codes "j")
      (λ e. e.0 == 7)
      (world [])
      (drain_regen dirs regenerator 2 (λ n. n % 2) from_str (calm (world [])))
drain_regen-calm_example =
    drain_regen-calm from_str dirs regenerator 2 (λ n. n % 2) (world []) (codes "7") (codes "j")
      (λ e. e.0 == 7) (λ e. cc)

handle_regen_item-Handled_example :
    Handled item_7
      (verdict (process_regen_item dirs regenerator item_7 (world (refused ∷ []))).0)
      (world (refused ∷ [])).redis
      (handle_regen_item dirs regenerator item_7 (world (refused ∷ []))).1.redis
handle_regen_item-Handled_example =
    handle_regen_item-Handled dirs regenerator item_7 (world (refused ∷ []))

report_regen_item-ok_example :
    (report_regen_item dirs regenerator item_7 (world (hangs ∷ hangs ∷ []))).0 ≡ ok tt
report_regen_item-ok_example =
    report_regen_item-ok dirs regenerator item_7 (world (hangs ∷ hangs ∷ []))

acknowledge-hung_example : ((acknowledge item_7 (world (fine ∷ hangs ∷ []))).0 ≡ hung) ↔ (
    (outcome (world (fine ∷ hangs ∷ [])).script ≡ fine)
    × Hangs (outcome (rest_of (world (fine ∷ hangs ∷ [])).script)))
acknowledge-hung_example = acknowledge-hung item_7 (world (fine ∷ hangs ∷ []))

get_possible_duplicates-exact_example :
    IsSorted (λ r. r.hamming_distance) (get_possible_duplicates 15 0 0 0 (world []).posts)
    × (Memᴰ
          (duplicate_row 15 0 0 0 (post_of 7 false 0))
          (get_possible_duplicates 15 0 0 0 (world []).posts)
        ↔ IsNear 15 0 0 0 (world []).posts (duplicate_row 15 0 0 0 (post_of 7 false 0)))
get_possible_duplicates-exact_example =
    get_possible_duplicates-exact 15 0 0 0 (world []).posts
      (duplicate_row 15 0 0 0 (post_of 7 false 0))

zero_hash_matches_example :
    Memᴰ
      (duplicate_row 15 0 0 0 (post_of 7 false 0))
      (get_possible_duplicates 15 0 0 0 (world []).posts)
unfolding bit_count
zero_hash_matches_example =
    zero_hash_matches 15 0 0 0 (world []).posts (post_of 7 false 0) (Memᴰ.head refl) refl refl refl
      refl refl (omega arith)

abbrev params : FinalizeParams
params = record {
  id = 8;
  filename = codes "n";
  thumbnail_filename = codes "m";
  uploaded_filename = codes "a.png";
  content_type = codes "image";
  p_hash_0 = 15;
  p_hash_1 = 0;
  p_hash_2 = 0;
  p_hash_3 = 0;
  width = pos 64;
  height = pos 64;
}

finalize_post-settles_example :
    All (λ d. d.id ≢ 8) (get_dirty_posts (finalize_post params (world []).posts))
    × (others 8 (finalize_post params (world []).posts) ≡ others 8 (world []).posts)
finalize_post-settles_example = finalize_post-settles params (world []).posts

delete_dirty_post-finalize_post_example :
    delete_dirty_post 8 (finalize_post params (world []).posts)
    ≡ finalize_post params (world []).posts
delete_dirty_post-finalize_post_example = delete_dirty_post-finalize_post params (world []).posts
