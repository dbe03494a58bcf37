-- ===== src/World/Calls.antt =====
-- The calls to the database and the file system that the queues share, each under the script.
use ginbar.Prelude.{ℕ, Bool, Text}
use ginbar.Prelude.Int.{ℤ}
use ginbar.Database.{FinalizeParams, finalize_post, delete_dirty_post, update_post_files}
use ginbar.World.FileSystem.{erase, file_at, is_file}
use ginbar.World.Monad.{World, M, call}

abbrev pub nothing : World → Unit {0}
nothing w = tt

abbrev pub db_finalize : FinalizeParams → M (Unit {0})
db_finalize f = call nothing (λ w. record w { posts = finalize_post f w.posts })

abbrev pub db_delete_dirty : ℕ → M (Unit {0})
db_delete_dirty id = call nothing (λ w. record w { posts = delete_dirty_post id w.posts })

abbrev pub db_update_files : ℕ → Text → Text → ℤ → ℤ → M (Unit {0})
db_update_files id f g width height =
    call nothing (λ w. record w { posts = update_post_files id f g width height w.posts })

abbrev pub remove_file : Text → M (Unit {0})
remove_file path = call nothing (λ w. record w { files = erase path w.files })

-- `metadata(path).await.is_ok()`.
abbrev pub has_file : Text → M Bool
has_file path = call (λ w. is_file (file_at path w.files)) (λ w. w)

-- `get_multiplexed_async_connection`.
abbrev pub connect : M (Unit {0})
connect = call nothing (λ w. w)
