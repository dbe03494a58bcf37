-- ===== src/World.antt =====
-- What a worker reads and writes, and how its calls fail: the table of posts, the files, Redis and
-- the map of posts in flight that src/worker/src/queue.rs shares between its tasks.
-- Every call to the database, Redis or the file system takes its outcome from a script: it is
-- carried out or not, and it is answered, answered with an error, or never answered. A theorem over
-- all scripts is one over every way in which the surroundings fail.
mod Monad
pub mod FileSystem
pub mod Calls
pub mod Rules
pub mod Answers
pub mod Footprint
pub use Monad.*
