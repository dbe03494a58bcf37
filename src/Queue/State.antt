-- ===== src/Queue/State.antt =====
-- The counters of a batch, `QueueState` of src/worker/src/queue.rs, and their publication. A counter
-- is the 32-bit pattern of an `i32`; `fetch_add` and `fetch_sub` wrap around.
use ginbar.Prelude.{ℕ, ◌+◌, ◌-◌, ◌%◌, Bool, true, false, some, map}
use ginbar.World.{
  World, M, PostPhase, ActivePostInfo, Status, Try, got, failed, attempt, ignore, pure, call, ◌>>=◌,
}
use ginbar.World.Calls.{nothing, connect}

pub record QueueState : Type 0 where
  pub pending : ℕ
  pub active : ℕ
  pub total : ℕ
  pub processed : ℕ
  pub imported : ℕ
  pub failed : ℕ
  pub running : Bool

abbrev pub wrap : ℕ
wrap = 4294967296

unfoldable pub fetch_add : ℕ → ℕ
fetch_add n = (n + 1) % wrap

unfoldable pub fetch_sub : ℕ → ℕ
fetch_sub n = (n + (wrap - 1)) % wrap

-- `dirty.len() as i32`, and the counters that a batch starts with.
unfoldable pub begin_batch : ℕ → QueueState → QueueState
begin_batch len s = record {
  pending = len % wrap;
  active = 0;
  total = len % wrap;
  processed = 0;
  imported = 0;
  failed = 0;
  running = true;
}

unfoldable pub end_batch : QueueState → QueueState
end_batch s = record s { running = false; pending = 0; active = 0 }

-- A post is taken from the channel.
unfoldable pub begin_post : QueueState → QueueState
unfolding fetch_add fetch_sub
begin_post s = record s { pending = fetch_sub s.pending; active = fetch_add s.active }

-- A post is done.
unfoldable pub end_post : Try (Unit {0}) → QueueState → QueueState
unfolding fetch_add fetch_sub
end_post (got u) s = record s {
  active = fetch_sub s.active;
  processed = fetch_add s.processed;
  imported = fetch_add s.imported;
}
end_post (failed e) s = record s {
  active = fetch_sub s.active;
  processed = fetch_add s.processed;
  failed = fetch_add s.failed;
}

-- `now_secs.saturating_sub(info.started_at)`
abbrev in_flight : ℕ → ActivePostInfo → ℕ × PostPhase × ℕ
in_flight now info = (info.post_id, info.phase, now - info.started_at)

unfoldable pub status_of : QueueState → World → Status
status_of s w = record {
  pending = s.pending;
  active = s.active;
  total = s.total;
  processed = s.processed;
  imported = s.imported;
  failed = s.failed;
  running = s.running;
  active_posts = map (in_flight w.now) w.active;
}

abbrev store_status : Status → M (Unit {0})
store_status st = call nothing (λ w. record w { redis = record w.redis { status = some st } })

unfoldable pub store_if : Status → Try (Unit {0}) → M (Unit {0})
store_if st (got c) = ignore (store_status st)
store_if st (failed e) = pure tt

-- The status is put together first, then the connection is made.
unfoldable pub publish_status : QueueState → M (Unit {0})
unfolding status_of store_if
publish_status s w = (attempt connect >>= store_if (status_of s w)) w
