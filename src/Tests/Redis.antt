-- ===== src/Tests/Redis.antt =====
-- The Redis pool on a server that refuses the second construction.
use backend_common_component.Prelude.{
  ℕ, true, ◌+◌, ◌<◌, ◌≡◌, ◌≢◌, refl, some, [], ◌∷◌, arith, pos, ◌==◌, if◌then◌else◌, length, count,
  remove, ltb,
}
use backend_common_component.RedisPool.Types.{
  Attempt, refused, connected, pong, throws, healthy, Pool, PoolStatistics,
}
use backend_common_component.RedisPool.Factory.{check, factory_create}
use backend_common_component.RedisPool.Connections.{
  source_connections, create_loop, create_and_push, destroy_connection,
}
use backend_common_component.RedisPool.Borrow.{get_enter, replenish}
use backend_common_component.RedisPool.Recycle.{recycle_idle_connections, idle_seconds, shutdown}
use backend_common_component.RedisPool.System.{
  System, Step, enter, discard, replace, stop, Star, here, next, constructed, started, after_enter,
}
use backend_common_component.RedisPool.Custody.{SystemOwns, Life-SystemOwns}
use backend_common_component.RedisPool.Invariant.{Working, pool-Working}
use backend_common_component.RedisPool.RecycleLaw.{recycle-fresh}
use backend_common_component.RedisPool.Exhaustion.{
  IsExhausted, Star-IsExhausted, fails, refused_start,
}

abbrev flaky : ℕ → Attempt
flaky n = if n == 1 then refused else connected pong

abbrev clock : ℕ → ℕ
clock i = 1000 + i

-- Sizes 3 to 4: two connections and one failed construction after `init`.
abbrev first : System
first = started flaky (pos 3) (pos 4) (pos 180) (pos 5000) (pos 2) clock 8

started_sizes : (first.pool.current_size ≡ pos 3) × (length first.pool.conn_queue ≡ 2)
unfolding started source_connections create_loop create_and_push factory_create check
started_sizes = (refl, refl)

abbrev second : System
second = after_enter first (get_enter flaky clock first.pool)

abbrev third : System
third = record second {
  pool = destroy_connection (some 0) second.pool;
  lent = remove 0 second.lent;
  returning = 1;
}

abbrev fourth : System
fourth = record third { pool = replenish flaky 2000 third.pool; returning = 0 }

lent_first : 0 < count 0 second.lent
unfolding started source_connections create_loop create_and_push factory_create check get_enter
lent_first = omega arith

fails_check : check (some 0) throws ≢ healthy
unfolding check
fails_check = λ e. cc

history : Star (Step flaky) first fourth
unfolding get_enter started source_connections create_loop destroy_connection create_and_push
    factory_create
history =
    next (next (next here (enter clock)) (discard 0 throws fails_check lent_first))
      (replace 2000 (omega arith))

pool-Working_example : Working flaky (pos 3) (pos 4) fourth
pool-Working_example =
    pool-Working flaky (pos 3) (pos 4) 8 (pos 180) (pos 5000) (pos 2) clock fourth (omega arith)
      (omega arith) history

second-Working : Working flaky (pos 3) (pos 4) second
second-Working =
    pool-Working flaky (pos 3) (pos 4) 8 (pos 180) (pos 5000) (pos 2) clock second (omega arith)
      (omega arith) (next here (enter clock))

first-Working : Working flaky (pos 3) (pos 4) first
first-Working =
    pool-Working flaky (pos 3) (pos 4) 8 (pos 180) (pos 5000) (pos 2) clock first (omega arith)
      (omega arith) here

Life-SystemOwns_example : SystemOwns (record second { pool = shutdown second.pool })
Life-SystemOwns_example =
    Life-SystemOwns flaky {t = record second { pool = shutdown second.pool }} second-Working.owns
      (next here stop)

-- Two connections that were used last at 0 s and at 100 s, with room for one.
abbrev two_idle : Pool
two_idle = record (constructed 1) {
  conn_queue = (some 0, 0) ∷ (some 1, 100_000_000_000) ∷ [];
  min_size = pos 0;
}

recycle-fresh_example :
    (recycle_idle_connections 200_000_000_000 two_idle).conn_queue ≡ (some 1, 100_000_000_000) ∷ []
unfolding constructed idle_seconds
recycle-fresh_example = recycle-fresh 200_000_000_000 two_idle (omega arith)

abbrev down_at_start : ℕ → Attempt
down_at_start n = if ltb n 2 then refused else connected pong

abbrev dead : System
dead = started down_at_start (pos 2) (pos 2) (pos 180) (pos 5000) (pos 4) clock 8

dead-IsExhausted : IsExhausted dead
unfolding started source_connections create_loop create_and_push factory_create
dead-IsExhausted = record {
  queue_empty = refl;
  none_lent = refl;
  none_returning = refl;
  full = omega arith;
}

abbrev dead_later : System
dead_later = after_enter dead (get_enter down_at_start clock dead.pool)

Star-IsExhausted_example : IsExhausted dead_later
Star-IsExhausted_example =
    Star-IsExhausted down_at_start {s = dead} {t = dead_later} dead-IsExhausted
      (next here (enter clock))

down_below : (i : ℕ) → i < 2 → fails (down_at_start i) ≡ true
down_below i h = ground arith

refused_start_example : (dead_later.lent ≡ []) × (dead_later.pool.conn_queue ≡ [])
refused_start_example =
    refused_start down_at_start 8 2 (pos 180) (pos 5000) (pos 4) clock dead_later down_below
      (next here (enter clock))

abbrev once : PoolStatistics
once = record ((constructed 1).stats) { total_borrowed = 1; avg_wait_time_ms = 500 }
