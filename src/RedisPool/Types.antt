-- ===== src/RedisPool/Types.antt =====
-- The data of redis-connection-pool: RedisHealthChecker.h, PoolStatistics.h and the fields of
-- RedisConnectionPool.h. The two time stamps of the statistics are left out; mutexes and the thread
-- handle have no data.
use backend_common_component.Prelude.{ℕ, ◌%◌, Bool, List, ℤ}
use backend_common_component.Objects.{ConnEntry, Heap}

pub data HealthStatus : Type 0 where
  healthy unhealthy unknown : HealthStatus

-- What redis-plus-plus answers to `conn->ping()`: "PONG", another text, or an exception.
pub data Ping : Type 0 where
  pong other_reply throws : Ping

-- What `new sw::redis::Redis(opts, pool_opts)` does: it throws, or yields an object that then answers
-- the first PING.
pub data Attempt : Type 0 where
  refused : Attempt
  connected : Ping → Attempt

pub record PoolStatistics : Type 0 where
  pub active_connections : ℤ
  pub idle_connections : ℤ
  pub total_connections : ℤ
  pub total_borrowed : ℕ  -- uint64_t
  pub total_released : ℕ  -- uint64_t
  pub total_created : ℕ  -- uint64_t
  pub total_destroyed : ℕ  -- uint64_t
  pub total_timeout_errors : ℕ  -- uint64_t
  pub total_reconnect_count : ℕ  -- uint64_t
  pub pending_waiters : ℤ
  pub avg_wait_time_ms : ℕ  -- int64_t, as its 64-bit pattern
  pub max_wait_time_ms : ℕ  -- int64_t, never negative

pub record Pool : Type 0 where
  pub conn_queue : List ConnEntry
  pub min_size : ℤ
  pub max_size : ℤ
  pub max_idle_time : ℤ
  pub timeout : ℤ
  pub op_num : ℤ
  pub current_size : ℤ
  pub initialized : Bool
  pub recycle_running : Bool
  pub stats : PoolStatistics
  pub heap : Heap

abbrev pub u64 : ℕ → ℕ
u64 n = n % 18446744073709551616
