-- ===== src/RedisPool/Settings.antt =====
-- The setters and getters of redis-connection-pool/src/RedisConnectionPool.cpp.
use backend_common_component.Prelude.{ℕ, ℤ, ◌≤ℤ◌, ◌≡◌, arith}
use backend_common_component.RedisPool.Connections.{expand_connections}
use backend_common_component.RedisPool.Types.{Pool, PoolStatistics, Attempt}

unfoldable pub set_min_size : ℤ → Pool → Pool
set_min_size val p = record p { min_size = val }

unfoldable pub set_max_size : ℤ → Pool → Pool
set_max_size val p = record p { max_size = val }

unfoldable pub set_max_idle_time : ℤ → Pool → Pool
set_max_idle_time val p = record p { max_idle_time = val }

unfoldable pub set_timeout : ℤ → Pool → Pool
set_timeout val p = record p { timeout = val }

unfoldable pub get_min_size : Pool → ℤ
get_min_size p = p.min_size

unfoldable pub get_max_size : Pool → ℤ
get_max_size p = p.max_size

unfoldable pub get_max_idle_time : Pool → ℤ
get_max_idle_time p = p.max_idle_time

unfoldable pub get_timeout : Pool → ℤ
get_timeout p = p.timeout

unfoldable pub get_statistics : Pool → PoolStatistics
get_statistics p = p.stats

-- A maximum that is set to the current size or below stops the expansion at once.
lowered_stops :
    (attempt : ℕ → Attempt) (clock : ℕ → ℕ) (val : ℤ) (p : Pool)
    → val ≤ℤ p.current_size
    → expand_connections attempt clock (set_max_size val p) ≡ set_max_size val p
unfolding expand_connections set_max_size
lowered_stops attempt clock val p h = ground (arith, h)
