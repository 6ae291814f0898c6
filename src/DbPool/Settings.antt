-- ===== src/DbPool/Settings.antt =====
-- The setters and getters of database-connection-pool/src/ConnectionPool.cpp.
use backend_common_component.Prelude.{ℤ}
use backend_common_component.DbPool.Pool.{Pool}

unfoldable pub set_min_size : ℤ → Pool → Pool
set_min_size val p = record p { min_size = val }

unfoldable pub set_max_size : ℤ → Pool → Pool
set_max_size val p = record p { max_size = val }

unfoldable pub set_max_idle_time : ℤ → Pool → Pool
set_max_idle_time val p = record p { max_idle_time = val }

unfoldable pub set_timeout : ℤ → Pool → Pool
set_timeout val p = record p { timeout = val }

unfoldable pub get_min_size : Pool → ℤ
get_min_size p = p.min_size

unfoldable pub get_max_size : Pool → ℤ
get_max_size p = p.max_size

unfoldable pub get_max_idle_time : Pool → ℤ
get_max_idle_time p = p.max_idle_time

unfoldable pub get_timeout : Pool → ℤ
get_timeout p = p.timeout
