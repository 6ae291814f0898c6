-- ===== src/Tests/Database.antt =====
-- The database pool on a server that refuses the second connection.
use backend_common_component.Prelude.{
  ℕ, ◌+◌, ◌<◌, ◌≡◌, refl, Bool, false, not, arith, pos, ◌==◌, count, remove,
}
use backend_common_component.DbPool.Pool.{
  return_connection, get_enter, source_connections, create_loop, create_and_push,
}
use backend_common_component.DbPool.System.{
  System, enter, give_back, here, next, started, after_enter,
}
use backend_common_component.DbPool.Parts.{Sound}
use backend_common_component.DbPool.Invariant.{pool-Sound}
use mathlib.Core.Option.{some}

abbrev second_fails : ℕ → Bool
second_fails n = not (n == 1)

abbrev clock : ℕ → ℕ
clock i = 1000 + i

abbrev first : System
first = started second_fails (pos 2) (pos 4) (pos 180) (pos 10) (pos 2) clock 8

-- `init` throws in its second round; the first connection stays queued and counted.
first_size : first.pool.current_size ≡ pos 1
unfolding started source_connections create_loop create_and_push
first_size = refl

abbrev second : System
second = after_enter first (get_enter second_fails clock first.pool)

lent_first : 0 < count 0 second.lent
unfolding started source_connections create_loop create_and_push get_enter
lent_first = omega arith

abbrev third : System
third = record second {
  pool = return_connection (some 0) false 2000 second.pool;
  lent = remove 0 second.lent;
}

pool-Sound_example : Sound (pos 4) third.lent third.pool
pool-Sound_example =
    pool-Sound second_fails (pos 4) (pos 2) (pos 180) (pos 10) (pos 2) clock 8 third (omega arith)
      (omega arith) (next (next here (enter clock)) (give_back 0 false 2000 lent_first))
