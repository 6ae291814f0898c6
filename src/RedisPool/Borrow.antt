-- ===== src/RedisPool/Borrow.antt =====
-- RedisConnectionPool.cpp: `get_connection` in its two critical sections, and `return_connection`.
-- `get_connection` holds the lock but for the wait on the condition variable: `get_enter` is what
-- runs before the wait, `get_wake` what runs after it. Other operations may run between the two.
use backend_common_component.Prelude.{
  ℕ, ◌+◌, ◌-◌, ◌*◌, ◌/◌, Bool, true, false, not, ◌&&◌, none, some, List, [], ◌∷◌, ◌++◌, pos, ltb,
  ltb_ℤ, incr, decr, length, if◌then◌else◌,
}
use backend_common_component.Objects.{ConnEntry, Ptr}
use backend_common_component.RedisPool.Types.{healthy, Ping, Attempt, PoolStatistics, Pool, u64}
use backend_common_component.RedisPool.Factory.{check}
use backend_common_component.RedisPool.Connections.{
  destroy_connection, create_and_push, expand_connections, note_idle,
}

-- A call of `get_connection` has returned a guard on a pointer, or waits.
pub data Progress : Type 0 where
  returned : Ptr → Progress
  waits : Progress

unfoldable pub is_empty : List ConnEntry → Bool
is_empty [] = true
is_empty (_ ∷ _) = false

-- The last part of `get_connection`: the front of the queue, or null if it is empty.
unfoldable pub take_front : List ConnEntry → Pool → Ptr × Pool
take_front [] p = (none, p)
take_front ((conn, _) ∷ q) p = (
  conn,
  record p {
    conn_queue = q;
    stats = record (p.stats) {
      total_borrowed = u64 (p.stats.total_borrowed + 1);
      active_connections = incr p.stats.active_connections;
      idle_connections = pos (length q);
    };
  },
)

-- The waiting time enters the average over the connections lent so far, in `uint64_t` arithmetic.
unfoldable pub note_wait : ℕ → PoolStatistics → PoolStatistics
note_wait wait_ms s = record s {
  avg_wait_time_ms =
      if ltb 0 s.total_borrowed
      then u64 (s.avg_wait_time_ms * (s.total_borrowed - 1) + wait_ms) / s.total_borrowed
      else wait_ms;
  max_wait_time_ms = if ltb s.max_wait_time_ms wait_ms then wait_ms else s.max_wait_time_ms;
}

unfoldable pub enter_wait : List ConnEntry → Pool → Progress × Pool
unfolding take_front
enter_wait [] p = (
  waits,
  record p { stats = record (p.stats) { pending_waiters = incr p.stats.pending_waiters } },
)
enter_wait (e ∷ q) p = let (conn, p') = take_front (e ∷ q) p in (returned conn, p')

-- After the wait: `timed_out` is the status that `wait_for` returned.
unfoldable pub get_wake : Bool → ℕ → Pool → Ptr × Pool
unfolding is_empty take_front note_wait
get_wake timed_out wait_ms p =
    let s : PoolStatistics = record (p.stats) { pending_waiters = decr p.stats.pending_waiters } in
    if timed_out && is_empty p.conn_queue
    then (
      none,
      record p { stats = record s { total_timeout_errors = u64 (s.total_timeout_errors + 1) } },
    )
    else take_front p.conn_queue (record p { stats = note_wait wait_ms s })

-- The branch of `return_connection` for a connection that answers its check.
unfoldable pub requeue : ℕ → ℕ → Pool → Pool
unfolding note_idle
requeue c now p =
    let s = p.stats in
    note_idle (record p {
      conn_queue = p.conn_queue ++ ((some c, now) ∷ []);
      stats = record s {
        total_released = u64 (s.total_released + 1);
        active_connections = decr s.active_connections;
      };
    })

-- The other branch, once the connection is destroyed: the lock is taken and the return is counted,
unfoldable pub note_return : Pool → Pool
note_return p =
    let s = p.stats in
    record p {
      stats = record s {
        total_reconnect_count = u64 (s.total_reconnect_count + 1);
        active_connections = decr s.active_connections;
        total_released = u64 (s.total_released + 1);
      };
    }

module _ (attempt : ℕ → Attempt) where
  unfoldable pub expand_if_needed : (ℕ → ℕ) → Pool → Pool
  unfolding is_empty
  expand_if_needed clock p =
      if is_empty p.conn_queue && ltb_ℤ p.current_size p.max_size
      then expand_connections attempt clock p
      else p

  unfoldable pub get_enter : (ℕ → ℕ) → Pool → Progress × Pool
  unfolding enter_wait expand_if_needed
  get_enter clock p =
      if not p.initialized
      then (returned none, p)
      else let p' = expand_if_needed clock p in enter_wait p'.conn_queue p'

  -- and the connection is replaced if the pool is below its minimal size.
  unfoldable pub replenish : ℕ → Pool → Pool
  unfolding note_idle note_return
  replenish now p =
      let q = note_return p in
      note_idle (if ltb_ℤ q.current_size q.min_size then create_and_push attempt now q else q)

  -- `return_connection`, given what the connection answers to the PING of its check.
  unfoldable pub return_connection : Ptr → Ping → ℕ → Pool → Pool
  unfolding check requeue destroy_connection replenish
  return_connection none _ now p = p
  return_connection (some c) ping now p = elim (check (some c) ping) [
    | healthy ↦ requeue c now p
    | _ ↦ replenish now (destroy_connection (some c) p)
  ]
