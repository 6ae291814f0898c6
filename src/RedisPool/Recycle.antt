-- ===== src/RedisPool/Recycle.antt =====
-- RedisConnectionPool.cpp: the recycling of idle connections and `shutdown`.
-- In the source the loop reads `entry`, a reference to the front, after `pop`; the model reads the
-- value that stood there before.
use backend_common_component.Prelude.{
  ℕ, zero, suc, ◌-◌, ◌/◌, false, true, [], ◌∷◌, ◌++◌, pos, ◌-ℤ◌, leb_ℤ, ltb, rounds, length,
  if◌then◌else◌,
}
use backend_common_component.Objects.{drain}
use backend_common_component.RedisPool.Types.{Pool}
use backend_common_component.RedisPool.Connections.{destroy_connection, note_sizes}

-- Whole seconds between two readings (ns) of the steady clock, which does not run backwards.
unfoldable pub idle_seconds : ℕ → ℕ → ℕ
idle_seconds now since = (now - since) / 1000000000

-- The loop of `recycle_idle_connections`, with the rounds left of `queue_size`, the count `recycled`
-- and its limit.
unfoldable pub recycle_loop : ℕ → ℕ → ℕ → ℕ → Pool → ℕ × Pool
unfolding idle_seconds
recycle_loop zero recycled can_recycle now p = (recycled, p)
recycle_loop (suc k) recycled can_recycle now p = elim (ltb recycled can_recycle) [
  | false ↦ (recycled, p)
  | true ↦ elim p.conn_queue [
    | [] ↦ (recycled, p)
    | (conn, since) ∷ q ↦ elim (leb_ℤ p.max_idle_time (pos (idle_seconds now since))) [
      | true ↦
          recycle_loop k (suc recycled) can_recycle now
            (destroy_connection conn (record p { conn_queue = q }))
      | false ↦
          recycle_loop k recycled can_recycle now
            (record p { conn_queue = q ++ ((conn, since) ∷ []) })
    ]
  ]
]

unfoldable pub recycle_idle_connections : ℕ → Pool → Pool
unfolding note_sizes
recycle_idle_connections now p =
    let queue_size = length p.conn_queue in
    let can_recycle = pos queue_size -ℤ p.min_size in
    if leb_ℤ can_recycle (pos 0)
    then p
    else let (recycled, p') = recycle_loop queue_size 0 (rounds can_recycle) now p in
      if ltb 0 recycled then note_sizes p' else p'

unfoldable pub shutdown : Pool → Pool
unfolding drain
shutdown p = record p {
  recycle_running = false;
  conn_queue = [];
  heap = drain p.conn_queue p.heap;
  current_size = pos 0;
  initialized = false;
  stats = record (p.stats) {
    active_connections = pos 0;
    idle_connections = pos 0;
    total_connections = pos 0;
  };
}
