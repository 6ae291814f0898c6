-- ===== src/RedisPool/Connections.antt =====
-- RedisConnectionPool.cpp: creating and destroying connections, filling and expanding the pool.
-- `attempt n` is what the n-th construction of a connection object does; `clock i` is the reading of
-- the steady clock in round i of a loop.
use backend_common_component.Prelude.{
  ℕ, zero, suc, ◌+◌, none, some, [], ◌∷◌, ◌++◌, ℤ, pos, ◌-ℤ◌, min_ℤ, leb_ℤ, incr, decr, rounds,
  length, if◌then◌else◌, true,
}
use backend_common_component.Objects.{Ptr, delete}
use backend_common_component.RedisPool.Types.{Attempt, Pool, u64}
use backend_common_component.RedisPool.Factory.{factory_create}

-- The statistics that several operations set from the queue and the counter.
unfoldable pub note_sizes : Pool → Pool
note_sizes p = record p {
  stats = record (p.stats) {
    idle_connections = pos (length p.conn_queue);
    total_connections = p.current_size;
  };
}

unfoldable pub note_idle : Pool → Pool
note_idle p = record p { stats = record (p.stats) { idle_connections = pos (length p.conn_queue) } }

-- `destroy_connection`.
unfoldable pub destroy_connection : Ptr → Pool → Pool
destroy_connection none p = p
destroy_connection (some c) p = record p {
  heap = delete c p.heap;
  current_size = decr p.current_size;
  stats = record (p.stats) { total_destroyed = u64 (p.stats.total_destroyed + 1) };
}

-- `if (conn != nullptr) m_conn_queue.push(...)`.
unfoldable pub push_if_some : Ptr → ℕ → Pool → Pool
push_if_some none now p = p
push_if_some (some c) now p = record p { conn_queue = p.conn_queue ++ ((some c, now) ∷ []) }

module _ (attempt : ℕ → Attempt) where
  -- `create_connection`: the counter grows also when the factory returned null.
  unfoldable pub create_connection : Pool → Ptr × Pool
  create_connection p =
      let (conn, h) = factory_create (attempt p.heap.tries) p.heap in
      (
        conn,
        record p {
          heap = h;
          current_size = incr p.current_size;
          stats = record (p.stats) { total_created = u64 (p.stats.total_created + 1) };
        },
      )

  -- One round of the loops of `source_connections` and `expand_connections`.
  unfoldable pub create_and_push : ℕ → Pool → Pool
  unfolding create_connection push_if_some
  create_and_push now p = let (conn, p') = create_connection p in push_if_some conn now p'

  unfoldable pub create_loop : ℕ → (ℕ → ℕ) → Pool → Pool
  create_loop zero clock p = p
  create_loop (suc k) clock p = create_loop k (λ i. clock (suc i)) (create_and_push (clock 0) p)

  unfoldable pub source_connections : (ℕ → ℕ) → Pool → Pool
  unfolding note_sizes
  source_connections clock p = note_sizes (create_loop (rounds p.min_size) clock p)

  unfoldable pub expand_connections : (ℕ → ℕ) → Pool → Pool
  unfolding note_sizes
  expand_connections clock p =
      let to_create = min_ℤ (p.max_size -ℤ p.current_size) p.op_num in
      if leb_ℤ to_create (pos 0) then p else note_sizes (create_loop (rounds to_create) clock p)

  -- `init` with all parameters; the recycle thread is started unless it runs.
  unfoldable pub init : ℤ → ℤ → ℤ → ℤ → ℤ → (ℕ → ℕ) → Pool → Pool
  init min max idle_time timeout op_num clock p =
      let q : Pool = record p {
        initialized = true;
        min_size = min;
        max_size = max;
        max_idle_time = idle_time;
        timeout = timeout;
        op_num = op_num;
      } in
      record (source_connections clock q) { recycle_running = true }

  -- `init` with the defaults of the constructor.
  unfoldable pub init_default : (ℕ → ℕ) → Pool → Pool
  init_default clock p = record (source_connections clock (record p { initialized = true })) {
    recycle_running = true;
  }
