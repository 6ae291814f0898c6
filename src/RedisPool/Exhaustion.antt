-- ===== src/RedisPool/Exhaustion.antt =====
-- The pool whose failed constructions fill its counter.
use backend_common_component.Prelude.{
  ℕ, zero, suc, ◌+◌, ◌≤◌, ◌<◌, ◌≡◌, refl, Bool, true, false, List, [], arith, ℤ, pos, count, ◌≤ℤ◌,
}
use backend_common_component.RedisPool.Types.{
  pong, other_reply, throws, Attempt, refused, connected, Pool,
}
use backend_common_component.RedisPool.Factory.{check, factory_create}
use backend_common_component.RedisPool.Connections.{
  create_and_push, create_loop, source_connections, note_sizes, init,
}
use backend_common_component.RedisPool.Borrow.{get_enter, get_wake}
use backend_common_component.RedisPool.Recycle.{recycle_idle_connections, recycle_loop}
use backend_common_component.RedisPool.System.{
  System, constructed, started, Step, enter, wake, give_back, discard, replace, recycle, Star, here,
  next,
}

-- No connection is queued, lent or being replaced, and the counter has reached the maximum.
pub record IsExhausted (s : System) : Type 0 where
  pub queue_empty : s.pool.conn_queue ≡ []
  pub none_lent : s.lent ≡ []
  pub none_returning : s.returning ≡ 0
  pub full : s.pool.max_size ≤ℤ s.pool.current_size

held_none : (c : ℕ) (lent : List ℕ) → lent ≡ [] → ¬ 0 < count c lent
held_none c lent e l = let none_held : 1 ≤ count c [] = rw e at l in absurd (omega arith)

-- A construction fails: its constructor throws, or the first PING is not answered as it should be.
abbrev pub fails : Attempt → Bool
fails refused = true
fails (connected pong) = false
fails (connected other_reply) = true
fails (connected throws) = true

module _ (attempt : ℕ → Attempt) where
  Step-IsExhausted : {s t : System} → Step attempt s t → IsExhausted s → IsExhausted t
  unfolding get_enter get_wake recycle_idle_connections recycle_loop
  Step-IsExhausted {s} (enter clock) v = ground arith
  Step-IsExhausted {s} (wake timed_out wait_ms w) v = ground arith
  Step-IsExhausted {s} (give_back c now l) v = absurd (held_none c s.lent v.none_lent l)
  Step-IsExhausted {s} (discard c _ f l) v = absurd (held_none c s.lent v.none_lent l)
  Step-IsExhausted {s} (replace now r) v = absurd (omega (arith, v.none_returning))
  Step-IsExhausted {s} (recycle now) v = ground arith

  -- Once no connection is queued, lent or being replaced while `m_current_size` has reached the maximum, this stays
  -- so through all calls, waits, returns and runs of the recycle thread, whatever the server does:
  -- no call of `get_connection` obtains a connection any more.
  pub Star-IsExhausted : {s t : System} → IsExhausted s → Star (Step attempt) s t → IsExhausted t
  Star-IsExhausted v here = v
  Star-IsExhausted v (next r st) = Step-IsExhausted st (Star-IsExhausted v r)

  create_loop-refused :
      (k : ℕ) (clock : ℕ → ℕ) (p : Pool) (n m : ℕ)
      → ((i : ℕ) → i < m → fails (attempt i) ≡ true)
      → p.conn_queue ≡ []
      → p.current_size ≡ pos n
      → p.heap.tries + k ≤ m
      → let p' = create_loop attempt k clock p in
        (p'.conn_queue ≡ []) × (p'.current_size ≡ pos (n + k)) × (p'.max_size ≡ p.max_size)
  unfolding create_loop create_and_push factory_create check
  create_loop-refused zero clock p n m f q e l = ground arith
  create_loop-refused (suc k) clock p n m f q e l =
      let p' = create_and_push attempt (clock 0) p in
      ground (arith, f p.heap.tries, create_loop-refused k (λ i. clock (suc i)) p' (suc n) m f)

  -- A pool of fixed size whose first constructions all fail, in the constructor or at the first PING, as
  -- when the server is down at start, never lends a connection, however the server answers later: the failed constructions stay in
  -- `m_current_size`.
  pub refused_start :
      (hardware_threads size : ℕ) (idle_time timeout op_num : ℤ) (clock : ℕ → ℕ) (t : System)
      → ((i : ℕ) → i < size → fails (attempt i) ≡ true)
      → Star
          (Step attempt)
          (started attempt (pos size) (pos size) idle_time timeout op_num clock hardware_threads)
          t
      → (t.lent ≡ []) × (t.pool.conn_queue ≡ [])
  unfolding started constructed init source_connections note_sizes
  refused_start hardware_threads size idle_time timeout op_num clock t f r =
      let p : Pool = record (constructed hardware_threads) {
        initialized = true;
        min_size = pos size;
        max_size = pos size;
        max_idle_time = idle_time;
        timeout = timeout;
        op_num = op_num;
      } in
      let facts = create_loop-refused size clock p 0 size f refl refl (omega arith) in
      let v =
        Star-IsExhausted
          {s = started attempt (pos size) (pos size) idle_time timeout op_num clock
            hardware_threads}
          (ground (arith, facts)) r in
      (v.none_lent, v.queue_empty)
