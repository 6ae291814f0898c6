-- ===== src/RedisPool/System.antt =====
-- The pool among its clients: the connections that guards hold, the calls of `get_connection` that
-- wait, and the steps that the threads take, one critical section at a time.
use backend_common_component.Prelude.{
  ℕ, suc, ◌≢◌, ◌-◌, ◌*◌, ◌<◌, pos, false, Bool, some, List, [], ℤ, count, remove,
}
use backend_common_component.Objects.{Ptr, keep}
use backend_common_component.RedisPool.Types.{Ping, Attempt, Pool, healthy}
use backend_common_component.RedisPool.Factory.{check}
use backend_common_component.RedisPool.Borrow.{
  Progress, returned, waits, get_enter, get_wake, requeue, replenish,
}
use backend_common_component.RedisPool.Connections.{init, destroy_connection}
use backend_common_component.RedisPool.Recycle.{recycle_idle_connections, shutdown}

pub record System : Type 0 where
  pub pool : Pool
  pub lent : List ℕ
  pub waiting : ℕ
  -- Returns that have destroyed their connection and not taken the lock yet.
  pub returning : ℕ

-- The constructor, on a machine with the given number of hardware threads, before any connection
-- object exists.
unfoldable pub constructed : ℕ → Pool
constructed hardware_threads = record {
  conn_queue = [];
  min_size = pos hardware_threads;
  max_size = pos (hardware_threads * 2);
  max_idle_time = pos 180;
  timeout = pos 5000;
  op_num = pos 4;
  current_size = pos 0;
  initialized = false;
  recycle_running = false;
  stats = record {
    active_connections = pos 0;
    idle_connections = pos 0;
    total_connections = pos 0;
    total_borrowed = 0;
    total_released = 0;
    total_created = 0;
    total_destroyed = 0;
    total_timeout_errors = 0;
    total_reconnect_count = 0;
    pending_waiters = pos 0;
    avg_wait_time_ms = 0;
    max_wait_time_ms = 0;
  };
  heap = record { tries = 0; live = []; bad_free = 0 };
}

-- A pool after `init` with all parameters, before its first client.
unfoldable pub started : (ℕ → Attempt) → ℤ → ℤ → ℤ → ℤ → ℤ → (ℕ → ℕ) → ℕ → System
unfolding init constructed
started attempt min max idle_time timeout op_num clock hardware_threads = record {
  pool = init attempt min max idle_time timeout op_num clock (constructed hardware_threads);
  lent = [];
  waiting = 0;
  returning = 0;
}

abbrev pub after_enter : System → Progress × Pool → System
after_enter s (returned c, p) = record s { pool = p; lent = keep c s.lent }
after_enter s (waits, p) = record s { pool = p; waiting = suc s.waiting }

abbrev pub after_wake : System → Ptr × Pool → System
after_wake s (c, p) = record s { pool = p; lent = keep c s.lent; waiting = s.waiting - 1 }

-- A guard gives back what it holds, and a waiting call is woken. A healthy connection is given back
-- under the lock; one that fails its check is destroyed first, and the lock is taken afterwards. Times
-- and answers are the environment's choice.
pub data Step (attempt : ℕ → Attempt) (s : System) : System → Type 0 where
  enter : (clock : ℕ → ℕ) → Step attempt s (after_enter s (get_enter attempt clock s.pool))
  wake :
      (timed_out : Bool) (wait_ms : ℕ)
      → 0 < s.waiting
      → Step attempt s (after_wake s (get_wake timed_out wait_ms s.pool))
  give_back :
      (c now : ℕ)
      → 0 < count c s.lent
      → Step attempt s (record s { pool = requeue c now s.pool; lent = remove c s.lent })
  discard :
      (c : ℕ) (ping : Ping)
      → check (some c) ping ≢ healthy
      → 0 < count c s.lent
      → Step attempt s (record s {
        pool = destroy_connection (some c) s.pool;
        lent = remove c s.lent;
        returning = suc s.returning;
      })
  replace :
      (now : ℕ)
      → 0 < s.returning
      → Step attempt s
          (record s { pool = replenish attempt now s.pool; returning = s.returning - 1 })
  recycle : (now : ℕ) → Step attempt s (record s { pool = recycle_idle_connections now s.pool })

-- The life of a pool: the steps of its clients, and those of its owner, which are outside the
-- contract that the pool's sizes rest on.
pub data Life (attempt : ℕ → Attempt) (s : System) : System → Type 0 where
  work : {t : System} → Step attempt s t → Life attempt s t
  start :
      (min max idle_time timeout op_num : ℤ) (clock : ℕ → ℕ)
      → Life attempt s
          (record s { pool = init attempt min max idle_time timeout op_num clock s.pool })
  stop : Life attempt s (record s { pool = shutdown s.pool })

-- Any number of steps of a relation.
pub data Star (R : System → System → Type 0) (s : System) : System → Type 0 where
  here : Star R s s
  next : {t u : System} → Star R s t → R t u → Star R s u
