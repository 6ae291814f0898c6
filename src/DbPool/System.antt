-- ===== src/DbPool/System.antt =====
-- The database pool among its clients, one critical section at a time.
use backend_common_component.Prelude.{
  ℕ, suc, ◌*◌, ◌-◌, ◌<◌, Bool, false, List, [], ℤ, pos, count, remove, some,
}
use backend_common_component.Objects.{Ptr, keep}
use backend_common_component.DbPool.Pool.{
  Pool, Progress, returned, waits, failed, init, get_enter, get_wake, return_connection,
  recycle_idle_connections,
}

pub record System : Type 0 where
  pub pool : Pool
  pub lent : List ℕ
  pub waiting : ℕ

abbrev pub after_enter : System → Progress × Pool → System
after_enter s (returned c, p) = record s { pool = p; lent = keep c s.lent }
after_enter s (waits, p) = record s { pool = p; waiting = suc s.waiting }
after_enter s (failed, p) = record s { pool = p }

abbrev pub after_wake : System → Ptr × Pool → System
after_wake s (c, p) = record s { pool = p; lent = keep c s.lent; waiting = s.waiting - 1 }

pub data Step (attempt : ℕ → Bool) (s : System) : System → Type 0 where
  enter : (clock : ℕ → ℕ) → Step attempt s (after_enter s (get_enter attempt clock s.pool))
  wake :
      (timed_out : Bool) → 0 < s.waiting → Step attempt s (after_wake s (get_wake timed_out s.pool))
  give_back :
      (c : ℕ) (valid : Bool) (now : ℕ)
      → 0 < count c s.lent
      → Step attempt s
          (record s { pool = return_connection (some c) valid now s.pool; lent = remove c s.lent })
  recycle : (now : ℕ) → Step attempt s (record s { pool = recycle_idle_connections now s.pool })

pub data Star (R : System → System → Type 0) (s : System) : System → Type 0 where
  here : Star R s s
  next : {t u : System} → Star R s t → R t u → Star R s u

-- The constructor for MySQL, on a machine with the given number of hardware threads.
unfoldable pub constructed : ℕ → Pool
constructed hardware_threads = record {
  conn_queue = [];
  min_size = pos hardware_threads;
  max_size = pos (hardware_threads * 2);
  max_idle_time = pos 180;
  timeout = pos 10;
  op_num = pos 4;
  current_size = pos 0;
  initialized = false;
  recycle_running = false;
  heap = record { tries = 0; live = []; bad_free = 0 };
}

-- A pool after `init` with all parameters, whether or not it threw.
unfoldable pub started : (ℕ → Bool) → ℤ → ℤ → ℤ → ℤ → ℤ → (ℕ → ℕ) → ℕ → System
unfolding init constructed
started attempt min max idle_time timeout op_num clock hardware_threads = record {
  pool = (init attempt min max idle_time timeout op_num clock (constructed hardware_threads)).1;
  lent = [];
  waiting = 0;
}
