-- ===== src/Pthread/Pool.antt =====
-- threadPool.cpp of the pthread implementation, one critical section at a time. Threads are numbered
-- in the order in which they are created; `create n` is the `pthread_t` that `pthread_create` returns
-- for thread n. The places a thread is at, and the actions of a schedule, are those of the other
-- implementation; a thread that has ended is at `free`. Logging and sleeps are left out.
use backend_common_component.Prelude.{
  ℕ, zero, suc, true, false, ◌&&◌, ◌||◌, Option, none, some, List, [], ◌∷◌, ◌++◌, ℤ, pos, ◌+ℤ◌,
  ◌-ℤ◌, min_ℤ, ltb_ℤ, eq_ℤ, incr, decr, rounds, ltb, ◌==◌, length, remove, count, if◌then◌else◌,
  Bool,
}
use backend_common_component.ThreadPool.Pool.{
  Worker, free, ready, blocked, leaving, got, running, get_elem?, set, Action, works, submits,
  enqueues, looks, counts, adds, destroys, shuts,
}

pub record Pool : Type 0 where
  pub task_q : List ℕ
  pub capacity : ℕ
  -- Every thread that was created, with the place it is at.
  pub threads : List Worker
  -- Thread ids, 0 for a slot that is not in use.
  pub thread_work_group : List ℕ
  pub min_threads : ℤ
  pub max_threads : ℤ
  pub live_threads : ℤ
  pub busy_threads : ℤ
  pub exit_threads : ℤ
  pub op_num : ℤ
  pub is_shutdown : Bool
  -- The manager's local copies `qsize`, `live_num` and `busy_num`.
  pub qsize : ℤ
  pub live_num : ℤ
  pub busy_num : ℤ
  -- What becomes of submitted tasks: held back in `submit`, run, deleted.
  pub pending : List ℕ
  pub finished : List ℕ
  pub refused : List ℕ

-- `assign(max, 0)`
unfoldable pub assign : ℕ → List ℕ
assign zero = []
assign (suc n) = 0 ∷ assign n

-- `getTask`: the front of the queue and the rest.
unfoldable pub get_task : List ℕ → Option ℕ × List ℕ
get_task [] = (none, [])
get_task (task ∷ rest) = (some task, rest)

-- The loop of `thread_exit_`: the first slot that holds the thread's id is given up.
unfoldable pub thread_exit : ℕ → List ℕ → List ℕ
thread_exit tid [] = []
thread_exit tid (t ∷ ts) = if t == tid then 0 ∷ ts else t ∷ thread_exit tid ts

-- Thread i has the queue's lock and stands at the test of its inner loop; behind it, it leaves if the
-- pool is shut down, and takes a task if not.
unfoldable pub at_test : Option ℕ × List ℕ → ℕ → Pool → Pool
at_test (front, rest) i p =
    if p.is_shutdown
    then record p { live_threads = decr p.live_threads; threads = set p.threads i leaving }
    else elim front [
      | none ↦ record p { threads = set p.threads i blocked }
      | some task ↦ record p { task_q = rest; threads = set p.threads i (got task) }
    ]

-- `submit`, to its lock.
unfoldable pub submit : Option ℕ → Pool → Pool
submit none p = p
submit (some task) p =
    if p.is_shutdown
    then record p { refused = task ∷ p.refused }
    else record p { pending = task ∷ p.pending }

-- `submit`, past its wait for room in the queue or for the shutdown.
unfoldable pub enqueue : ℕ → Pool → Pool
enqueue task p =
    if ltb 0 (count task p.pending) && (ltb (length p.task_q) p.capacity || p.is_shutdown)
    then record p { task_q = p.task_q ++ (task ∷ []); pending = remove task p.pending }
    else p

unfoldable pub observe_queue : Pool → Pool
observe_queue p = record p { qsize = pos (length p.task_q) }

unfoldable pub observe_threads : Pool → Pool
observe_threads p = record p { live_num = p.live_threads; busy_num = p.busy_threads }

unfoldable pub destroy_threads : Pool → Pool
destroy_threads p =
    if (ltb_ℤ (p.busy_num +ℤ p.busy_num) p.live_num
        || (eq_ℤ p.qsize (pos 0) && eq_ℤ p.busy_num (pos 0)))
      && ltb_ℤ p.min_threads p.live_num
    then record p { exit_threads = min_ℤ p.op_num (p.live_num -ℤ p.min_threads) }
    else p

-- The broadcasts that follow wake the threads that wait. Here a waiting thread may look at its condition
-- in any turn, so that every schedule of the program is one of the model.
unfoldable pub shut_down : Pool → Pool
shut_down p = record p { is_shutdown = true }

-- What the loop that adds threads changes.
pub record Grown : Type 0 where
  pub group : List ℕ
  pub all : List Worker
  pub live : ℤ

module _ (create : ℕ → ℕ) where
  -- One critical section of thread i. A blocked thread that wakes first looks whether it is to exit.
  unfoldable pub work : Worker → ℕ → Pool → Pool
  unfolding at_test
  work free i p = p
  work ready i p = at_test (get_task p.task_q) i p
  work blocked i p =
      if ltb_ℤ (pos 0) p.exit_threads
      then record p {
        exit_threads = decr p.exit_threads;
        live_threads = decr p.live_threads;
        threads = set p.threads i leaving;
      }
      else at_test (get_task p.task_q) i p
  work (got task) i p = record p {
    busy_threads = incr p.busy_threads;
    threads = set p.threads i (running task);
  }
  work (running task) i p = record p {
    busy_threads = decr p.busy_threads;
    threads = set p.threads i ready;
    finished = task ∷ p.finished;
  }
  work leaving i p = record p {
    threads = set p.threads i free;
    thread_work_group = thread_exit (create i) p.thread_work_group;
  }

  abbrev keep_slot : ℕ → Grown → Grown
  keep_slot t g = record g { group = t ∷ g.group }

  -- The loop that starts threads in free slots; `cnt` counts those it has started.
  unfoldable pub spawn : ℤ → ℤ → ℤ → ℤ → List ℕ → List Worker → Grown
  spawn op_num max cnt live [] all = record { group = []; all = all; live = live }
  spawn op_num max cnt live (t ∷ ts) all = elim (ltb_ℤ cnt op_num && ltb_ℤ live max) [
    | false ↦ record { group = t ∷ ts; all = all; live = live }
    | true ↦ elim (t == 0) [
      | true ↦
          keep_slot (create (length all))
            (spawn op_num max (incr cnt) (incr live) ts (all ++ (ready ∷ [])))
      | false ↦ keep_slot t (spawn op_num max cnt live ts all)
    ]
  ]

  unfoldable pub add_threads : Pool → Pool
  unfolding spawn
  add_threads p =
      if ltb_ℤ p.live_num p.qsize && ltb_ℤ p.live_num p.max_threads
      then (let g =
            spawn p.op_num p.max_threads (pos 0) p.live_threads p.thread_work_group p.threads in
          record p { thread_work_group = g.group; threads = g.all; live_threads = g.live })
      else p

  -- The constructor's loop creates a thread in each of the first n slots.
  unfoldable pub start : ℕ → List ℕ → List Worker → List ℕ × List Worker
  start n [] all = ([], all)
  start zero (t ∷ ts) all = (t ∷ ts, all)
  start (suc n) (t ∷ ts) all =
      let (group, all') = start n ts (all ++ (ready ∷ [])) in (create (length all) ∷ group, all')

  unfoldable pub construct : ℤ → ℤ → ℤ → ℕ → Pool
  unfolding start assign
  construct min max op_num cap =
      let (group, all) = start (rounds min) (assign (rounds max)) [] in
      record {
        task_q = [];
        capacity = cap;
        threads = all;
        thread_work_group = group;
        min_threads = min;
        max_threads = max;
        live_threads = min;
        busy_threads = pos 0;
        exit_threads = pos 0;
        op_num = op_num;
        is_shutdown = false;
        qsize = pos 0;
        live_num = pos 0;
        busy_num = pos 0;
        pending = [];
        finished = [];
        refused = [];
      }

  unfoldable pub act : Action → Pool → Pool
  act (works i) p = work (get_elem? p.threads i) i p
  act (submits task) p = submit task p
  act (enqueues task) p = enqueue task p
  act looks p = observe_queue p
  act counts p = observe_threads p
  act adds p = add_threads p
  act destroys p = destroy_threads p
  act shuts p = shut_down p

  unfoldable pub run : List Action → Pool → Pool
  run [] p = p
  run (x ∷ xs) p = run xs (act x p)
