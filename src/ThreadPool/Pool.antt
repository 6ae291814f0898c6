-- ===== src/ThreadPool/Pool.antt =====
-- threadPool.cpp of the STL implementation, one critical section at a time. A task is the number of
-- its object. The lists `pending`, `finished` and `refused` record what becomes of submitted tasks;
-- logging and the sleeps of the manager are left out.
use backend_common_component.Prelude.{
  ℕ, zero, suc, Bool, true, false, not, ◌&&◌, ◌||◌, Option, none, some, List, [], ◌∷◌, ◌++◌, ℤ, pos,
  ◌+ℤ◌, ◌-ℤ◌, min_ℤ, ltb_ℤ, incr, decr, rounds, ltb, length, remove, count, if◌then◌else◌,
}

-- A slot of `m_thread_work_group`: not joinable, or a thread at one of its critical sections: at the
-- head of its loop, waiting for a task, with a task it has taken or runs, or on its way out.
pub data Worker : Type 0 where
  free ready blocked leaving : Worker
  got running : ℕ → Worker

pub record Pool : Type 0 where
  pub task_q : List ℕ
  pub capacity : ℕ
  pub workers : List Worker
  pub min_threads : ℤ
  pub max_threads : ℤ
  pub live_threads : ℤ
  pub busy_threads : ℤ
  pub exit_threads : ℤ
  pub op_num : ℤ
  pub is_shutdown : Bool
  -- The manager's local copies `qsize`, `live_num` and `busy_num`.
  pub qsize : ℤ
  pub live_num : ℤ
  pub busy_num : ℤ
  pub pending : List ℕ
  pub finished : List ℕ
  pub refused : List ℕ

abbrev pub get_elem? : List Worker → ℕ → Worker
get_elem? [] i = free
get_elem? (w ∷ ws) zero = w
get_elem? (w ∷ ws) (suc i) = get_elem? ws i

abbrev pub set : List Worker → ℕ → Worker → List Worker
set [] i v = []
set (w ∷ ws) zero v = v ∷ ws
set (w ∷ ws) (suc i) v = w ∷ set ws i v

-- The slots after the constructor: `max` of them, with a thread in each of the first `min`.
unfoldable pub slots : ℕ → ℕ → List Worker
slots zero k = []
slots (suc n) zero = free ∷ slots n zero
slots (suc n) (suc k) = ready ∷ slots n k

unfoldable pub construct : ℤ → ℤ → ℤ → ℕ → Pool
unfolding slots
construct min max op_num cap = record {
  task_q = [];
  capacity = cap;
  workers = slots (rounds max) (rounds min);
  min_threads = min;
  max_threads = max;
  live_threads = min;
  busy_threads = pos 0;
  exit_threads = pos 0;
  op_num = op_num;
  is_shutdown = false;
  qsize = pos 0;
  live_num = pos 0;
  busy_num = pos 0;
  pending = [];
  finished = [];
  refused = [];
}

-- The worker in slot i has the queue's lock and stands at the test of its inner loop; behind it, it
-- leaves if the pool is shut down, and takes a task (`getTask`) if not.
unfoldable pub at_test : List ℕ → ℕ → Pool → Pool
at_test q i p =
    if p.is_shutdown
    then record p { live_threads = decr p.live_threads; workers = set p.workers i leaving }
    else elim q [
      | [] ↦ record p { workers = set p.workers i blocked }
      | task ∷ rest ↦ record p { task_q = rest; workers = set p.workers i (got task) }
    ]

-- One critical section of the thread in slot i. A blocked thread that wakes first looks whether it
-- is to exit.
unfoldable pub work : Worker → ℕ → Pool → Pool
unfolding at_test
work free i p = p
work ready i p = at_test p.task_q i p
work blocked i p =
    if ltb_ℤ (pos 0) p.exit_threads
    then record p {
      exit_threads = decr p.exit_threads;
      live_threads = decr p.live_threads;
      workers = set p.workers i leaving;
    }
    else at_test p.task_q i p
work (got task) i p = record p {
  busy_threads = incr p.busy_threads;
  workers = set p.workers i (running task);
}
work (running task) i p = record p {
  busy_threads = decr p.busy_threads;
  workers = set p.workers i ready;
  finished = task ∷ p.finished;
}
work leaving i p = record p { workers = set p.workers i free }

-- `submit`, to its lock: a task that comes after the shutdown is deleted.
unfoldable pub submit : Option ℕ → Pool → Pool
submit none p = p
submit (some task) p =
    if p.is_shutdown
    then record p { refused = task ∷ p.refused }
    else record p { pending = task ∷ p.pending }

-- `submit`, past its wait: there is room in the queue, or the pool is shut down.
unfoldable pub enqueue : ℕ → Pool → Pool
enqueue task p =
    if ltb 0 (count task p.pending) && (ltb (length p.task_q) p.capacity || p.is_shutdown)
    then record p { task_q = p.task_q ++ (task ∷ []); pending = remove task p.pending }
    else p

-- The manager copies the size of the queue under one lock, and the thread counts under the other.
unfoldable pub observe_queue : Pool → Pool
observe_queue p = record p { qsize = pos (length p.task_q) }

unfoldable pub observe_threads : Pool → Pool
observe_threads p = record p { live_num = p.live_threads; busy_num = p.busy_threads }

abbrev pub is_free : Worker → Bool
is_free free = true
is_free _ = false

abbrev pub cons_slot : Worker → List Worker × ℤ → List Worker × ℤ
cons_slot w (ws, live) = (w ∷ ws, live)

-- The loop that starts threads in free slots; `cnt` counts those it has started.
unfoldable pub spawn : ℤ → ℤ → ℤ → ℤ → List Worker → List Worker × ℤ
spawn op_num max cnt live [] = ([], live)
spawn op_num max cnt live (w ∷ ws) = elim (ltb_ℤ cnt op_num && ltb_ℤ live max) [
  | false ↦ (w ∷ ws, live)
  | true ↦ elim (is_free w) [
    | true ↦ cons_slot ready (spawn op_num max (incr cnt) (incr live) ws)
    | false ↦ cons_slot w (spawn op_num max cnt live ws)
  ]
]

unfoldable pub add_threads : Pool → Pool
unfolding spawn
add_threads p =
    if ltb_ℤ p.live_num p.qsize && ltb_ℤ p.live_num p.max_threads
    then (let (ws, live) = spawn p.op_num p.max_threads (pos 0) p.live_threads p.workers in
        record p { workers = ws; live_threads = live })
    else p

abbrev is_zero : ℤ → Bool
is_zero n = not (ltb_ℤ n (pos 0)) && not (ltb_ℤ (pos 0) n)

unfoldable pub destroy_threads : Pool → Pool
destroy_threads p =
    if (ltb_ℤ (p.busy_num +ℤ p.busy_num) p.live_num || (is_zero p.qsize && is_zero p.busy_num))
      && ltb_ℤ p.min_threads p.live_num
    then record p { exit_threads = min_ℤ p.op_num (p.live_num -ℤ p.min_threads) }
    else p

unfoldable pub shut_down : Pool → Pool
shut_down p = record p { is_shutdown = true }

-- A schedule is a list of actions; one that is not enabled changes nothing.
pub data Action : Type 0 where
  works : ℕ → Action
  submits : Option ℕ → Action
  enqueues : ℕ → Action
  looks counts adds destroys shuts : Action

unfoldable pub act : Action → Pool → Pool
act (works i) p = work (get_elem? p.workers i) i p
act (submits task) p = submit task p
act (enqueues task) p = enqueue task p
act looks p = observe_queue p
act counts p = observe_threads p
act adds p = add_threads p
act destroys p = destroy_threads p
act shuts p = shut_down p

unfoldable pub run : List Action → Pool → Pool
run [] p = p
run (x ∷ xs) p = run xs (act x p)
