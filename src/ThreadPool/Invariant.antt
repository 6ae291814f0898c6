-- ===== src/ThreadPool/Invariant.antt =====
-- What every schedule of the thread pool keeps: its counters, its capacity, and its tasks.
use backend_common_component.Prelude.{
  ℕ, ◌+◌, ◌≤◌, ◌≡◌, refl, false, List, [], ◌∷◌, arith, pos, length, count,
}
use backend_common_component.ThreadPool.Pool.{
  Worker, free, ready, blocked, leaving, got, running, Pool, get_elem?, is_free, at_test, work,
}
use backend_common_component.ThreadPool.Counts.{alive, busy, carries, total, total-set, length-set}

-- The counters are those of the threads, there are as many slots as `m_max_threads` says, and until
-- the shutdown the queue fits its capacity.
pub record IsValid (p : Pool) : Type 0 where
  pub live_exact : p.live_threads ≡ pos (total alive p.workers)
  pub busy_exact : p.busy_threads ≡ pos (total busy p.workers)
  pub slots_exact : pos (length p.workers) ≡ p.max_threads
  pub fits : p.is_shutdown ≡ false → length p.task_q ≤ p.capacity

-- Where the task a is: queued, waiting in `submit`, with a worker, run or deleted.
abbrev pub places : ℕ → Pool → ℕ
places a p =
    count a p.task_q
    + count a p.pending
    + total (carries a) p.workers
    + count a p.finished
    + count a p.refused

-- What one critical section of a worker does to the counters and to a task.
pub record Kept (a : ℕ) (p q : Pool) : Type 0 where
  pub valid : IsValid q
  pub same : places a q ≡ places a p

module _ (a i : ℕ) (p : Pool) (v : IsValid p) where
  at_test-Kept :
      (w : Worker) (q : List ℕ)
      → get_elem? p.workers i ≡ w
      → p.task_q ≡ q
      → is_free w ≡ false
      → alive w ≡ 1
      → busy w ≡ 0
      → carries a w ≡ 0
      → Kept a p (at_test q i p)
  unfolding at_test
  at_test-Kept w [] e f n l b c = ground (
    arith,
    total-set alive p.workers i leaving w e n,
    total-set busy p.workers i leaving w e n,
    total-set (carries a) p.workers i leaving w e n,
    length-set p.workers i leaving,
    total-set alive p.workers i blocked w e n,
    total-set busy p.workers i blocked w e n,
    total-set (carries a) p.workers i blocked w e n,
    length-set p.workers i blocked,
  )
  at_test-Kept w (task ∷ rest) e f n l b c = ground (
    arith,
    total-set alive p.workers i leaving w e n,
    total-set busy p.workers i leaving w e n,
    total-set (carries a) p.workers i leaving w e n,
    length-set p.workers i leaving,
    total-set alive p.workers i (got task) w e n,
    total-set busy p.workers i (got task) w e n,
    total-set (carries a) p.workers i (got task) w e n,
    length-set p.workers i (got task),
  )

  -- A change of one slot that leaves all lists but `finished` alone.
  pub work-Kept : (w : Worker) → get_elem? p.workers i ≡ w → Kept a p (work w i p)
  unfolding work
  work-Kept free e = record { valid = v; same = refl }
  work-Kept ready e = at_test-Kept ready p.task_q e refl refl refl refl refl
  work-Kept blocked e = ground (
    arith,
    at_test-Kept blocked p.task_q e refl refl refl refl refl,
    total-set alive p.workers i leaving blocked e refl,
    total-set busy p.workers i leaving blocked e refl,
    total-set (carries a) p.workers i leaving blocked e refl,
    length-set p.workers i leaving,
  )
  work-Kept leaving e = ground (
    arith,
    total-set alive p.workers i free leaving e refl,
    total-set busy p.workers i free leaving e refl,
    total-set (carries a) p.workers i free leaving e refl,
    length-set p.workers i free,
  )
  work-Kept (got task) e = ground (
    arith,
    total-set alive p.workers i (running task) (got task) e refl,
    total-set busy p.workers i (running task) (got task) e refl,
    total-set (carries a) p.workers i (running task) (got task) e refl,
    length-set p.workers i (running task),
  )
  work-Kept (running task) e = ground (
    arith,
    total-set alive p.workers i ready (running task) e refl,
    total-set busy p.workers i ready (running task) e refl,
    total-set (carries a) p.workers i ready (running task) e refl,
    length-set p.workers i ready,
  )
