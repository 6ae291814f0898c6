-- ===== src/Pthread/Invariant.antt =====
-- What one critical section of a thread of the pthread pool keeps: counters, slots, capacity, tasks.
use backend_common_component.Prelude.{
  ℕ, ◌+◌, ◌<◌, ◌≤◌, ◌≡◌, refl, false, List, [], ◌∷◌, arith, pos, length, count,
}
use backend_common_component.ThreadPool.Pool.{
  Worker, free, ready, blocked, leaving, got, running, get_elem?, is_free, set,
}
use backend_common_component.ThreadPool.Counts.{alive, busy, carries, total, total-set}
use backend_common_component.Pthread.Pool.{Pool, at_test, get_task, work}
use backend_common_component.Pthread.Counts.{present, thread_exit_counts}
use backend_common_component.Pthread.Group.{IsHeld}

-- The counters are those of the threads, there are `m_max_threads` slots, as many of them in use as
-- there are threads that have not ended, and until the shutdown the queue fits its capacity.
pub record IsCounted (p : Pool) : Type 0 where
  pub live_exact : p.live_threads ≡ pos (total alive p.threads)
  pub busy_exact : p.busy_threads ≡ pos (total busy p.threads)
  pub slots_exact : pos (length p.thread_work_group) ≡ p.max_threads
  pub slots_used :
      total present p.threads + count 0 p.thread_work_group ≡ length p.thread_work_group
  pub fits : p.is_shutdown ≡ false → length p.task_q ≤ p.capacity

-- Besides, the slots hold the ids of exactly these threads.
pub record IsValid (create : ℕ → ℕ) (p : Pool) : Type 0 where
  pub counted : IsCounted p
  pub held : IsHeld create p.thread_work_group p.threads

-- Where the task a is: queued, waiting in `submit`, with a thread, run or deleted.
abbrev pub places : ℕ → Pool → ℕ
places a p =
    count a p.task_q
    + count a p.pending
    + total (carries a) p.threads
    + count a p.finished
    + count a p.refused

pub record Kept (a : ℕ) (p q : Pool) : Type 0 where
  pub counted : IsCounted q
  pub same : places a q ≡ places a p

module _ (a i : ℕ) (p : Pool) (v : IsCounted p) where
  -- Thread i moves from w to w': how the sums over the threads change.
  record Moved (w w' : Worker) : Type 0 where
    alive_moved : total alive (set p.threads i w') + alive w ≡ total alive p.threads + alive w'
    busy_moved : total busy (set p.threads i w') + busy w ≡ total busy p.threads + busy w'
    tasks_moved :
        total (carries a) (set p.threads i w') + carries a w
        ≡ total (carries a) p.threads + carries a w'
    present_moved :
        total present (set p.threads i w') + present w ≡ total present p.threads + present w'

  moved : (w w' : Worker) → get_elem? p.threads i ≡ w → is_free w ≡ false → Moved w w'
  moved w w' e n = record {
    alive_moved = total-set alive p.threads i w' w e n;
    busy_moved = total-set busy p.threads i w' w e n;
    tasks_moved = total-set (carries a) p.threads i w' w e n;
    present_moved = total-set present p.threads i w' w e n;
  }

  at_test-Kept :
      (w : Worker) (q : List ℕ)
      → get_elem? p.threads i ≡ w
      → p.task_q ≡ q
      → is_free w ≡ false
      → (alive w ≡ 1) × (busy w ≡ 0) × (carries a w ≡ 0) × (present w ≡ 1)
      → Kept a p (at_test (get_task q) i p)
  unfolding at_test get_task
  at_test-Kept w [] e f n h = ground (arith, moved w leaving e n, moved w blocked e n)
  at_test-Kept w (task ∷ rest) e f n h = ground (arith, moved w leaving e n, moved w (got task) e n)

  module _ (create : ℕ → ℕ) (nonzero : (n : ℕ) → 0 < create n)
      (held : IsHeld create p.thread_work_group p.threads) where
    pub work-Kept : (w : Worker) → get_elem? p.threads i ≡ w → Kept a p (work create w i p)
    unfolding work
    work-Kept free e = record { counted = v; same = refl }
    work-Kept ready e = at_test-Kept ready p.task_q e refl refl (refl, refl, refl, refl)
    work-Kept blocked e = ground (
      arith,
      at_test-Kept blocked p.task_q e refl refl (refl, refl, refl, refl),
      moved blocked leaving e refl,
    )
    work-Kept leaving e = ground (
      arith,
      held i,
      nonzero i,
      moved leaving free e refl,
      thread_exit_counts (create i) p.thread_work_group,
    )
    work-Kept (got task) e = ground (arith, moved (got task) (running task) e refl)
    work-Kept (running task) e = ground (arith, moved (running task) ready e refl)
