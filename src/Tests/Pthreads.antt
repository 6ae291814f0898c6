-- ===== src/Tests/Pthreads.antt =====
-- The pthread pool on short schedules. Thread n has the id n + 1.
use backend_common_component.Prelude.{
  ℕ, suc, ◌+◌, ◌<◌, ◌≡◌, refl, some, List, [], ◌∷◌, arith, pos, ◌≤ℤ◌, length,
}
use backend_common_component.ThreadPool.Pool.{
  leaving, Action, works, submits, enqueues, looks, counts, adds, shuts,
}
use backend_common_component.ThreadPool.Counts.{total}
use backend_common_component.ThreadPool.Schedules.{submitted}
use backend_common_component.Pthread.Pool.{
  Pool, assign, start, construct, spawn, at_test, get_task, work, submit, enqueue, observe_queue,
  observe_threads, add_threads, shut_down, act, run,
}
use backend_common_component.Pthread.Counts.{present}
use backend_common_component.Pthread.Invariant.{IsValid, places}
use backend_common_component.Pthread.Schedules.{
  construct-IsValid, construct-run-IsValid, places-run,
}

nonzero : (n : ℕ) → 0 < suc n
nonzero n = omega arith

distinct : (i j : ℕ) → suc i ≡ suc j → i ≡ j
distinct i j e = omega arith

abbrev fresh_pool : Pool
fresh_pool = construct suc (pos 1) (pos 2) (pos 1) 3

-- Two tasks are queued, the manager starts a second thread, both tasks are taken, a third is queued
-- when the pool is shut down.
abbrev growing : List Action
growing =
    submits (some 5)
    ∷ enqueues 5
    ∷ submits (some 6)
    ∷ enqueues 6
    ∷ looks
    ∷ counts
    ∷ adds
    ∷ works 0
    ∷ works 1
    ∷ works 1
    ∷ works 1
    ∷ submits (some 7)
    ∷ enqueues 7
    ∷ shuts
    ∷ []

abbrev grown_pool : Pool
grown_pool = run suc growing fresh_pool

grown_pool_has :
    (grown_pool.thread_work_group ≡ 1 ∷ 2 ∷ [])
    × (grown_pool.finished ≡ 6 ∷ [])
    × (grown_pool.task_q ≡ 7 ∷ [])
    × (length grown_pool.threads ≡ 2)
unfolding run act work submit enqueue construct start assign spawn observe_queue observe_threads
    add_threads at_test get_task shut_down
grown_pool_has = (refl, refl, refl, refl)

construct-run-IsValid_example :
    IsValid suc grown_pool
    × (grown_pool.live_threads ≤ℤ grown_pool.max_threads)
    × (pos (total present grown_pool.threads) ≤ℤ grown_pool.max_threads)
construct-run-IsValid_example =
    construct-run-IsValid suc nonzero distinct 1 2 (pos 1) 3 growing (omega arith)

fresh-IsValid : IsValid suc fresh_pool
fresh-IsValid = construct-IsValid suc nonzero distinct 1 2 (pos 1) 3 (omega arith)

places-run_example : places 6 grown_pool ≡ places 6 fresh_pool + submitted 6 growing
places-run_example = places-run suc nonzero distinct 6 growing fresh_pool fresh-IsValid

-- The destructor's loop ends while a thread still has to lock `m_pool_mutex` in `thread_exit_`.
destroyed_early :
    let p = run suc (shuts ∷ works 0 ∷ []) fresh_pool in
    (p.live_threads ≡ pos 0) × (p.threads ≡ leaving ∷ [])
unfolding run act work construct start assign at_test get_task shut_down
destroyed_early = (refl, refl)
