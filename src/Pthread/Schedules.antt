-- ===== src/Pthread/Schedules.antt =====
-- The pthread pool under every schedule.
use backend_common_component.Prelude.{
  ℕ, ◌+◌, ◌<◌, ◌≤◌, ◌≡◌, refl, none, some, List, [], ◌∷◌, arith, ℤ, pos, count-append, count-remove,
  ◌≤ℤ◌,
}
use backend_common_component.ThreadPool.Pool.{
  get_elem?, Action, works, submits, enqueues, looks, counts, adds, destroys, shuts,
}
use backend_common_component.ThreadPool.Counts.{total}
use backend_common_component.ThreadPool.Schedules.{submitted_by, submitted}
use backend_common_component.Pthread.Pool.{
  Pool, construct, assign, submit, enqueue, observe_queue, observe_threads, add_threads,
  destroy_threads, shut_down, act, run,
}
use backend_common_component.Pthread.Counts.{
  present, alive-le-present, assign_counts, spawn-Counted, start-Counted,
}
use backend_common_component.Pthread.Group.{start-IsHeld, assign-IsHeld}
use backend_common_component.Pthread.Invariant.{IsValid, places, work-Kept}
use backend_common_component.Pthread.Steps.{act-IsValid, run-IsValid}

module _ (create : ℕ → ℕ) (nonzero : (n : ℕ) → 0 < create n)
    (distinct : (i j : ℕ) → create i ≡ create j → i ≡ j) where
  pub construct-IsValid :
      (min max : ℕ) (op_num : ℤ) (cap : ℕ)
      → min ≤ max
      → IsValid create (construct create (pos min) (pos max) op_num cap)
  unfolding construct
  construct-IsValid min max op_num cap h =
      let (zeros, long) = assign_counts max in
      let started = start-Counted create nonzero 0 min (assign max) [] in
      record {
        counted = ground (arith, zeros, long, started);
        held =
            start-IsHeld create nonzero distinct min (assign max) (omega arith)
              (assign-IsHeld create nonzero max);
      }

  -- From the constructor with `0 ≤ min ≤ max` on, when the ids that `pthread_create` returns are
  -- distinct and not 0, every schedule keeps the counters of live and busy threads exact and the
  -- ids in the work group those of exactly the threads that have not ended, once each; and there are
  -- never more than `max` such threads.
  pub construct-run-IsValid :
      (min max : ℕ) (op_num : ℤ) (cap : ℕ) (xs : List Action)
      → min ≤ max
      → let p = run create xs (construct create (pos min) (pos max) op_num cap) in
        IsValid create p
        × (p.live_threads ≤ℤ p.max_threads)
        × (pos (total present p.threads) ≤ℤ p.max_threads)
  construct-run-IsValid min max op_num cap xs h =
      let first = construct create (pos min) (pos max) op_num cap in
      let v =
        run-IsValid create nonzero distinct xs first (construct-IsValid min max op_num cap h) in
      let p = run create xs first in
      (v, ground (arith, v.counted, alive-le-present p.threads), ground (arith, v.counted))

  places-act :
      (a : ℕ) (x : Action) (p : Pool)
      → IsValid create p
      → places a (act create x p) ≡ places a p + submitted_by a x
  unfolding act submit enqueue observe_queue observe_threads add_threads destroy_threads shut_down
  places-act a (works i) p v =
      omega
        (arith, (work-Kept a i p v.counted create nonzero v.held (get_elem? p.threads i) refl).same)
  places-act a (submits none) p v = omega arith
  places-act a (submits (some t)) p v = ground arith
  places-act a (enqueues t) p v =
      ground (arith, count-append a p.task_q (t ∷ []), count-remove t a p.pending)
  places-act a looks p v = omega arith
  places-act a counts p v = omega arith
  places-act a adds p v = ground (
    arith,
    spawn-Counted create nonzero a p.op_num p.max_threads (pos 0) p.live_threads p.thread_work_group
        p.threads v.counted.live_exact,
  )
  places-act a destroys p v = ground arith
  places-act a shuts p v = omega arith

  -- From a valid state no schedule loses or doubles a task, when thread ids are distinct and not 0: as often as it was submitted it is
  -- queued, held back in `submit`, with a thread, run to its end, or deleted because the pool was
  -- shut down.
  pub places-run :
      (a : ℕ) (xs : List Action) (p : Pool)
      → IsValid create p
      → places a (run create xs p) ≡ places a p + submitted a xs
  unfolding run
  places-run a [] p v = omega arith
  places-run a (x ∷ xs) p v = omega (
    arith,
    places-run a xs (act create x p) (act-IsValid create nonzero distinct x p v),
    places-act a x p v,
  )
