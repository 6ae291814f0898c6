-- ===== src/Pthread/Steps.antt =====
-- Every action on the pthread pool keeps its invariant.
use backend_common_component.Prelude.{
  ℕ, ◌<◌, ◌≡◌, refl, none, some, List, [], ◌∷◌, arith, pos, length-append,
}
use backend_common_component.ThreadPool.Pool.{
  Worker, free, ready, blocked, leaving, got, running, get_elem?, Action, works, submits, enqueues,
  looks, counts, adds, destroys, shuts,
}
use backend_common_component.Pthread.Pool.{
  Pool, work, at_test, get_task, submit, enqueue, observe_queue, observe_threads, add_threads,
  destroy_threads, shut_down, act, run,
}
use backend_common_component.Pthread.Counts.{present, spawn-Counted}
use backend_common_component.Pthread.Group.{IsHeld, set-IsHeld, leave-IsHeld, spawn-IsHeld}
use backend_common_component.Pthread.Invariant.{IsCounted, IsValid, work-Kept}

module _ (create : ℕ → ℕ) (nonzero : (n : ℕ) → 0 < create n)
    (distinct : (i j : ℕ) → create i ≡ create j → i ≡ j) where
  abbrev Held : Pool → Type 0
  Held p = IsHeld create p.thread_work_group p.threads

  at_test-Held :
      (i : ℕ) (p : Pool) (q : List ℕ)
      → Held p
      → present (get_elem? p.threads i) ≡ 1
      → Held (at_test (get_task q) i p)
  unfolding at_test get_task
  at_test-Held i p [] h e j = ground (
    arith,
    set-IsHeld create nonzero distinct p.thread_work_group p.threads i leaving h e refl j,
    set-IsHeld create nonzero distinct p.thread_work_group p.threads i blocked h e refl j,
  )
  at_test-Held i p (task ∷ q) h e j = ground (
    arith,
    set-IsHeld create nonzero distinct p.thread_work_group p.threads i leaving h e refl j,
    set-IsHeld create nonzero distinct p.thread_work_group p.threads i (got task) h e refl j,
  )

  work-Held :
      (i : ℕ) (p : Pool) (w : Worker)
      → get_elem? p.threads i ≡ w
      → Held p
      → Held (work create w i p)
  unfolding work
  work-Held i p free e h j = h j
  work-Held i p ready e h j = at_test-Held i p p.task_q h (ground (arith, e)) j
  work-Held i p blocked e h j = ground (
    arith,
    at_test-Held i p p.task_q h (ground (arith, e)) j,
    set-IsHeld create nonzero distinct p.thread_work_group p.threads i leaving h (ground (arith, e))
        refl j,
  )
  work-Held i p leaving e h j =
      leave-IsHeld create nonzero distinct p.thread_work_group p.threads i h (ground (arith, e)) j
  work-Held i p (got task) e h j =
      set-IsHeld create nonzero distinct p.thread_work_group p.threads i (running task) h
        (ground (arith, e)) refl j
  work-Held i p (running task) e h j =
      set-IsHeld create nonzero distinct p.thread_work_group p.threads i ready h (ground (arith, e))
        refl j

  act-Held : (x : Action) (p : Pool) → Held p → Held (act create x p)
  unfolding act submit enqueue observe_queue observe_threads add_threads destroy_threads shut_down
  act-Held (works i) p h j = work-Held i p (get_elem? p.threads i) refl h j
  act-Held (submits none) p h j = h j
  act-Held (submits (some t)) p h j = ground (arith, h j)
  act-Held (enqueues t) p h j = ground (arith, h j)
  act-Held looks p h j = h j
  act-Held counts p h j = h j
  act-Held adds p h j = ground (
    arith,
    h j,
    spawn-IsHeld create nonzero distinct p.op_num p.max_threads (pos 0) p.live_threads
        p.thread_work_group p.threads h j,
  )
  act-Held destroys p h j = ground (arith, h j)
  act-Held shuts p h j = h j

  act-IsCounted : (x : Action) (p : Pool) → IsValid create p → IsCounted (act create x p)
  unfolding act submit enqueue observe_queue observe_threads add_threads destroy_threads shut_down
  act-IsCounted (works i) p v =
      (work-Kept 0 i p v.counted create nonzero v.held (get_elem? p.threads i) refl).counted
  act-IsCounted (submits none) p v = v.counted
  act-IsCounted (submits (some t)) p v = ground (arith, v.counted)
  act-IsCounted (enqueues t) p v = ground (arith, v.counted, length-append p.task_q (t ∷ []))
  act-IsCounted looks p v = ground (arith, v.counted)
  act-IsCounted counts p v = ground (arith, v.counted)
  act-IsCounted adds p v = ground (
    arith,
    arith,
    v.counted,
    spawn-Counted create nonzero 0 p.op_num p.max_threads (pos 0) p.live_threads p.thread_work_group
        p.threads v.counted.live_exact,
  )
  act-IsCounted destroys p v = ground (arith, v.counted)
  act-IsCounted shuts p v = ground (arith, v.counted)

  pub act-IsValid : (x : Action) (p : Pool) → IsValid create p → IsValid create (act create x p)
  act-IsValid x p v = record { counted = act-IsCounted x p v; held = act-Held x p v.held }

  pub run-IsValid :
      (xs : List Action) (p : Pool) → IsValid create p → IsValid create (run create xs p)
  unfolding run
  run-IsValid [] p v = v
  run-IsValid (x ∷ xs) p v = run-IsValid xs (act create x p) (act-IsValid x p v)
