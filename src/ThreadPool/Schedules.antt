-- ===== src/ThreadPool/Schedules.antt =====
-- The thread pool under every schedule.
use backend_common_component.Prelude.{
  ℕ, ◌+◌, ◌≤◌, ◌≡◌, refl, none, some, List, [], ◌∷◌, arith, ℤ, pos, ◌==◌, if◌then◌else◌, count,
  count-append, count-remove, length-append, ◌≤ℤ◌,
}
use backend_common_component.ThreadPool.Pool.{
  Pool, get_elem?, construct, submit, enqueue, observe_queue, observe_threads, add_threads,
  destroy_threads, shut_down, Action, works, submits, enqueues, looks, counts, adds, destroys,
  shuts, act, run,
}
use backend_common_component.ThreadPool.Counts.{
  carries, total, alive-le-length, slots_counts, spawn_counts,
}
use backend_common_component.ThreadPool.Invariant.{IsValid, places, work-Kept}

-- How often an action, or a schedule, submits the task a.
abbrev pub submitted_by : ℕ → Action → ℕ
submitted_by a (submits (some t)) = if t == a then 1 else 0
submitted_by a (submits none) = 0
submitted_by a (works i) = 0
submitted_by a (enqueues t) = 0
submitted_by a looks = 0
submitted_by a counts = 0
submitted_by a adds = 0
submitted_by a destroys = 0
submitted_by a shuts = 0

abbrev pub submitted : ℕ → List Action → ℕ
submitted a [] = 0
submitted a (x ∷ xs) = submitted_by a x + submitted a xs

pub act-IsValid : (x : Action) (p : Pool) → IsValid p → IsValid (act x p)
unfolding act submit enqueue observe_queue observe_threads add_threads destroy_threads shut_down
act-IsValid (works i) p v = (work-Kept 0 i p v (get_elem? p.workers i) refl).valid
act-IsValid (submits none) p v = v
act-IsValid (submits (some t)) p v = ground arith
act-IsValid (enqueues t) p v = ground (arith, length-append p.task_q (t ∷ []))
act-IsValid looks p v = ground arith
act-IsValid counts p v = ground arith
act-IsValid adds p v =
    ground (arith, spawn_counts 0 p.op_num p.max_threads (pos 0) p.live_threads p.workers 0)
act-IsValid destroys p v = ground arith
act-IsValid shuts p v = ground arith

act-places :
    (a : ℕ) (x : Action) (p : Pool) → IsValid p → places a (act x p) ≡ places a p + submitted_by a x
unfolding act submit enqueue observe_queue observe_threads add_threads destroy_threads shut_down
act-places a (works i) p v = omega (arith, (work-Kept a i p v (get_elem? p.workers i) refl).same)
act-places a (submits none) p v = omega arith
act-places a (submits (some t)) p v = ground arith
act-places a (enqueues t) p v =
    ground (arith, count-append a p.task_q (t ∷ []), count-remove t a p.pending)
act-places a looks p v = omega arith
act-places a counts p v = omega arith
act-places a adds p v =
    ground (
      arith,
      v.live_exact,
      spawn_counts a p.op_num p.max_threads (pos 0) p.live_threads p.workers 0,
    )
act-places a destroys p v = ground arith
act-places a shuts p v = omega arith

-- Every schedule keeps the counters exact: `m_live_threads` is the number of threads that have not
-- begun to exit, `m_busy_threads` the number that run a task, there are `m_max_threads` slots, and
-- until the shutdown the queue holds at most its capacity.
pub run-IsValid : (xs : List Action) (p : Pool) → IsValid p → IsValid (run xs p)
unfolding run
run-IsValid [] p v = v
run-IsValid (x ∷ xs) p v = run-IsValid xs (act x p) (act-IsValid x p v)

pub IsValid-live : (p : Pool) → IsValid p → p.live_threads ≤ℤ p.max_threads
IsValid-live p v = ground (arith, v.live_exact, v.slots_exact, alive-le-length p.workers)

-- From the constructor with `0 ≤ min ≤ max` on, every schedule keeps the counters exact, with at
-- most `max` live threads and never a negative number of them.
pub construct-run :
    (min max : ℕ) (op_num : ℤ) (cap : ℕ) (xs : List Action)
    → min ≤ max
    → let p = run xs (construct (pos min) (pos max) op_num cap) in
      IsValid p × (p.live_threads ≤ℤ p.max_threads) × (pos 0 ≤ℤ p.live_threads)
unfolding construct
construct-run min max op_num cap xs h =
    let start = construct (pos min) (pos max) op_num cap in
    let v = run-IsValid xs start (ground (arith, slots_counts max min h)) in
    (v, IsValid-live (run xs start) v, ground (arith, v.live_exact))

-- From a valid state no schedule loses or doubles a task: as often as it was submitted it is in the queue, held back in
-- `submit`, with a worker, run to its end, or deleted because the pool was shut down.
pub run-places :
    (a : ℕ) (xs : List Action) (p : Pool)
    → IsValid p
    → places a (run xs p) ≡ places a p + submitted a xs
unfolding run
run-places a [] p v = omega arith
run-places a (x ∷ xs) p v =
    omega (arith, run-places a xs (act x p) (act-IsValid x p v), act-places a x p v)

-- Tasks that a worker has or has run.
abbrev pub taken : ℕ → Pool → ℕ
taken a p = total (carries a) p.workers + count a p.finished
