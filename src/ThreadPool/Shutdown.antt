-- ===== src/ThreadPool/Shutdown.antt =====
-- The thread pool after its destructor has set `m_is_shutdown`.
use backend_common_component.Prelude.{
  ℕ, ◌≡◌, refl, true, ◌∙◌, none, some, List, [], ◌∷◌, arith, pos,
}
use backend_common_component.ThreadPool.Pool.{
  Worker, free, ready, blocked, leaving, got, running, Pool, get_elem?, work, submit, enqueue,
  observe_queue, observe_threads, add_threads, destroy_threads, shut_down, Action, works, submits,
  enqueues, looks, counts, adds, destroys, shuts, act, run,
}
use backend_common_component.ThreadPool.Counts.{carries, total-set, spawn_counts}
use backend_common_component.ThreadPool.Invariant.{IsValid}
use backend_common_component.ThreadPool.Schedules.{taken, act-IsValid}

-- What a step leaves as it is once the pool is shut down.
abbrev Stays : ℕ → Pool → Pool → Type 0
Stays a p q = (q.is_shutdown ≡ true) × (taken a q ≡ taken a p)

work-Stays :
    (a i : ℕ) (p : Pool) (w : Worker)
    → get_elem? p.workers i ≡ w
    → p.is_shutdown ≡ true
    → Stays a p (work w i p)
unfolding work
work-Stays a i p free e s = (s, refl)
work-Stays a i p ready e s = ground (arith, total-set (carries a) p.workers i leaving ready e refl)
work-Stays a i p blocked e s =
    ground (arith, total-set (carries a) p.workers i leaving blocked e refl)
work-Stays a i p leaving e s = ground (arith, total-set (carries a) p.workers i free leaving e refl)
work-Stays a i p (got t) e s =
    ground (arith, total-set (carries a) p.workers i (running t) (got t) e refl)
work-Stays a i p (running t) e s =
    ground (arith, total-set (carries a) p.workers i ready (running t) e refl)

act-Stays : (a : ℕ) (x : Action) (p : Pool) → IsValid p → p.is_shutdown ≡ true → Stays a p (act x p)
unfolding act submit enqueue observe_queue observe_threads add_threads destroy_threads shut_down
act-Stays a (works i) p v s = work-Stays a i p (get_elem? p.workers i) refl s
act-Stays a (submits none) p v s = (s, refl)
act-Stays a (submits (some t)) p v s = ground arith
act-Stays a (enqueues t) p v s = ground arith
act-Stays a looks p v s = ground arith
act-Stays a counts p v s = ground arith
act-Stays a adds p v s =
    ground (
      arith,
      v.live_exact,
      spawn_counts a p.op_num p.max_threads (pos 0) p.live_threads p.workers 0,
    )
act-Stays a destroys p v s = ground arith
act-Stays a shuts p v s = ground arith

-- Once a pool in a valid state is shut down no worker takes a task any more, on any schedule: of the
-- tasks that are queued or held back in `submit` at that moment none is ever run.
pub shutdown_abandons :
    (a : ℕ) (xs : List Action) (p : Pool)
    → IsValid p
    → p.is_shutdown ≡ true
    → taken a (run xs p) ≡ taken a p
unfolding run
shutdown_abandons a [] p v s = refl
shutdown_abandons a (x ∷ xs) p v s =
    let (s', same) = act-Stays a x p v s in
    shutdown_abandons a xs (act x p) (act-IsValid x p v) s' ∙ same
