-- ===== src/Tests/Threads.antt =====
-- The thread pool on short schedules.
use backend_common_component.Prelude.{◌+◌, ◌≡◌, refl, true, some, List, [], ◌∷◌, arith, pos, ◌≤ℤ◌}
use backend_common_component.ThreadPool.Pool.{
  Pool, construct, spawn, submit, shut_down, enqueue, destroy_threads, observe_queue,
  observe_threads, add_threads, work, Action, works, submits, enqueues, looks, counts, adds,
  destroys, shuts, act, run,
}
use backend_common_component.ThreadPool.Invariant.{IsValid, places}
use backend_common_component.ThreadPool.Schedules.{construct-run, run-places, submitted, taken}
use backend_common_component.ThreadPool.Shutdown.{shutdown_abandons}

abbrev small : Pool
small = construct (pos 1) (pos 2) (pos 1) 3

-- One task is run to its end, a second is queued when the pool is shut down.
abbrev busy_day : List Action
busy_day =
    submits (some 5)
    ∷ enqueues 5
    ∷ works 0
    ∷ works 0
    ∷ works 0
    ∷ submits (some 6)
    ∷ enqueues 6
    ∷ shuts
    ∷ submits (some 9)
    ∷ []

busy_day_ends :
    ((run busy_day small).finished ≡ 5 ∷ [])
    × ((run busy_day small).task_q ≡ 6 ∷ [])
    × ((run busy_day small).refused ≡ 9 ∷ [])
unfolding run act work construct submit shut_down enqueue
busy_day_ends = (refl, refl, refl)

construct-run_example :
    IsValid (run busy_day small)
    × ((run busy_day small).live_threads ≤ℤ (run busy_day small).max_threads)
    × (pos 0 ≤ℤ (run busy_day small).live_threads)
construct-run_example = construct-run 1 2 (pos 1) 3 busy_day (omega arith)

small-IsValid : IsValid small
unfolding run
small-IsValid = (construct-run 1 2 (pos 1) 3 [] (omega arith)).0

run-places_example : places 6 (run busy_day small) ≡ places 6 small + submitted 6 busy_day
run-places_example = run-places 6 busy_day small small-IsValid

day-IsValid : IsValid (run busy_day small)
day-IsValid = (construct-run 1 2 (pos 1) 3 busy_day (omega arith)).0

day-shut : (run busy_day small).is_shutdown ≡ true
unfolding run act work construct submit shut_down
day-shut = refl

shutdown_abandons_example :
    taken 6 (run (works 0 ∷ works 0 ∷ []) (run busy_day small)) ≡ taken 6 (run busy_day small)
shutdown_abandons_example =
    shutdown_abandons 6 (works 0 ∷ works 0 ∷ []) (run busy_day small) day-IsValid day-shut

-- The manager acts on a count of live threads that is no longer true, and the pool of at least one
-- thread is left with none.
abbrev stale : List Action
stale =
    submits (some 1)
    ∷ enqueues 1
    ∷ submits (some 2)
    ∷ enqueues 2
    ∷ looks
    ∷ counts
    ∷ adds
    ∷ works 0
    ∷ works 0
    ∷ works 0
    ∷ works 1
    ∷ works 1
    ∷ works 1
    ∷ works 0
    ∷ works 1
    ∷ looks
    ∷ counts
    ∷ destroys
    ∷ looks
    ∷ counts
    ∷ works 0
    ∷ destroys
    ∷ works 1
    ∷ []

stale_ends : (run stale small).live_threads ≡ pos 0
unfolding run act work construct spawn destroy_threads observe_queue observe_threads add_threads
    enqueue submit
stale_ends = refl
