-- ===== src/Pthread/Counts.antt =====
-- Counting the threads and the slots of the pthread pool through the loops that change them.
use backend_common_component.Prelude.{
  ℕ, zero, suc, ◌+◌, ◌<◌, ◌≤◌, ◌≡◌, List, [], ◌∷◌, ◌++◌, arith, ℤ, pos, incr, length, count,
}
use backend_common_component.ThreadPool.Pool.{Worker, free, ready, blocked, leaving, got, running}
use backend_common_component.ThreadPool.Counts.{alive, busy, carries, total}
use backend_common_component.Pthread.Pool.{assign, thread_exit, spawn, start}

-- A thread that has not ended.
abbrev pub present : Worker → ℕ
present free = 0
present ready = 1
present blocked = 1
present leaving = 1
present (got t) = 1
present (running t) = 1

pub total-snoc :
    (f : Worker → ℕ) (ws : List Worker) (w : Worker) → total f (ws ++ (w ∷ [])) ≡ total f ws + f w
total-snoc f [] w = omega arith
total-snoc f (x ∷ ws) w = omega (arith, total-snoc f ws w)

pub alive-le-present : (ws : List Worker) → total alive ws ≤ total present ws
alive-le-present [] = omega arith
alive-le-present (w ∷ ws) = ground (arith, alive-le-present ws)

pub count-le-length : (a : ℕ) (ts : List ℕ) → count a ts ≤ length ts
count-le-length a [] = omega arith
count-le-length a (t ∷ ts) = ground (arith, count-le-length a ts)

pub assign_counts : (n : ℕ) → (count 0 (assign n) ≡ n) × (length (assign n) ≡ n)
unfolding assign
assign_counts zero = ground arith
assign_counts (suc n) = ground (arith, assign_counts n)

-- What a loop keeps that turns free slots into threads. `before` and `after` are the lists of slots.
pub record Counted (a : ℕ) (before after : List ℕ) (old new : List Worker) : Type 0 where
  pub same_busy : total busy new ≡ total busy old
  pub same_tasks : total (carries a) new ≡ total (carries a) old
  pub same_length : length after ≡ length before
  pub same_slots : total present new + count 0 after ≡ total present old + count 0 before

module _ (create : ℕ → ℕ) (nonzero : (n : ℕ) → 0 < create n) where
  pub spawn-Counted :
      (a : ℕ) (op_num max cnt live : ℤ) (ts : List ℕ) (all : List Worker)
      → live ≡ pos (total alive all)
      → let g = spawn create op_num max cnt live ts all in
        Counted a ts g.group all g.all × (g.live ≡ pos (total alive g.all))
  unfolding spawn
  spawn-Counted a op_num max cnt live [] all e = ground arith
  spawn-Counted a op_num max cnt live (t ∷ ts) all e = ground (
    arith,
    nonzero (length all),
    total-snoc alive all ready,
    total-snoc busy all ready,
    total-snoc (carries a) all ready,
    total-snoc present all ready,
    spawn-Counted a op_num max (incr cnt) (incr live) ts (all ++ (ready ∷ [])),
    spawn-Counted a op_num max cnt live ts all,
  )

  pub start-Counted :
      (a n : ℕ) (ts : List ℕ) (all : List Worker)
      → n ≤ length ts
      → count 0 ts ≡ length ts
      → let (group, all') = start create n ts all in
        Counted a ts group all all' × (total alive all' ≡ total alive all + n)
  unfolding start
  start-Counted a n [] all h z = ground arith
  start-Counted a zero (t ∷ ts) all h z = ground arith
  start-Counted a (suc n) (t ∷ ts) all h z = ground (
    arith,
    nonzero (length all),
    count-le-length 0 ts,
    total-snoc alive all ready,
    total-snoc busy all ready,
    total-snoc (carries a) all ready,
    total-snoc present all ready,
    start-Counted a n ts (all ++ (ready ∷ [])),
  )

-- Giving up a slot: one more slot is free, and the id stands in one slot less.
pub thread_exit_counts :
    (tid : ℕ) (ts : List ℕ)
    → 0 < tid
    → 0 < count tid ts
    → (count 0 (thread_exit tid ts) ≡ count 0 ts + 1)
      × (count tid (thread_exit tid ts) + 1 ≡ count tid ts)
      × (length (thread_exit tid ts) ≡ length ts)
unfolding thread_exit
thread_exit_counts tid [] h c = absurd (omega arith)
thread_exit_counts tid (t ∷ ts) h c = ground (arith, thread_exit_counts tid ts)

pub thread_exit-other :
    (tid u : ℕ) (ts : List ℕ)
    → 0 < u
    → (u ≡ tid → 0 < 0)
    → count u (thread_exit tid ts) ≡ count u ts
unfolding thread_exit
thread_exit-other tid u [] h n = ground arith
thread_exit-other tid u (t ∷ ts) h n = ground (arith, thread_exit-other tid u ts h n)
