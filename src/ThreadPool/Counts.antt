-- ===== src/ThreadPool/Counts.antt =====
-- Counting the workers of the thread pool by what they are at.
use backend_common_component.Prelude.{
  ℕ, zero, suc, ◌+◌, ◌≤◌, ◌≡◌, refl, false, List, [], ◌∷◌, arith, ℤ, pos, incr, ◌==◌, if◌then◌else◌,
  length,
}
use backend_common_component.ThreadPool.Pool.{
  Worker, free, ready, blocked, leaving, got, running, get_elem?, set, is_free, slots, spawn,
}

-- A thread that `m_live_threads` counts; one that `m_busy_threads` counts; one that has the task a.
abbrev pub alive : Worker → ℕ
alive free = 0
alive ready = 1
alive blocked = 1
alive leaving = 0
alive (got t) = 1
alive (running t) = 1

abbrev pub busy : Worker → ℕ
busy (running t) = 1
busy free = 0
busy ready = 0
busy blocked = 0
busy leaving = 0
busy (got t) = 0

abbrev pub carries : ℕ → Worker → ℕ
carries a (got t) = if t == a then 1 else 0
carries a (running t) = if t == a then 1 else 0
carries a free = 0
carries a ready = 0
carries a blocked = 0
carries a leaving = 0

abbrev pub total : (Worker → ℕ) → List Worker → ℕ
total f [] = 0
total f (w ∷ ws) = f w + total f ws

pub total-set :
    (f : Worker → ℕ) (ws : List Worker) (i : ℕ) (v w : Worker)
    → get_elem? ws i ≡ w
    → is_free w ≡ false
    → total f (set ws i v) + f w ≡ total f ws + f v
total-set f [] i v w e n = ground arith
total-set f (x ∷ ws) zero v w e n = ground arith
total-set f (x ∷ ws) (suc i) v w e n = omega (arith, total-set f ws i v w e n)

pub length-set : (ws : List Worker) (i : ℕ) (v : Worker) → length (set ws i v) ≡ length ws
length-set [] i v = refl
length-set (x ∷ ws) zero v = refl
length-set (x ∷ ws) (suc i) v = omega (arith, length-set ws i v)

pub alive-le-length : (ws : List Worker) → total alive ws ≤ length ws
alive-le-length [] = omega arith
alive-le-length (w ∷ ws) = ground (arith, alive-le-length ws)

pub slots_counts :
    (n k : ℕ)
    → k ≤ n
    → (total alive (slots n k) ≡ k) × (total busy (slots n k) ≡ 0) × (length (slots n k) ≡ n)
unfolding slots
slots_counts zero k h = ground arith
slots_counts (suc n) zero h = ground (arith, slots_counts n zero)
slots_counts (suc n) (suc k) h = ground (arith, slots_counts n k)

pub slots-carries : (a n k : ℕ) → total (carries a) (slots n k) ≡ 0
unfolding slots
slots-carries a zero k = refl
slots-carries a (suc n) zero = omega (arith, slots-carries a n zero)
slots-carries a (suc n) (suc k) = omega (arith, slots-carries a n k)

-- Starting threads keeps the slots and their tasks, and counts what it starts.
pub spawn_counts :
    (a : ℕ) (op_num max cnt live : ℤ) (ws : List Worker) (m : ℕ)
    → live ≡ pos (m + total alive ws)
    → let (ws', live') = spawn op_num max cnt live ws in
      (live' ≡ pos (m + total alive ws'))
      × (total busy ws' ≡ total busy ws)
      × (total (carries a) ws' ≡ total (carries a) ws)
      × (length ws' ≡ length ws)
unfolding spawn
spawn_counts a op_num max cnt live [] m e = ground arith
spawn_counts a op_num max cnt live (free ∷ ws) m e =
    ground (arith, spawn_counts a op_num max (incr cnt) (incr live) ws (suc m))
spawn_counts a op_num max cnt live (w ∷ ws) m e =
    ground (arith, spawn_counts a op_num max cnt live ws (m + alive w))
