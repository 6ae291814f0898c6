-- ===== src/Inventory/Rollback.antt =====
-- `rollback_redis`: when it puts the quantity back exactly once.
use backend_common_component.Prelude.{
  ℕ, zero, suc, ◌≡◌, refl, Bool, true, false, Option, none, arith, ℤ,
}
use backend_common_component.Inventory.Store.{Error}
use backend_common_component.Inventory.Service.{
  attempt, unless_done, Incr, no_guard, incr_throws, incr_done, incrby, rollback_redis,
}

-- Whether a rollback with the attempts that are left adds the quantity exactly once: an attempt
-- succeeds, and none before it threw after it took effect.
abbrev pub settles_by : Incr → Bool → Bool
settles_by no_guard rest = rest
settles_by (incr_throws true) rest = false
settles_by (incr_throws false) rest = rest
settles_by incr_done rest = true

abbrev pub settles : ℕ → (ℕ → Incr) → Bool
settles zero incr_at = false
settles (suc k) incr_at = settles_by (incr_at 0) (settles k (λ i. incr_at (suc i)))

rollback_step :
    (x : Incr) (rest : Bool) (qty : ℤ) (key : Option ℤ) (r : Option ℤ → Option Error × Option ℤ)
    → (rest ≡ true → r key ≡ (none, incrby qty key))
    → settles_by x rest ≡ true
    → unless_done x (attempt x qty key) (r (attempt x qty key)) ≡ (none, incrby qty key)
rollback_step no_guard rest qty key r f h = f h
rollback_step (incr_throws true) rest qty key r f h = absurd (ground (arith, h))
rollback_step (incr_throws false) rest qty key r f h = f h
rollback_step incr_done rest qty key r f h = refl

pub rollback-settles :
    (k : ℕ) (incr_at : ℕ → Incr) (qty : ℤ) (key : Option ℤ)
    → settles k incr_at ≡ true
    → rollback_redis k incr_at qty key ≡ (none, incrby qty key)
unfolding rollback_redis
rollback-settles zero incr_at qty key h = absurd (ground (arith, h))
rollback-settles (suc k) incr_at qty key h =
    rollback_step (incr_at 0) (settles k (λ i. incr_at (suc i))) qty key
      (rollback_redis k (λ i. incr_at (suc i)) qty)
      (rollback-settles k (λ i. incr_at (suc i)) qty key) h
