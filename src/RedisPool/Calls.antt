-- ===== src/RedisPool/Calls.antt =====
-- What single calls of the Redis pool do: lending, waiting statistics, and returns after `shutdown`.
use backend_common_component.Prelude.{
  ℕ, ◌≡◌, ◌↔◌, refl, Bool, true, false, none, some, List, [], ◌∷◌, arith, ℤ, pos, negsuc, length,
  ◌≤ℤ◌,
}
use backend_common_component.Objects.{ConnEntry, objects, objects-le-length}
use backend_common_component.RedisPool.Types.{pong, throws, connected, Attempt, Pool}
use backend_common_component.RedisPool.Factory.{factory_create}
use backend_common_component.RedisPool.Connections.{create_and_push}
use backend_common_component.RedisPool.Borrow.{returned, get_enter, get_wake, return_connection}
use backend_common_component.RedisPool.Recycle.{shutdown}
use backend_common_component.RedisPool.System.{System}
use backend_common_component.RedisPool.Invariant.{Working}

module _ (attempt : ℕ → Attempt) (clock : ℕ → ℕ) where
  -- In an initialised pool whose queue is not empty a call returns the connection that was queued
  -- first, at once, and creates none.
  get_enter-first :
      (p : Pool) (c t : ℕ) (q : List ConnEntry)
      → p.initialized ≡ true
      → p.conn_queue ≡ (some c, t) ∷ q
      → ((get_enter attempt clock p).0 ≡ returned (some c))
        × ((get_enter attempt clock p).1.conn_queue ≡ q)
        × ((get_enter attempt clock p).1.heap ≡ p.heap)
        × ((get_enter attempt clock p).1.current_size ≡ p.current_size)
  unfolding get_enter
  get_enter-first p c t q i e = ground arith

wake_null :
    (q : List ConnEntry) (p : Pool) (timed_out : Bool) (wait_ms : ℕ)
    → p.conn_queue ≡ q
    → objects q ≡ length q
    → ((get_wake timed_out wait_ms p).0 ≡ none) ↔ (q ≡ [])
unfolding get_wake
wake_null [] p timed_out wait_ms e n = ((λ _. refl), (λ _. ground arith))
wake_null ((none, t) ∷ q) p timed_out wait_ms e n = absurd (omega (arith, objects-le-length q))
wake_null ((some c, t) ∷ q) p timed_out wait_ms e n = ((λ f. ground arith), (λ f. cc))

-- In a pool whose state is as its invariant says, a call that has waited returns null exactly if the
-- queue is empty when it wakes, timed out or not.
get_wake-null :
    (attempt : ℕ → Attempt) (min max : ℤ) (s : System) (timed_out : Bool) (wait_ms : ℕ)
    → Working attempt min max s
    → ((get_wake timed_out wait_ms s.pool).0 ≡ none) ↔ (s.pool.conn_queue ≡ [])
get_wake-null attempt min max s timed_out wait_ms v =
    wake_null s.pool.conn_queue s.pool timed_out wait_ms refl v.bounded.sized.nonnull

module _ (attempt : ℕ → Attempt) (c now : ℕ) (p : Pool) where
  -- A healthy connection that its client gives back after `shutdown` is queued in the pool that is
  -- shut down; `m_current_size` does not count it, and the number of active connections falls to -1.
  shutdown-return_healthy :
      let p' = return_connection attempt (some c) pong now (shutdown p) in
      (p'.conn_queue ≡ (some c, now) ∷ [])
      × (p'.current_size ≡ pos 0)
      × (p'.initialized ≡ false)
      × (p'.stats.active_connections ≡ negsuc 0)
  unfolding return_connection shutdown
  shutdown-return_healthy = (refl, refl, refl, refl)

  -- A connection that its client gives back after `shutdown`, and that fails its PING, makes the pool
  -- that is shut down create a new connection and queue it, if the minimal size is not negative and
  -- the server accepts the connection.
  shutdown-return_broken :
      pos 0 ≤ℤ p.min_size
      → attempt (shutdown p).heap.tries ≡ connected pong
      → let p' = return_connection attempt (some c) throws now (shutdown p) in
        (p'.conn_queue ≡ (some (shutdown p).heap.tries, now) ∷ [])
        × (p'.current_size ≡ pos 0)
        × (p'.initialized ≡ false)
  unfolding return_connection shutdown create_and_push factory_create
  shutdown-return_broken m a = ground arith
