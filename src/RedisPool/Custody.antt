-- ===== src/RedisPool/Custody.antt =====
-- The ownership of connection objects along the steps and the whole life of the Redis pool.
use backend_common_component.Prelude.{
  ℕ, ◌<◌, ◌≡◌, refl, Bool, some, List, [], ◌∷◌, arith, count, remove, length, rounds, pos, ◌-ℤ◌,
  decr,
}
use backend_common_component.Objects.{
  ConnEntry, Owns, drain-Owns, hand_in-Owns, keep, lend-Owns, to_back-Owns,
}
use backend_common_component.RedisPool.Types.{PoolStatistics, Attempt, Pool}
use backend_common_component.RedisPool.Borrow.{
  get_enter, get_wake, enter_wait, take_front, requeue, note_return, expand_if_needed, replenish,
  note_wait,
}
use backend_common_component.RedisPool.Connections.{destroy_connection}
use backend_common_component.RedisPool.Recycle.{recycle_idle_connections, shutdown}
use backend_common_component.RedisPool.System.{
  System, Step, enter, wake, give_back, discard, replace, recycle, Life, work, start, stop, Star,
  here, next, after_enter, after_wake,
}
use backend_common_component.RedisPool.LoopRule.{recycle_loop_inv}
use backend_common_component.RedisPool.Ownership.{
  create_and_push-Owns, init-Owns, expand_if_needed-Owns, destroy-Owns,
}

abbrev pub PoolOwns : List ℕ → Pool → Type 0
PoolOwns lent p = Owns lent p.conn_queue p.heap

abbrev pub SystemOwns : System → Type 0
SystemOwns s = PoolOwns s.lent s.pool

take_front-Owns :
    (lent : List ℕ) (q : List ConnEntry) (p : Pool)
    → p.conn_queue ≡ q
    → PoolOwns lent p
    → let (c, p') = take_front q p in PoolOwns (keep c lent) p'
unfolding take_front
take_front-Owns lent [] p e v = v
take_front-Owns lent ((c, t) ∷ q) p e v = lend-Owns lent c t q p.heap (rw e at v)

enter_wait-Owns :
    (s : System) (q : List ConnEntry) (p : Pool)
    → p.conn_queue ≡ q
    → PoolOwns s.lent p
    → SystemOwns (after_enter s (enter_wait q p))
unfolding enter_wait
enter_wait-Owns s [] p e v = v
enter_wait-Owns s (x ∷ q) p e v = take_front-Owns s.lent (x ∷ q) p e v

recycle-Owns :
    (lent : List ℕ) (now : ℕ) (p : Pool)
    → PoolOwns lent p
    → PoolOwns lent (recycle_idle_connections now p)
unfolding recycle_idle_connections
recycle-Owns lent now p v =
    let kept =
      recycle_loop_inv (PoolOwns lent)
        (λ c t q r e w. destroy-Owns lent c t q (record r { conn_queue = q }) refl (rw e at w))
        (λ x q r e w. to_back-Owns lent x q r.heap (rw e at w)) (length p.conn_queue) 0
        (rounds (pos (length p.conn_queue) -ℤ p.min_size)) now p p.conn_queue refl v in
    ground (arith, kept)

module _ (attempt : ℕ → Attempt) where
  enter-Owns :
      (clock : ℕ → ℕ) (s : System)
      → SystemOwns s
      → SystemOwns (after_enter s (get_enter attempt clock s.pool))
  unfolding get_enter
  enter-Owns clock s v =
      let p = expand_if_needed attempt clock s.pool in
      ground (
        arith,
        enter_wait-Owns s p.conn_queue p refl (expand_if_needed-Owns attempt s.lent clock s.pool v),
      )

  wake-Owns :
      (timed_out : Bool) (wait_ms : ℕ) (s : System)
      → SystemOwns s
      → SystemOwns (after_wake s (get_wake timed_out wait_ms s.pool))
  unfolding get_wake
  wake-Owns timed_out wait_ms s v =
      let st : PoolStatistics = record (s.pool.stats) {
        pending_waiters = decr s.pool.stats.pending_waiters;
      } in
      ground (
        arith,
        take_front-Owns s.lent s.pool.conn_queue (record (s.pool) { stats = note_wait wait_ms st })
            refl v,
      )

  requeue-Owns :
      (lent : List ℕ) (c now : ℕ) (p : Pool)
      → 0 < count c lent
      → PoolOwns lent p
      → PoolOwns (remove c lent) (requeue c now p)
  unfolding requeue
  requeue-Owns lent c now p l v =
      to_back-Owns (remove c lent) (some c, now) p.conn_queue p.heap
        (hand_in-Owns lent c now p.conn_queue p.heap l v)

  discard-Owns :
      (lent : List ℕ) (c : ℕ) (p : Pool)
      → 0 < count c lent
      → PoolOwns lent p
      → PoolOwns (remove c lent) (destroy_connection (some c) p)
  unfolding destroy_connection
  discard-Owns lent c p l v =
      destroy-Owns (remove c lent) (some c) 0 p.conn_queue p refl
        (hand_in-Owns lent c 0 p.conn_queue p.heap l v)

  replenish-Owns :
      (lent : List ℕ) (now : ℕ) (p : Pool)
      → PoolOwns lent p
      → PoolOwns lent (replenish attempt now p)
  unfolding replenish note_return
  replenish-Owns lent now p v =
      ground (arith, v, create_and_push-Owns attempt lent now (note_return p) v)

  pub Step-Owns : {s t : System} → Step attempt s t → SystemOwns s → SystemOwns t
  Step-Owns {s} (enter clock) v = enter-Owns clock s v
  Step-Owns {s} (wake timed_out wait_ms w) v = wake-Owns timed_out wait_ms s v
  Step-Owns {s} (give_back c now l) v = requeue-Owns s.lent c now s.pool l v
  Step-Owns {s} (discard c _ f l) v = discard-Owns s.lent c s.pool l v
  Step-Owns {s} (replace now r) v = replenish-Owns s.lent now s.pool v
  Step-Owns {s} (recycle now) v = recycle-Owns s.lent now s.pool v

  Life-Owns : {s t : System} → Life attempt s t → SystemOwns s → SystemOwns t
  unfolding shutdown
  Life-Owns (work st) v = Step-Owns st v
  Life-Owns {s} (start min max idle_time timeout op_num clock) v =
      init-Owns attempt s.lent min max idle_time timeout op_num clock s.pool v
  Life-Owns {s} stop v = drain-Owns s.lent s.pool.conn_queue s.pool.heap v

  -- If each connection object that exists stands exactly once, in the queue or with one client, and
  -- none was deleted twice, this stays so through any life of the pool, restarts and shutdowns
  -- included.
  pub Life-SystemOwns : {s t : System} → SystemOwns s → Star (Life attempt) s t → SystemOwns t
  Life-SystemOwns v here = v
  Life-SystemOwns v (next r st) = Life-Owns st (Life-SystemOwns v r)
