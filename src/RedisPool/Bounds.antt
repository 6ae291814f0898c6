-- ===== src/RedisPool/Bounds.antt =====
-- The working invariant of the Redis pool: ownership, counters, statistics and the upper bound.
use backend_common_component.Prelude.{
  ℕ, zero, suc, ◌+◌, ◌-◌, ◌<◌, ◌≡◌, refl, Bool, none, some, List, [], ◌∷◌, arith, count, remove, ℤ,
  pos, length, length-append, length-remove, ◌≤ℤ◌, rounds, min_ℤ, ◌-ℤ◌, leb_ℤ, decr, Bool-cases,
  inl, inr,
}
use backend_common_component.Objects.{ConnEntry, delete, keep, objects-append, objects-le-length}
use backend_common_component.RedisPool.Types.{Attempt, Pool}
use backend_common_component.RedisPool.Connections.{
  destroy_connection, expand_connections, note_sizes,
}
use backend_common_component.RedisPool.Borrow.{
  get_enter, get_wake, enter_wait, take_front, note_wait, expand_if_needed, requeue, note_return,
  replenish,
}
use backend_common_component.RedisPool.System.{System, after_enter, after_wake}
use backend_common_component.RedisPool.Custody.{PoolOwns}
use backend_common_component.RedisPool.Sizes.{
  Sized, charged, create_and_push-Sized, create_loop-Sized,
}

room :
    (n : ℕ) (current limit max op_num : ℤ)
    → current ≡ pos n
    → limit ≡ max
    → current ≤ℤ max
    → pos (n + rounds (min_ℤ (limit -ℤ current) op_num)) ≤ℤ max
room n current limit max op_num e f h = ground arith

module _ (attempt : ℕ → Attempt) (min max : ℤ) where
  -- Sizes, bound and statistics of a pool with the given clients.
  pub record Bounded (lent : List ℕ) (waiting returning : ℕ) (p : Pool) : Type 0 where
    pub sized : Sized attempt min max lent waiting returning p
    pub capped : p.current_size ≤ℤ max
    pub idle : p.stats.idle_connections ≡ pos (length p.conn_queue)

  pub note_sizes-Sized :
      (lent : List ℕ) (waiting returning : ℕ) (p : Pool)
      → Sized attempt min max lent waiting returning p
      → Sized attempt min max lent waiting returning (note_sizes p)
  unfolding note_sizes
  note_sizes-Sized lent waiting returning p v = ground arith

  expand_connections-Bounded :
      (lent : List ℕ) (waiting returning : ℕ) (clock : ℕ → ℕ) (p : Pool)
      → Bounded lent waiting returning p
      → Bounded lent waiting returning (expand_connections attempt clock p)
  unfolding expand_connections
  expand_connections-Bounded lent waiting returning clock p v =
      let n = rounds (min_ℤ (p.max_size -ℤ p.current_size) p.op_num) in
      let (w, grown) = create_loop-Sized attempt min max lent waiting returning n clock p v.sized in
      elim (Bool-cases (leb_ℤ (min_ℤ (p.max_size -ℤ p.current_size) p.op_num) (pos 0))) [
        | inl stay ↦ rw stay v
        | inr grow ↦ rw grow (record {
          sized = note_sizes-Sized lent waiting returning _ w;
          capped =
              let fits =
                room (charged attempt p.heap) p.current_size p.max_size max p.op_num v.sized.counted
                  v.sized.max_kept v.capped in
              ground (arith, w.counted, grown, fits);
          idle = refl;
        })
      ]

  expand_if_needed-Bounded :
      (lent : List ℕ) (waiting returning : ℕ) (clock : ℕ → ℕ) (p : Pool)
      → Bounded lent waiting returning p
      → Bounded lent waiting returning (expand_if_needed attempt clock p)
  unfolding expand_if_needed
  expand_if_needed-Bounded lent waiting returning clock p v =
      ground (arith, expand_connections-Bounded lent waiting returning clock p v)

  pub take_front-Bounded :
      (lent : List ℕ) (waiting returning : ℕ) (q : List ConnEntry) (p : Pool)
      → p.conn_queue ≡ q
      → Bounded lent waiting returning p
      → let (c, p') = take_front q p in Bounded (keep c lent) waiting returning p'
  unfolding take_front
  take_front-Bounded lent waiting returning [] p e v = v
  take_front-Bounded lent waiting returning ((none, t) ∷ q) p e v =
      ground (arith, objects-le-length q)
  take_front-Bounded lent waiting returning ((some c, t) ∷ q) p e v = ground arith

  enter_wait-Bounded :
      (s : System) (q : List ConnEntry) (p : Pool)
      → p.conn_queue ≡ q
      → Bounded s.lent s.waiting s.returning p
      → let t = after_enter s (enter_wait q p) in Bounded t.lent t.waiting t.returning t.pool
  unfolding enter_wait
  enter_wait-Bounded s [] p e v = ground arith
  enter_wait-Bounded s (x ∷ q) p e v = take_front-Bounded s.lent s.waiting s.returning (x ∷ q) p e v

  pub get_enter-Bounded :
      (clock : ℕ → ℕ) (s : System)
      → Bounded s.lent s.waiting s.returning s.pool
      → let t = after_enter s (get_enter attempt clock s.pool) in
        Bounded t.lent t.waiting t.returning t.pool
  unfolding get_enter
  get_enter-Bounded clock s v =
      let p = expand_if_needed attempt clock s.pool in
      ground (
        arith,
        enter_wait-Bounded s p.conn_queue p refl
            (expand_if_needed-Bounded s.lent s.waiting s.returning clock s.pool v),
      )

  note_wait-Bounded :
      (lent : List ℕ) (waiting returning : ℕ) (wait_ms : ℕ) (p : Pool)
      → 0 < waiting
      → Bounded lent waiting returning p
      → Bounded lent (waiting - 1) returning (record p {
        stats =
            note_wait wait_ms (record (p.stats) { pending_waiters = decr p.stats.pending_waiters });
      })
  unfolding note_wait
  note_wait-Bounded lent zero returning wait_ms p w v = elim w [ ]
  note_wait-Bounded lent (suc n) returning wait_ms p w v = ground arith

  pub get_wake-Bounded :
      (timed_out : Bool) (wait_ms : ℕ) (s : System)
      → 0 < s.waiting
      → Bounded s.lent s.waiting s.returning s.pool
      → let t = after_wake s (get_wake timed_out wait_ms s.pool) in
        Bounded t.lent t.waiting t.returning t.pool
  unfolding get_wake note_wait
  get_wake-Bounded timed_out wait_ms s w v =
      let woken = note_wait-Bounded s.lent s.waiting s.returning wait_ms s.pool w v in
      ground (
        arith,
        woken,
        take_front-Bounded s.lent (s.waiting - 1) s.returning s.pool.conn_queue _ refl woken,
      )

  pub requeue-Bounded :
      (lent : List ℕ) (waiting returning c now : ℕ) (p : Pool)
      → 0 < count c lent
      → Bounded lent waiting returning p
      → Bounded (remove c lent) waiting returning (requeue c now p)
  unfolding requeue
  requeue-Bounded lent waiting returning c now p l v =
      let e : ConnEntry = (some c, now) in
      ground (
        arith,
        length-remove c lent,
        length-append p.conn_queue (e ∷ []),
        objects-append p.conn_queue (e ∷ []),
      )

  pub discard-Bounded :
      (lent : List ℕ) (waiting returning c : ℕ) (p : Pool)
      → 0 < count c lent
      → PoolOwns lent p
      → Bounded lent waiting returning p
      → Bounded (remove c lent) waiting (suc returning) (destroy_connection (some c) p)
  unfolding destroy_connection delete
  discard-Bounded lent waiting returning c p l o v =
      ground (arith, o.owned c, length-remove c lent, length-remove c p.heap.live)

  note_return-Bounded :
      (lent : List ℕ) (waiting returning : ℕ) (p : Pool)
      → 0 < returning
      → Bounded lent waiting returning p
      → Bounded lent waiting (returning - 1) (note_return p)
  unfolding note_return
  note_return-Bounded lent waiting zero p r v = absurd (omega arith)
  note_return-Bounded lent waiting (suc n) p r v = ground arith

  pub replenish-Bounded :
      (lent : List ℕ) (waiting returning now : ℕ) (p : Pool)
      → min ≤ℤ max
      → 0 < returning
      → Bounded lent waiting returning p
      → Bounded lent waiting (returning - 1) (replenish attempt now p)
  unfolding replenish
  replenish-Bounded lent waiting returning now p m r v =
      let w = note_return-Bounded lent waiting returning p r v in
      ground (
        arith,
        w,
        create_and_push-Sized attempt min max lent waiting (returning - 1) now (note_return p)
            w.sized,
      )
