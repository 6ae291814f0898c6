-- ===== src/RedisPool/Invariant.antt =====
-- The Redis pool from `init` on, under any interleaving of its clients and its recycle thread.
use backend_common_component.Prelude.{
  ℕ, zero, suc, ◌+◌, ◌≡◌, refl, true, List, [], ◌∷◌, ◌++◌, arith, ℤ, pos, length, length-append,
  ◌≤ℤ◌, rounds, ◌-ℤ◌,
}
use backend_common_component.Objects.{ConnEntry, Owns, Ptr, to_back-Owns}
use backend_common_component.RedisPool.Types.{Attempt, Pool}
use backend_common_component.RedisPool.Connections.{
  destroy_connection, source_connections, note_sizes, init,
}
use backend_common_component.RedisPool.Recycle.{recycle_loop, recycle_idle_connections}
use backend_common_component.RedisPool.System.{
  System, constructed, started, Step, enter, wake, give_back, discard, replace, recycle, Star, here,
  next,
}
use backend_common_component.RedisPool.LoopRule.{recycle_loop_inv}
use backend_common_component.RedisPool.Ownership.{destroy-Owns, init-Owns}
use backend_common_component.RedisPool.Custody.{PoolOwns, SystemOwns, Step-Owns}
use backend_common_component.RedisPool.Sizes.{Sized, create_loop-Sized, destroy-Sized, rotate-Sized}
use backend_common_component.RedisPool.Bounds.{
  Bounded, note_sizes-Sized, get_enter-Bounded, get_wake-Bounded, requeue-Bounded, discard-Bounded,
  replenish-Bounded,
}

-- The loop moves an element or counts it, and leaves the statistics of the queue alone.
pub recycle_loop-length :
    (k recycled can_recycle now : ℕ) (p : Pool) (q : List ConnEntry)
    → p.conn_queue ≡ q
    → let (r, p') = recycle_loop k recycled can_recycle now p in
      (length p'.conn_queue + r ≡ length p.conn_queue + recycled)
      × (p'.stats.idle_connections ≡ p.stats.idle_connections)
unfolding recycle_loop destroy_connection
recycle_loop-length zero recycled can_recycle now p q e = (refl, refl)
recycle_loop-length (suc k) recycled can_recycle now p [] e = ground arith
recycle_loop-length (suc k) recycled can_recycle now p ((c, t) ∷ q) e =
    let d = destroy_connection c (record p { conn_queue = q }) in
    let r : Pool = record p { conn_queue = q ++ ((c, t) ∷ []) } in
    ground (
      arith,
      length-append q ((c, t) ∷ []),
      recycle_loop-length k (suc recycled) can_recycle now d d.conn_queue refl,
      recycle_loop-length k recycled can_recycle now r r.conn_queue refl,
    )

module _ (attempt : ℕ → Attempt) (min max : ℤ) where
  abbrev pub SystemBounded : System → Type 0
  SystemBounded s = Bounded attempt min max s.lent s.waiting s.returning s.pool

  -- What the recycling loop keeps.
  record Kept (lent : List ℕ) (waiting returning : ℕ) (p : Pool) : Type 0 where
    owns : PoolOwns lent p
    sized : Sized attempt min max lent waiting returning p
    capped : p.current_size ≤ℤ max

  destroy-Kept :
      (lent : List ℕ) (waiting returning : ℕ) (c : Ptr) (t : ℕ) (q : List ConnEntry) (p : Pool)
      → p.conn_queue ≡ (c, t) ∷ q
      → Kept lent waiting returning p
      → Kept lent waiting returning (destroy_connection c (record p { conn_queue = q }))
  unfolding destroy_connection
  destroy-Kept lent waiting returning c t q p e v =
      let owns : Owns lent ((c, t) ∷ q) p.heap = rw e at v.owns in
      record {
        owns = destroy-Owns lent c t q (record p { conn_queue = q }) refl owns;
        sized = destroy-Sized attempt min max lent waiting returning c t q p e owns v.sized;
        capped = ground (arith, v.capped);
      }

  recycle_loop-Kept :
      (lent : List ℕ) (waiting returning k recycled can_recycle now : ℕ) (p : Pool)
      → Kept lent waiting returning p
      → Kept lent waiting returning (recycle_loop k recycled can_recycle now p).1
  recycle_loop-Kept lent waiting returning k recycled can_recycle now p =
      recycle_loop_inv (Kept lent waiting returning)
        (λ c t q r e w. destroy-Kept lent waiting returning c t q r e w)
        (λ x q r e w. record {
          owns = to_back-Owns lent x q r.heap (rw e at w.owns);
          sized = rotate-Sized attempt min max lent waiting returning x q r e w.sized;
          capped = w.capped;
        })
        k recycled can_recycle now p p.conn_queue refl

  recycle-Bounded :
      (lent : List ℕ) (waiting returning now : ℕ) (p : Pool)
      → PoolOwns lent p
      → Bounded attempt min max lent waiting returning p
      → Bounded attempt min max lent waiting returning (recycle_idle_connections now p)
  unfolding recycle_idle_connections
  recycle-Bounded lent waiting returning now p o v =
      let n = length p.conn_queue in
      let can_recycle = rounds (pos n -ℤ p.min_size) in
      let p' = (recycle_loop n 0 can_recycle now p).1 in
      let kept =
        recycle_loop-Kept lent waiting returning n 0 can_recycle now p
          (record { owns = o; sized = v.sized; capped = v.capped }) in
      ground (
        arith,
        v,
        kept.capped,
        kept.sized,
        note_sizes-Sized attempt min max lent waiting returning p' kept.sized,
        recycle_loop-length n 0 can_recycle now p p.conn_queue refl,
      )

  -- The statement of the working invariant, with the ownership that it rests on.
  pub record Working (s : System) : Type 0 where
    pub owns : SystemOwns s
    pub bounded : SystemBounded s

  Step-Bounded : {s t : System} → min ≤ℤ max → Step attempt s t → Working s → SystemBounded t
  Step-Bounded {s} m (enter clock) v = get_enter-Bounded attempt min max clock s v.bounded
  Step-Bounded {s} m (wake timed_out wait_ms w) v =
      get_wake-Bounded attempt min max timed_out wait_ms s w v.bounded
  Step-Bounded {s} m (give_back c now l) v =
      requeue-Bounded attempt min max s.lent s.waiting s.returning c now s.pool l v.bounded
  Step-Bounded {s} m (discard c _ f l) v =
      discard-Bounded attempt min max s.lent s.waiting s.returning c s.pool l v.owns v.bounded
  Step-Bounded {s} m (replace now r) v =
      replenish-Bounded attempt min max s.lent s.waiting s.returning now s.pool m r v.bounded
  Step-Bounded {s} m (recycle now) v =
      recycle-Bounded s.lent s.waiting s.returning now s.pool v.owns v.bounded

  pub Step-Working : {s t : System} → min ≤ℤ max → Step attempt s t → Working s → Working t
  Step-Working m st v = record { owns = Step-Owns attempt st v.owns; bounded = Step-Bounded m st v }

  pub Star-Working : {s t : System} → min ≤ℤ max → Working s → Star (Step attempt) s t → Working t
  Star-Working m v here = v
  Star-Working m v (next r st) = Step-Working m st (Star-Working m v r)

  pub started-Working :
      (hardware_threads : ℕ) (idle_time timeout op_num : ℤ) (clock : ℕ → ℕ)
      → min ≤ℤ max
      → pos 0 ≤ℤ max
      → Working (started attempt min max idle_time timeout op_num clock hardware_threads)
  unfolding started constructed init source_connections note_sizes
  started-Working hardware_threads idle_time timeout op_num clock m z =
      let p : Pool = record (constructed hardware_threads) {
        initialized = true;
        min_size = min;
        max_size = max;
        max_idle_time = idle_time;
        timeout = timeout;
        op_num = op_num;
      } in
      let (w, grown) =
        create_loop-Sized attempt min max [] 0 0 (rounds min) clock p (ground arith) in
      let owns =
        init-Owns attempt [] min max idle_time timeout op_num clock (constructed hardware_threads)
          (record {
            owned = λ a. omega arith;
            distinct = λ a. omega arith;
            fresh = λ a h. omega arith;
            sound = omega arith;
          }) in
      record { owns = owns; bounded = ground (arith, w, grown) }

  -- From `init` with sizes `min ≤ max` and `0 ≤ max` on, under any interleaving of calls of
  -- `get_connection` (with their waits), returns of guards and runs of the recycle thread: every
  -- connection object that exists stands exactly once, in the queue or with a client, and none is
  -- deleted twice; the queue holds no null; `m_current_size` counts those objects and the
  -- constructions that failed, and does not exceed `max`; the statistics give the idle and the
  -- waiting as they are, and as active the lent connections and those whose return is not finished.
  pub pool-Working :
      (hardware_threads : ℕ) (idle_time timeout op_num : ℤ) (clock : ℕ → ℕ) (t : System)
      → min ≤ℤ max
      → pos 0 ≤ℤ max
      → Star
          (Step attempt)
          (started attempt min max idle_time timeout op_num clock hardware_threads)
          t
      → Working t
  pool-Working hardware_threads idle_time timeout op_num clock t m z r =
      Star-Working m (started-Working hardware_threads idle_time timeout op_num clock m z) r
