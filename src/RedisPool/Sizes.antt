-- ===== src/RedisPool/Sizes.antt =====
-- The counters of the Redis pool: what `m_current_size` counts, and how the parts keep it.
use backend_common_component.Prelude.{
  ℕ, zero, suc, ◌+◌, ◌≡◌, none, some, List, [], ◌∷◌, ◌++◌, arith, ℤ, pos, length, length-append,
  length-remove,
}
use backend_common_component.Objects.{
  ConnEntry, Heap, Owns, Ptr, delete, objects, objects-append, objects-le-length,
}
use backend_common_component.RedisPool.Types.{
  Attempt, refused, connected, pong, other_reply, throws, Pool,
}
use backend_common_component.RedisPool.Factory.{factory_create}
use backend_common_component.RedisPool.Connections.{
  destroy_connection, create_and_push, create_loop,
}

-- How many of the first n constructions gave no usable connection.
abbrev pub fails : Attempt → ℕ
fails refused = 1
fails (connected pong) = 0
fails (connected other_reply) = 1
fails (connected throws) = 1

abbrev pub failures : (ℕ → Attempt) → ℕ → ℕ
failures attempt zero = 0
failures attempt (suc n) = fails (attempt n) + failures attempt n

module _ (attempt : ℕ → Attempt) where
  abbrev pub charged : Heap → ℕ
  charged h = length h.live + failures attempt h.tries

  module _ (min max : ℤ) (lent : List ℕ) (waiting returning : ℕ) where
    -- The counter stands for the objects that exist and for the constructions that failed.
    pub record Sized (p : Pool) : Type 0 where
      pub min_kept : p.min_size ≡ min
      pub max_kept : p.max_size ≡ max
      pub nonnull : objects p.conn_queue ≡ length p.conn_queue
      pub accounted : length p.heap.live ≡ length p.conn_queue + length lent
      pub counted : p.current_size ≡ pos (charged p.heap)
      pub active : p.stats.active_connections ≡ pos (length lent + returning)
      pub waiters : p.stats.pending_waiters ≡ pos waiting

    pub create_and_push-Sized :
        (now : ℕ) (p : Pool)
        → Sized p
        → let p' = create_and_push attempt now p in
          Sized p' × (charged p'.heap ≡ suc (charged p.heap))
    unfolding create_and_push factory_create
    create_and_push-Sized now p v =
        let e : ConnEntry = (some p.heap.tries, now) in
        ground (arith, length-append p.conn_queue (e ∷ []), objects-append p.conn_queue (e ∷ []))

    pub create_loop-Sized :
        (k : ℕ) (clock : ℕ → ℕ) (p : Pool)
        → Sized p
        → let p' = create_loop attempt k clock p in
          Sized p' × (charged p'.heap ≡ charged p.heap + k)
    unfolding create_loop
    create_loop-Sized zero clock p v = (v, omega arith)
    create_loop-Sized (suc k) clock p v =
        let (w, grown) = create_and_push-Sized (clock 0) p v in
        let (x, more) =
          create_loop-Sized k (λ i. clock (suc i)) (create_and_push attempt (clock 0) p) w in
        (x, omega (arith, grown, more))

    pub destroy-Sized :
        (c : Ptr) (t : ℕ) (q : List ConnEntry) (p : Pool)
        → p.conn_queue ≡ (c, t) ∷ q
        → Owns lent ((c, t) ∷ q) p.heap
        → Sized p
        → Sized (destroy_connection c (record p { conn_queue = q }))
    unfolding destroy_connection delete
    destroy-Sized none t q p e o v = ground (arith, objects-le-length q)
    destroy-Sized (some c) t q p e o v = ground (arith, o.owned c, length-remove c p.heap.live)

    pub rotate-Sized :
        (e : ConnEntry) (q : List ConnEntry) (p : Pool)
        → p.conn_queue ≡ e ∷ q
        → Sized p
        → Sized (record p { conn_queue = q ++ (e ∷ []) })
    rotate-Sized (none, t) q p e v = ground (arith, objects-le-length q)
    rotate-Sized (some c, t) q p e v =
        ground (arith, length-append q ((some c, t) ∷ []), objects-append q ((some c, t) ∷ []))
