-- ===== src/DbPool/Invariant.antt =====
-- The database pool from `init` on, under any interleaving of its clients and its recycle thread.
use backend_common_component.Prelude.{
  ℕ, zero, suc, ◌+◌, ◌<◌, ◌≡◌, refl, Bool, true, false, none, some, List, [], ◌∷◌, ◌++◌, arith, ℤ,
  pos, ◌≤ℤ◌, ◌-ℤ◌, min_ℤ, rounds, leb_ℤ, length, length-append, length-remove, count, remove,
  Bool-cases, inl, inr, ltb_ℤ, ◌&&◌,
}
use backend_common_component.Objects.{
  Ptr, ConnEntry, delete, keep, Owns, delete-Owns, hand_in-Owns, to_back-Owns, lend-Owns,
  objects-append, objects-le-length,
}
use backend_common_component.DbPool.Pool.{
  Pool, Outcome, done, threw, destroy_connection, return_connection, take_front, init,
  source_connections, expand_connections, recycle_loop, recycle_idle_connections, enter_wait,
  get_enter, get_wake, is_empty, after_expand, finish_init,
}
use backend_common_component.DbPool.System.{
  System, Step, enter, wake, give_back, recycle, Star, here, next, after_enter, after_wake,
  constructed, started,
}
use backend_common_component.DbPool.Parts.{Sound, create_loop-Sound}

destroy-Sound :
    (max : ℤ) (lent : List ℕ) (c : Ptr) (t : ℕ) (q : List ConnEntry) (p : Pool)
    → p.conn_queue ≡ (c, t) ∷ q
    → Sound max lent p
    → Sound max lent (destroy_connection c (record p { conn_queue = q }))
unfolding destroy_connection delete
destroy-Sound max lent none t q p e v = absurd (ground (arith, v.nonnull, objects-le-length q))
destroy-Sound max lent (some c) t q p e v =
    let owns : Owns lent ((some c, t) ∷ q) p.heap = rw e at v.owns in
    ground (arith, delete-Owns lent c t q p.heap owns, owns.owned c, length-remove c p.heap.live)

rotate-Sound :
    (max : ℤ) (lent : List ℕ) (e : ConnEntry) (q : List ConnEntry) (p : Pool)
    → p.conn_queue ≡ e ∷ q
    → Sound max lent p
    → Sound max lent (record p { conn_queue = q ++ (e ∷ []) })
rotate-Sound max lent (c, t) q p e v =
    let owns : Owns lent ((c, t) ∷ q) p.heap = rw e at v.owns in
    ground (
      arith,
      to_back-Owns lent (c, t) q p.heap owns,
      length-append q ((c, t) ∷ []),
      objects-append q ((c, t) ∷ []),
      objects-le-length q,
    )

recycle_loop-Sound :
    (max : ℤ) (lent : List ℕ) (k recycled can_recycle now : ℕ) (p : Pool) (q : List ConnEntry)
    → p.conn_queue ≡ q
    → Sound max lent p
    → Sound max lent (recycle_loop k recycled can_recycle now p).1
unfolding recycle_loop
recycle_loop-Sound max lent zero recycled can_recycle now p q e v = v
recycle_loop-Sound max lent (suc k) recycled can_recycle now p [] e v = ground arith
recycle_loop-Sound max lent (suc k) recycled can_recycle now p ((c, t) ∷ q) e v =
    let d = destroy_connection c (record p { conn_queue = q }) in
    let r : Pool = record p { conn_queue = q ++ ((c, t) ∷ []) } in
    ground (
      arith,
      v,
      recycle_loop-Sound max lent k (suc recycled) can_recycle now d d.conn_queue refl
          (destroy-Sound max lent c t q p e v),
      recycle_loop-Sound max lent k recycled can_recycle now r r.conn_queue refl
          (rotate-Sound max lent (c, t) q p e v),
    )

recycle-Sound :
    (max : ℤ) (lent : List ℕ) (now : ℕ) (p : Pool)
    → Sound max lent p
    → Sound max lent (recycle_idle_connections now p)
unfolding recycle_idle_connections
recycle-Sound max lent now p v =
    let n = length p.conn_queue in
    ground (
      arith,
      v,
      recycle_loop-Sound max lent n 0 (rounds (pos n -ℤ p.min_size)) now p p.conn_queue refl v,
    )

return-Sound :
    (max : ℤ) (lent : List ℕ) (c : ℕ) (valid : Bool) (now : ℕ) (p : Pool)
    → 0 < count c lent
    → Sound max lent p
    → Sound max (remove c lent) (return_connection (some c) valid now p)
unfolding return_connection delete
return-Sound max lent c true now p l v =
    let owns = hand_in-Owns lent c now p.conn_queue p.heap l v.owns in
    ground (
      arith,
      to_back-Owns (remove c lent) (some c, now) p.conn_queue p.heap owns,
      length-append p.conn_queue ((some c, now) ∷ []),
      objects-append p.conn_queue ((some c, now) ∷ []),
      length-remove c lent,
    )
return-Sound max lent c false now p l v =
    let owns = hand_in-Owns lent c now p.conn_queue p.heap l v.owns in
    ground (
      arith,
      delete-Owns (remove c lent) c now p.conn_queue p.heap owns,
      v.owns.owned c,
      length-remove c lent,
      length-remove c p.heap.live,
    )

take_front-Sound :
    (max : ℤ) (lent : List ℕ) (q : List ConnEntry) (p : Pool)
    → p.conn_queue ≡ q
    → Sound max lent p
    → let (c, p') = take_front q p in Sound max (keep c lent) p'
unfolding take_front
take_front-Sound max lent [] p e v = v
take_front-Sound max lent ((none, t) ∷ q) p e v =
    absurd (ground (arith, v.nonnull, objects-le-length q))
take_front-Sound max lent ((some c, t) ∷ q) p e v =
    ground (arith, lend-Owns lent (some c) t q p.heap (rw e at v.owns))

room :
    (n : ℕ) (current limit max op_num : ℤ)
    → current ≡ pos n
    → limit ≡ max
    → current ≤ℤ max
    → pos (n + rounds (min_ℤ (limit -ℤ current) op_num)) ≤ℤ max
room n current limit max op_num e f h = ground arith

enter_wait-Sound :
    (max : ℤ) (s : System) (q : List ConnEntry) (p : Pool)
    → p.conn_queue ≡ q
    → Sound max s.lent p
    → let t = after_enter s (enter_wait q p) in Sound max t.lent t.pool
unfolding enter_wait
enter_wait-Sound max s [] p e v = v
enter_wait-Sound max s (x ∷ q) p e v = take_front-Sound max s.lent (x ∷ q) p e v

wake-Sound :
    (max : ℤ) (timed_out : Bool) (s : System)
    → Sound max s.lent s.pool
    → let t = after_wake s (get_wake timed_out s.pool) in Sound max t.lent t.pool
unfolding get_wake
wake-Sound max false s v = take_front-Sound max s.lent s.pool.conn_queue s.pool refl v
wake-Sound max true s v = elim (Bool-cases (is_empty s.pool.conn_queue)) [
  | inl e ↦ rw e v
  | inr e ↦ rw e (take_front-Sound max s.lent s.pool.conn_queue s.pool refl v)
]

finish_init-Sound :
    {max : ℤ} {lent : List ℕ} (r : Outcome × Pool)
    → Sound max lent r.1
    → Sound max lent (finish_init r).1
unfolding finish_init
finish_init-Sound (threw, p) v = v
finish_init-Sound (done, p) v = ground arith

module _ (attempt : ℕ → Bool) (max : ℤ) where
  expand-Sound :
      (lent : List ℕ) (clock : ℕ → ℕ) (p : Pool)
      → Sound max lent p
      → Sound max lent (expand_connections attempt clock p).1
  unfolding expand_connections
  expand-Sound lent clock p v =
      let n = rounds (min_ℤ (p.max_size -ℤ p.current_size) p.op_num) in
      let fits =
        room (length p.heap.live) p.current_size p.max_size max p.op_num v.counted v.max_kept
          v.capped in
      elim (Bool-cases (leb_ℤ (min_ℤ (p.max_size -ℤ p.current_size) p.op_num) (pos 0))) [
        | inl stay ↦ rw stay v
        | inr grow ↦ rw grow (create_loop-Sound attempt max lent n clock p fits v)
      ]

  after_expand-Sound :
      (s : System) (r : Outcome × Pool)
      → Sound max s.lent r.1
      → let t = after_enter s (after_expand r) in Sound max t.lent t.pool
  unfolding after_expand
  after_expand-Sound s (threw, p) v = v
  after_expand-Sound s (done, p) v = enter_wait-Sound max s p.conn_queue p refl v

  enter-Sound :
      (clock : ℕ → ℕ) (s : System)
      → Sound max s.lent s.pool
      → let t = after_enter s (get_enter attempt clock s.pool) in Sound max t.lent t.pool
  unfolding get_enter
  enter-Sound clock s v = elim (Bool-cases s.pool.initialized) [
    | inl i ↦
        elim (Bool-cases
          (is_empty s.pool.conn_queue && ltb_ℤ s.pool.current_size s.pool.max_size)) [
            | inl e ↦
                simp (i, e)
                  (after_expand-Sound s (expand_connections attempt clock s.pool)
                    (expand-Sound s.lent clock s.pool v))
            | inr e ↦ simp (i, e) (enter_wait-Sound max s s.pool.conn_queue s.pool refl v)
          ]
    | inr i ↦ simp i v
  ]

  Step-Sound : {s t : System} → Step attempt s t → Sound max s.lent s.pool → Sound max t.lent t.pool
  Step-Sound {s} (enter clock) v = enter-Sound clock s v
  Step-Sound {s} (wake timed_out w) v = wake-Sound max timed_out s v
  Step-Sound {s} (give_back c valid now l) v = return-Sound max s.lent c valid now s.pool l v
  Step-Sound {s} (recycle now) v = recycle-Sound max s.lent now s.pool v

  Star-Sound :
      {s t : System} → Sound max s.lent s.pool → Star (Step attempt) s t → Sound max t.lent t.pool
  Star-Sound v here = v
  Star-Sound v (next r st) = Step-Sound st (Star-Sound v r)

  pub started-Sound :
      (min idle_time timeout op_num : ℤ) (clock : ℕ → ℕ) (hardware_threads : ℕ)
      → min ≤ℤ max
      → pos 0 ≤ℤ max
      → Sound max [] (started attempt min max idle_time timeout op_num clock hardware_threads).pool
  unfolding started constructed init source_connections
  started-Sound min idle_time timeout op_num clock hardware_threads m z =
      let p : Pool = record (constructed hardware_threads) {
        initialized = true;
        min_size = min;
        max_size = max;
        max_idle_time = idle_time;
        timeout = timeout;
        op_num = op_num;
      } in
      finish_init-Sound (source_connections attempt clock p)
        (create_loop-Sound attempt max [] (rounds min) clock p (ground arith) (ground arith))

  -- From `init` with sizes `min ≤ max` and `0 ≤ max` on, also if it threw, and under any interleaving
  -- of calls (that may throw), waits, returns and runs of the recycle thread: every connection object
  -- that exists stands exactly once, in the queue or with a client, none is deleted twice, the queue
  -- holds no null, and `m_current_size` is the number of these objects and does not exceed `max`.
  pub pool-Sound :
      (min idle_time timeout op_num : ℤ) (clock : ℕ → ℕ) (hardware_threads : ℕ) (t : System)
      → min ≤ℤ max
      → pos 0 ≤ℤ max
      → Star
          (Step attempt)
          (started attempt min max idle_time timeout op_num clock hardware_threads)
          t
      → Sound max t.lent t.pool
  unfolding started
  pool-Sound min idle_time timeout op_num clock hardware_threads t m z r =
      Star-Sound (started-Sound min idle_time timeout op_num clock hardware_threads m z) r
