-- ===== src/DbPool/Pool.antt =====
-- ConnectionPool.cpp and MySQLFactory.cpp. `attempt n` tells whether the n-th `new MySQLConnection`
-- succeeds (true) or throws; an exception leaves the operation that made it, and the lock is released.
use backend_common_component.Prelude.{
  ℕ, zero, suc, ◌-◌, ◌/◌, Bool, true, false, not, ◌&&◌, none, some, List, [], ◌∷◌, ◌++◌, ℤ, pos,
  ◌-ℤ◌, min_ℤ, leb_ℤ, ltb_ℤ, ltb, incr, decr, rounds, length, if◌then◌else◌,
}
use backend_common_component.Objects.{Ptr, ConnEntry, Heap, delete, drain}

pub record Pool : Type 0 where
  pub conn_queue : List ConnEntry
  pub min_size : ℤ
  pub max_size : ℤ
  pub max_idle_time : ℤ
  pub timeout : ℤ
  pub op_num : ℤ
  pub current_size : ℤ
  pub initialized : Bool
  pub recycle_running : Bool
  pub heap : Heap

-- How an operation that creates connections ends.
pub data Outcome : Type 0 where
  done threw : Outcome

-- `destroy_connection`.
unfoldable pub destroy_connection : Ptr → Pool → Pool
destroy_connection none p = p
destroy_connection (some c) p = record p {
  heap = delete c p.heap;
  current_size = decr p.current_size;
}

-- `return_connection`: `valid` is what `is_valid` answers.
unfoldable pub return_connection : Ptr → Bool → ℕ → Pool → Pool
return_connection none valid now p = p
return_connection (some c) valid now p =
    if valid
    then record p { conn_queue = p.conn_queue ++ ((some c, now) ∷ []) }
    else record p { current_size = decr p.current_size; heap = delete c p.heap }

-- The last part of `get_connection`.
unfoldable pub take_front : List ConnEntry → Pool → Ptr × Pool
take_front [] p = (none, p)
take_front ((conn, _) ∷ q) p = (conn, record p { conn_queue = q })

unfoldable pub is_empty : List ConnEntry → Bool
is_empty [] = true
is_empty (_ ∷ _) = false

-- After the wait on the condition variable.
unfoldable pub get_wake : Bool → Pool → Ptr × Pool
unfolding is_empty take_front
get_wake timed_out p =
    if timed_out && is_empty p.conn_queue then (none, p) else take_front p.conn_queue p

-- What has become of a call of `get_connection` when it first gives the lock up.
pub data Progress : Type 0 where
  returned : Ptr → Progress
  waits : Progress
  failed : Progress

unfoldable pub enter_wait : List ConnEntry → Pool → Progress × Pool
unfolding take_front
enter_wait [] p = (waits, p)
enter_wait (e ∷ q) p = let (conn, p') = take_front (e ∷ q) p in (returned conn, p')

unfoldable pub idle_seconds : ℕ → ℕ → ℕ
idle_seconds now since = (now - since) / 1000000000

-- The loop of `recycle_idle_connections`; the source reads `entry` after `pop`, the model before.
unfoldable pub recycle_loop : ℕ → ℕ → ℕ → ℕ → Pool → ℕ × Pool
unfolding idle_seconds
recycle_loop zero recycled can_recycle now p = (recycled, p)
recycle_loop (suc k) recycled can_recycle now p = elim (ltb recycled can_recycle) [
  | false ↦ (recycled, p)
  | true ↦ elim p.conn_queue [
    | [] ↦ (recycled, p)
    | (conn, since) ∷ q ↦ elim (leb_ℤ p.max_idle_time (pos (idle_seconds now since))) [
      | true ↦
          recycle_loop k (suc recycled) can_recycle now
            (destroy_connection conn (record p { conn_queue = q }))
      | false ↦
          recycle_loop k recycled can_recycle now
            (record p { conn_queue = q ++ ((conn, since) ∷ []) })
    ]
  ]
]

unfoldable pub recycle_idle_connections : ℕ → Pool → Pool
recycle_idle_connections now p =
    let queue_size = length p.conn_queue in
    let can_recycle = pos queue_size -ℤ p.min_size in
    if leb_ℤ can_recycle (pos 0)
    then p
    else (recycle_loop queue_size 0 (rounds can_recycle) now p).1

unfoldable pub shutdown : Pool → Pool
shutdown p = record p {
  recycle_running = false;
  conn_queue = [];
  heap = drain p.conn_queue p.heap;
  current_size = pos 0;
  initialized = false;
}

unfoldable pub finish_init : Outcome × Pool → Outcome × Pool
finish_init (threw, p) = (threw, p)
finish_init (done, p) = (done, record p { recycle_running = true })

unfoldable pub after_expand : Outcome × Pool → Progress × Pool
unfolding enter_wait
after_expand (threw, p) = (failed, p)
after_expand (done, p) = enter_wait p.conn_queue p

module _ (attempt : ℕ → Bool) where
  -- `m_conn_queue.push(make_pair(m_factory->create_connection(m_cfg), now)); m_current_size++;`
  unfoldable pub create_and_push : ℕ → Pool → Outcome × Pool
  create_and_push now p =
      let n = p.heap.tries in
      if attempt n
      then (
        done,
        record p {
          conn_queue = p.conn_queue ++ ((some n, now) ∷ []);
          current_size = incr p.current_size;
          heap = record (p.heap) { tries = suc n; live = n ∷ p.heap.live };
        },
      )
      else (threw, record p { heap = record (p.heap) { tries = suc n } })

  -- The loops of `source_connections` and `expand_connections`, left by an exception.
  unfoldable pub create_loop : ℕ → (ℕ → ℕ) → Pool → Outcome × Pool
  create_loop zero clock p = (done, p)
  create_loop (suc k) clock p =
      let rest = create_loop k (λ i. clock (suc i)) (create_and_push (clock 0) p).1 in
      elim (create_and_push (clock 0) p).0 [
        | done ↦ rest
        | threw ↦ (threw, (create_and_push (clock 0) p).1)
      ]

  unfoldable pub source_connections : (ℕ → ℕ) → Pool → Outcome × Pool
  source_connections clock p = create_loop (rounds p.min_size) clock p

  unfoldable pub expand_connections : (ℕ → ℕ) → Pool → Outcome × Pool
  expand_connections clock p =
      let to_create = min_ℤ (p.max_size -ℤ p.current_size) p.op_num in
      if leb_ℤ to_create (pos 0) then (done, p) else create_loop (rounds to_create) clock p

  -- `init` with all parameters: an exception leaves it before the recycle thread is started.
  unfoldable pub init : ℤ → ℤ → ℤ → ℤ → ℤ → (ℕ → ℕ) → Pool → Outcome × Pool
  unfolding finish_init
  init min max idle_time timeout op_num clock p =
      let q : Pool = record p {
        initialized = true;
        min_size = min;
        max_size = max;
        max_idle_time = idle_time;
        timeout = timeout;
        op_num = op_num;
      } in
      finish_init (source_connections clock q)

  -- `get_connection` up to its wait.
  unfoldable pub get_enter : (ℕ → ℕ) → Pool → Progress × Pool
  unfolding is_empty after_expand
  get_enter clock p =
      if not p.initialized
      then (returned none, p)
      else if is_empty p.conn_queue && ltb_ℤ p.current_size p.max_size
      then after_expand (expand_connections clock p)
      else enter_wait p.conn_queue p
