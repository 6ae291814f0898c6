-- ===== src/RedisPool/Ownership.antt =====
-- Who owns the connection objects of the Redis pool: each object that exists stands once in the
-- queue or with a client, and `delete` is called on objects that exist.
use backend_common_component.Prelude.{
  ℕ, zero, suc, ◌≡◌, none, some, List, [], ◌∷◌, arith, ℤ, rounds, min_ℤ, ◌-ℤ◌,
}
use backend_common_component.Objects.{ConnEntry, Owns, Ptr, delete-Owns, held-append, lend-Owns}
use backend_common_component.RedisPool.Types.{Attempt, Pool}
use backend_common_component.RedisPool.Factory.{factory_create}
use backend_common_component.RedisPool.Borrow.{expand_if_needed}
use backend_common_component.RedisPool.Connections.{
  destroy_connection, create_and_push, create_loop, init, source_connections, expand_connections,
}

module _ (attempt : ℕ → Attempt) (lent : List ℕ) where
  pub create_and_push-Owns :
      (now : ℕ) (p : Pool)
      → Owns lent p.conn_queue p.heap
      → let p' = create_and_push attempt now p in Owns lent p'.conn_queue p'.heap
  unfolding create_and_push factory_create
  create_and_push-Owns now p v = record {
    owned = λ a. ground (
      arith,
      v.owned a,
      held-append a p.conn_queue ((some p.heap.tries, now) ∷ []),
      v.fresh p.heap.tries (omega arith),
    );
    distinct = λ a.
        ground (arith, v.distinct a, v.fresh p.heap.tries (omega arith), v.distinct p.heap.tries);
    fresh = λ a h. ground (arith, v.fresh a, v.fresh p.heap.tries (omega arith));
    sound = ground (arith, v.sound, v.fresh p.heap.tries (omega arith));
  }

  create_loop-Owns :
      (k : ℕ) (clock : ℕ → ℕ) (p : Pool)
      → Owns lent p.conn_queue p.heap
      → let p' = create_loop attempt k clock p in Owns lent p'.conn_queue p'.heap
  unfolding create_loop
  create_loop-Owns zero clock p v = v
  create_loop-Owns (suc k) clock p v =
      create_loop-Owns k (λ i. clock (suc i)) (create_and_push attempt (clock 0) p)
        (create_and_push-Owns (clock 0) p v)

  pub init-Owns :
      (min max idle_time timeout op_num : ℤ) (clock : ℕ → ℕ) (p : Pool)
      → Owns lent p.conn_queue p.heap
      → let p' = init attempt min max idle_time timeout op_num clock p in
        Owns lent p'.conn_queue p'.heap
  unfolding init source_connections
  init-Owns min max idle_time timeout op_num clock p v = create_loop-Owns _ clock _ v

  pub expand_if_needed-Owns :
      (clock : ℕ → ℕ) (p : Pool)
      → Owns lent p.conn_queue p.heap
      → let p' = expand_if_needed attempt clock p in Owns lent p'.conn_queue p'.heap
  unfolding expand_if_needed expand_connections
  expand_if_needed-Owns clock p v =
      let n = rounds (min_ℤ (p.max_size -ℤ p.current_size) p.op_num) in
      ground (arith, create_loop-Owns n clock p v)

pub destroy-Owns :
    (lent : List ℕ) (c : Ptr) (t : ℕ) (q : List ConnEntry) (p : Pool)
    → p.conn_queue ≡ q
    → Owns lent ((c, t) ∷ q) p.heap
    → let p' = destroy_connection c p in Owns lent p'.conn_queue p'.heap
unfolding destroy_connection
destroy-Owns lent none t q p e v = rw e (lend-Owns lent none t q p.heap v)
destroy-Owns lent (some c) t q p e v = rw e (delete-Owns lent c t q p.heap v)
