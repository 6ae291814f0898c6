-- ===== src/DbPool/Parts.antt =====
-- The invariant of the database pool, and how the parts of its operations keep it.
use backend_common_component.Prelude.{
  ℕ, zero, suc, ◌+◌, ◌≤◌, ◌≡◌, Bool, some, List, [], ◌∷◌, arith, ℤ, pos, ◌≤ℤ◌, length,
  length-append,
}
use backend_common_component.Objects.{ConnEntry, held-append, Owns, objects, objects-append}
use backend_common_component.DbPool.Pool.{Pool, create_and_push, create_loop}

-- The counter stands for the objects that exist; each is in the queue or with one client.
pub record Sound (max : ℤ) (lent : List ℕ) (p : Pool) : Type 0 where
  pub owns : Owns lent p.conn_queue p.heap
  pub nonnull : objects p.conn_queue ≡ length p.conn_queue
  pub accounted : length p.heap.live ≡ length p.conn_queue + length lent
  pub counted : p.current_size ≡ pos (length p.heap.live)
  pub max_kept : p.max_size ≡ max
  pub capped : p.current_size ≤ℤ max

module _ (attempt : ℕ → Bool) (max : ℤ) (lent : List ℕ) where
  create-Owns :
      (now : ℕ) (p : Pool)
      → Owns lent p.conn_queue p.heap
      → let p' = (create_and_push attempt now p).1 in Owns lent p'.conn_queue p'.heap
  unfolding create_and_push
  create-Owns now p v = record {
    owned = λ a. ground (
      arith,
      v.owned a,
      held-append a p.conn_queue ((some p.heap.tries, now) ∷ []),
      v.fresh p.heap.tries (omega arith),
    );
    distinct = λ a. ground (arith, v.distinct a, v.fresh p.heap.tries (omega arith));
    fresh = λ a h. ground (arith, v.fresh a, v.fresh p.heap.tries (omega arith));
    sound = ground (arith, v.sound);
  }

  -- A round below the bound keeps the invariant, and grows the counter by at most one.
  create-Sound :
      (now : ℕ) (p : Pool) (n : ℕ)
      → pos (length p.heap.live + suc n) ≤ℤ max
      → Sound max lent p
      → let p' = (create_and_push attempt now p).1 in
        Sound max lent p' × (length p'.heap.live ≤ suc (length p.heap.live))
  unfolding create_and_push
  create-Sound now p n h v =
      let e : ConnEntry = (some p.heap.tries, now) in
      ground (
        arith,
        create-Owns now p v.owns,
        length-append p.conn_queue (e ∷ []),
        objects-append p.conn_queue (e ∷ []),
      )

  pub create_loop-Sound :
      (k : ℕ) (clock : ℕ → ℕ) (p : Pool)
      → pos (length p.heap.live + k) ≤ℤ max
      → Sound max lent p
      → Sound max lent (create_loop attempt k clock p).1
  unfolding create_loop
  create_loop-Sound zero clock p h v = v
  create_loop-Sound (suc k) clock p h v =
      let (w, l) = create-Sound (clock 0) p k h v in
      let p' = (create_and_push attempt (clock 0) p).1 in
      ground (arith, w, create_loop-Sound k (λ i. clock (suc i)) p' (omega arith) w)
