-- ===== src/RedisPool/LoopRule.antt =====
-- The invariant rule of the loop of `recycle_idle_connections`.
use backend_common_component.Prelude.{ℕ, zero, suc, ◌≡◌, refl, List, [], ◌∷◌, ◌++◌, arith}
use backend_common_component.Objects.{ConnEntry, Ptr}
use backend_common_component.RedisPool.Types.{Pool}
use backend_common_component.RedisPool.Connections.{destroy_connection}
use backend_common_component.RedisPool.Recycle.{recycle_loop}

module _ {ℓ} (P : Pool → Type ℓ)
    (destroyed : (c : Ptr) (t : ℕ) (q : List ConnEntry) (p : Pool)
      → p.conn_queue ≡ (c, t) ∷ q
      → P p
      → P (destroy_connection c (record p { conn_queue = q })))
    (rotated : (e : ConnEntry) (q : List ConnEntry) (p : Pool)
      → p.conn_queue ≡ e ∷ q
      → P p
      → P (record p { conn_queue = q ++ (e ∷ []) })) where
  pub recycle_loop_inv :
      (k recycled can_recycle now : ℕ) (p : Pool) (q : List ConnEntry)
      → p.conn_queue ≡ q
      → P p
      → P (recycle_loop k recycled can_recycle now p).1
  unfolding recycle_loop
  recycle_loop_inv zero recycled can_recycle now p q e h = h
  recycle_loop_inv (suc k) recycled can_recycle now p [] e h = ground arith
  recycle_loop_inv (suc k) recycled can_recycle now p ((c, t) ∷ q) e h =
      let d = destroy_connection c (record p { conn_queue = q }) in
      let r : Pool = record p { conn_queue = q ++ ((c, t) ∷ []) } in
      ground (
        arith,
        recycle_loop_inv k (suc recycled) can_recycle now d d.conn_queue refl
            (destroyed c t q p e h),
        recycle_loop_inv k recycled can_recycle now r r.conn_queue refl (rotated (c, t) q p e h),
      )
