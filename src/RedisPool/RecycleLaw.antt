-- ===== src/RedisPool/RecycleLaw.antt =====
-- What one run of `recycle_idle_connections` does to the queue.
use backend_common_component.Prelude.{
  ℕ, suc, ◌+◌, ◌≤◌, ◌<◌, ◌≡◌, refl, Bool, none, some, List, [], ◌∷◌, ◌++◌, arith, ℤ, pos, length,
  rounds, ◌-ℤ◌, leb_ℤ, if◌then◌else◌, sym, ◌∙◌,
}
use backend_common_component.Objects.{ConnEntry, Ptr}
use Prim.Native.Nat.{min}
use mathlib.Core.List.{append-nil, append_assoc}
use backend_common_component.RedisPool.Types.{Pool}
use backend_common_component.RedisPool.Connections.{destroy_connection, note_sizes}
use backend_common_component.RedisPool.Invariant.{recycle_loop-length}
use backend_common_component.RedisPool.Recycle.{
  recycle_loop, recycle_idle_connections, idle_seconds,
}

-- The elements that have idled for less than the limit, in their order, and how many have not.
abbrev pub is_idle : ℤ → ℕ → ConnEntry → Bool
is_idle limit now (c, since) = leb_ℤ limit (pos (idle_seconds now since))

abbrev pub fresh_entries : ℤ → ℕ → List ConnEntry → List ConnEntry
fresh_entries limit now [] = []
fresh_entries limit now (e ∷ q) =
    if is_idle limit now e then fresh_entries limit now q else e ∷ fresh_entries limit now q

abbrev pub idle_count : ℤ → ℕ → List ConnEntry → ℕ
idle_count limit now [] = 0
idle_count limit now (e ∷ q) = (if is_idle limit now e then 1 else 0) + idle_count limit now q

destroy-queue :
    (c : Ptr) (p : Pool)
    → ((destroy_connection c p).conn_queue ≡ p.conn_queue)
      × ((destroy_connection c p).max_idle_time ≡ p.max_idle_time)
unfolding destroy_connection
destroy-queue none p = (refl, refl)
destroy-queue (some c) p = (refl, refl)

recycle_loop-fresh :
    (xs done : List ConnEntry) (recycled can_recycle now : ℕ) (limit : ℤ) (p : Pool)
    → p.conn_queue ≡ xs ++ done
    → p.max_idle_time ≡ limit
    → recycled + idle_count limit now xs < can_recycle
    → (recycle_loop (length xs) recycled can_recycle now p).1.conn_queue
      ≡ done ++ fresh_entries limit now xs
unfolding recycle_loop destroy_connection
recycle_loop-fresh [] done recycled can_recycle now limit p e l h = rw append-nil e
recycle_loop-fresh ((c, t) ∷ xs) done recycled can_recycle now limit p e l h =
    let d = destroy_connection c (record p { conn_queue = xs ++ done }) in
    let r : Pool = record p { conn_queue = (xs ++ done) ++ ((c, t) ∷ []) } in
    ground (
      arith,
      append_assoc xs done ((c, t) ∷ []),
      append_assoc done ((c, t) ∷ []) (fresh_entries limit now xs),
      recycle_loop-fresh xs done (suc recycled) can_recycle now limit d
          (destroy-queue c (record p { conn_queue = xs ++ done })).0
          ((destroy-queue c (record p { conn_queue = xs ++ done })).1 ∙ l),
      recycle_loop-fresh xs (done ++ ((c, t) ∷ [])) recycled can_recycle now limit r
          (append_assoc xs done ((c, t) ∷ [])) l,
    )

recycle_loop-count :
    (xs done : List ConnEntry) (recycled can_recycle now : ℕ) (limit : ℤ) (p : Pool)
    → p.conn_queue ≡ xs ++ done
    → p.max_idle_time ≡ limit
    → recycled ≤ can_recycle
    → (recycle_loop (length xs) recycled can_recycle now p).0
      ≡ min (recycled + idle_count limit now xs) can_recycle
unfolding recycle_loop
recycle_loop-count [] done recycled can_recycle now limit p e l h = omega arith
recycle_loop-count ((c, t) ∷ xs) done recycled can_recycle now limit p e l h =
    let d = destroy_connection c (record p { conn_queue = xs ++ done }) in
    let r : Pool = record p { conn_queue = (xs ++ done) ++ ((c, t) ∷ []) } in
    let (same_queue, same_limit) = destroy-queue c (record p { conn_queue = xs ++ done }) in
    ground (
      arith,
      recycle_loop-count xs done (suc recycled) can_recycle now limit d same_queue (same_limit ∙ l),
      recycle_loop-count xs (done ++ ((c, t) ∷ [])) recycled can_recycle now limit r
          (append_assoc xs done ((c, t) ∷ [])) l,
    )

module _ (now : ℕ) (p : Pool) where
  -- The number of connections that one run may destroy.
  abbrev pub surplus : ℕ
  surplus = rounds (pos (length p.conn_queue) -ℤ p.min_size)

  -- With fewer idle connections than the surplus of the queue over the minimal size, one
  -- run leaves exactly the connections that have idled for less than the limit, in their order.
  pub recycle-fresh :
      idle_count p.max_idle_time now p.conn_queue < surplus
      → (recycle_idle_connections now p).conn_queue ≡ fresh_entries p.max_idle_time now p.conn_queue
  unfolding recycle_idle_connections note_sizes
  recycle-fresh h = ground (
    arith,
    recycle_loop-fresh p.conn_queue [] 0 surplus now p.max_idle_time p
        (sym (append-nil p.conn_queue)) refl (omega arith),
  )

  -- One run of the recycle thread shortens the queue by the number of connections that
  -- have idled for the limit, but by at most the surplus of the queue over the minimal size.
  recycle-length :
      length (recycle_idle_connections now p).conn_queue
        + min (idle_count p.max_idle_time now p.conn_queue) surplus
      ≡ length p.conn_queue
  unfolding recycle_idle_connections note_sizes
  recycle-length = ground (
    arith,
    recycle_loop-count p.conn_queue [] 0 surplus now p.max_idle_time p
        (sym (append-nil p.conn_queue)) refl,
    recycle_loop-length (length p.conn_queue) 0 surplus now p p.conn_queue refl,
  )
