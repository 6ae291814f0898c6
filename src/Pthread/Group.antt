-- ===== src/Pthread/Group.antt =====
-- Which thread of the pthread pool stands in which slots of `m_thread_work_group`.
use backend_common_component.Prelude.{
  ℕ, zero, suc, ◌+◌, ◌<◌, ◌≡◌, refl, false, List, [], ◌∷◌, ◌++◌, arith, ℤ, incr, length, count,
  ◌==◌, if◌then◌else◌,
}
use backend_common_component.ThreadPool.Pool.{Worker, free, ready, get_elem?, set, is_free}
use backend_common_component.Pthread.Pool.{assign, thread_exit, spawn, start}
use backend_common_component.Pthread.Counts.{
  present, thread_exit_counts, thread_exit-other, count-le-length,
}

pub get_elem?-set :
    (ws : List Worker) (i j : ℕ) (v : Worker)
    → is_free (get_elem? ws i) ≡ false
    → get_elem? (set ws i v) j ≡ (if i == j then v else get_elem? ws j)
get_elem?-set [] i j v n = absurd (ground arith)
get_elem?-set (w ∷ ws) zero zero v n = refl
get_elem?-set (w ∷ ws) zero (suc j) v n = ground arith
get_elem?-set (w ∷ ws) (suc i) zero v n = ground arith
get_elem?-set (w ∷ ws) (suc i) (suc j) v n = ground (arith, get_elem?-set ws i j v n)

get_elem?-snoc :
    (ws : List Worker) (w : Worker) (j : ℕ)
    → get_elem? (ws ++ (w ∷ [])) j ≡ (if length ws == j then w else get_elem? ws j)
get_elem?-snoc [] w zero = refl
get_elem?-snoc [] w (suc j) = ground arith
get_elem?-snoc (x ∷ ws) w zero = ground arith
get_elem?-snoc (x ∷ ws) w (suc j) = ground (arith, get_elem?-snoc ws w j)

get_elem?-length : (ws : List Worker) → get_elem? ws (length ws) ≡ free
get_elem?-length [] = refl
get_elem?-length (w ∷ ws) = get_elem?-length ws

module _ (create : ℕ → ℕ) where
  -- Each thread that has not ended stands in exactly one slot, and no other thread in any.
  abbrev pub IsHeld : List ℕ → List Worker → Type 0
  IsHeld group all = (i : ℕ) → count (create i) group ≡ present (get_elem? all i)

  -- The same for a part of the slots, when thread i stands in `f i` of the others.
  abbrev IsHeldBeside : (ℕ → ℕ) → List ℕ → List Worker → Type 0
  IsHeldBeside f group all = (i : ℕ) → f i + count (create i) group ≡ present (get_elem? all i)

  -- With one more slot beside, of content t.
  abbrev beside : (ℕ → ℕ) → ℕ → ℕ → ℕ
  beside f t i = f i + (if t == create i then 1 else 0)

  module _ (nonzero : (n : ℕ) → 0 < create n)
      (distinct : (i j : ℕ) → create i ≡ create j → i ≡ j) where
    pub set-IsHeld :
        (group : List ℕ) (all : List Worker) (i : ℕ) (v : Worker)
        → IsHeld group all
        → present (get_elem? all i) ≡ 1
        → present v ≡ 1
        → IsHeld group (set all i v)
    set-IsHeld group all i v h e k j = ground (arith, h j, get_elem?-set all i j v (ground arith))

    pub leave-IsHeld :
        (group : List ℕ) (all : List Worker) (i : ℕ)
        → IsHeld group all
        → present (get_elem? all i) ≡ 1
        → IsHeld (thread_exit (create i) group) (set all i free)
    leave-IsHeld group all i h e j = ground (
      arith,
      h i,
      h j,
      nonzero i,
      nonzero j,
      distinct j i,
      get_elem?-set all i j free (ground arith),
      thread_exit_counts (create i) group,
      thread_exit-other (create i) (create j) group,
    )

    taken_slot-IsHeld :
        (f : ℕ → ℕ) (ts : List ℕ) (all : List Worker)
        → IsHeldBeside f (0 ∷ ts) all
        → IsHeldBeside (beside f (create (length all))) ts (all ++ (ready ∷ []))
    taken_slot-IsHeld f ts all h i = ground (
      arith,
      h i,
      nonzero i,
      distinct (length all) i,
      get_elem?-snoc all ready i,
      get_elem?-length all,
    )

    keep_slot-IsHeldBeside :
        (f : ℕ → ℕ) (t : ℕ) (ts : List ℕ) (all : List Worker)
        → IsHeldBeside f (t ∷ ts) all
        → IsHeldBeside (beside f t) ts all
    keep_slot-IsHeldBeside f t ts all h i = omega (arith, h i)

    spawn-IsHeldBeside :
        (f : ℕ → ℕ) (op_num max cnt live : ℤ) (ts : List ℕ) (all : List Worker)
        → IsHeldBeside f ts all
        → let g = spawn create op_num max cnt live ts all in IsHeldBeside f g.group g.all
    unfolding spawn
    spawn-IsHeldBeside f op_num max cnt live [] all h i = h i
    spawn-IsHeldBeside f op_num max cnt live (zero ∷ ts) all h i = ground (
      arith,
      h i,
      spawn-IsHeldBeside (beside f (create (length all))) op_num max (incr cnt) (incr live) ts
          (all ++ (ready ∷ [])) (taken_slot-IsHeld f ts all h) i,
    )
    spawn-IsHeldBeside f op_num max cnt live (suc t ∷ ts) all h i = ground (
      arith,
      h i,
      spawn-IsHeldBeside (beside f (suc t)) op_num max cnt live ts all
          (keep_slot-IsHeldBeside f (suc t) ts all h) i,
    )

    pub spawn-IsHeld :
        (op_num max cnt live : ℤ) (ts : List ℕ) (all : List Worker)
        → IsHeld ts all
        → let g = spawn create op_num max cnt live ts all in IsHeld g.group g.all
    spawn-IsHeld op_num max cnt live ts all h i =
        omega (
          arith,
          spawn-IsHeldBeside (λ j. 0) op_num max cnt live ts all (λ j. omega (arith, h j)) i,
        )

    start-IsHeldBeside :
        (f : ℕ → ℕ) (n : ℕ) (ts : List ℕ) (all : List Worker)
        → count 0 ts ≡ length ts
        → IsHeldBeside f ts all
        → let (group, all') = start create n ts all in IsHeldBeside f group all'
    unfolding start
    start-IsHeldBeside f n [] all z h i = h i
    start-IsHeldBeside f zero (t ∷ ts) all z h i = h i
    start-IsHeldBeside f (suc n) (suc t ∷ ts) all z h i =
        absurd (ground (arith, count-le-length 0 ts))
    start-IsHeldBeside f (suc n) (zero ∷ ts) all z h i = ground (
      arith,
      h i,
      start-IsHeldBeside (beside f (create (length all))) n ts (all ++ (ready ∷ [])) (ground arith)
          (taken_slot-IsHeld f ts all h) i,
    )

    pub start-IsHeld :
        (n : ℕ) (ts : List ℕ)
        → count 0 ts ≡ length ts
        → IsHeld ts []
        → let (group, all) = start create n ts [] in IsHeld group all
    start-IsHeld n ts z h i =
        omega (arith, start-IsHeldBeside (λ j. 0) n ts [] z (λ j. omega (arith, h j)) i)

  pub assign-IsHeld : ((n : ℕ) → 0 < create n) → (n : ℕ) → IsHeld (assign n) []
  unfolding assign
  assign-IsHeld nonzero zero i = refl
  assign-IsHeld nonzero (suc n) i = ground (arith, nonzero i, assign-IsHeld nonzero n i)
