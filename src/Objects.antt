-- ===== src/Objects.antt =====
-- The connection objects of the two pools: pointers, the elements of `m_conn_queue`, `delete`, and
-- who owns which object. The heap is the model's own; the n-th construction makes object n.
use backend_common_component.Prelude.{
  ℕ, suc, ◌+◌, ◌≤◌, ◌<◌, ◌≡◌, Option, none, some, List, [], ◌∷◌, ◌++◌, arith, count, remove,
  count-remove, ltb, length, ◌==◌, if◌then◌else◌,
}

-- A connection pointer, `sw::redis::Redis*` or `IDatabaseConnection*`: null, or the identity of an object.
abbrev pub Ptr : Type 0
Ptr = Option ℕ

-- A queue element: the pointer and the steady-clock time (ns) of its last use.
abbrev pub ConnEntry : Type 0
ConnEntry = Ptr × ℕ

-- The connection objects that exist. The n-th construction makes object n; `bad_free` counts
-- deletions of objects that do not exist.
pub record Heap : Type 0 where
  pub tries : ℕ
  pub live : List ℕ
  pub bad_free : ℕ

-- How often an object stands in a queue, and how many objects do.
abbrev pub points : ℕ → Ptr → ℕ
points a none = 0
points a (some b) = if b == a then 1 else 0

abbrev pub held : ℕ → List ConnEntry → ℕ
held a [] = 0
held a ((c, t) ∷ q) = points a c + held a q

-- `delete conn` on a pointer that is not null.
unfoldable pub delete : ℕ → Heap → Heap
delete c h =
    if ltb 0 (count c h.live)
    then record h { live = remove c h.live }
    else record h { bad_free = suc h.bad_free }

-- The loop of `shutdown` deletes the queued connections, without counting them.
unfoldable pub drain : List ConnEntry → Heap → Heap
drain [] h = h
drain ((none, _) ∷ q) h = drain q h
drain ((some c, _) ∷ q) h = drain q (delete c h)

-- A client keeps the pointer that its call returned, unless it is null.
abbrev pub keep : Ptr → List ℕ → List ℕ
keep none lent = lent
keep (some c) lent = c ∷ lent

pub record Owns (lent : List ℕ) (q : List ConnEntry) (h : Heap) : Type 0 where
  pub owned : (a : ℕ) → count a h.live ≡ held a q + count a lent
  pub distinct : (a : ℕ) → count a h.live ≤ 1
  pub fresh : (a : ℕ) → h.tries ≤ a → count a h.live ≡ 0
  pub sound : h.bad_free ≡ 0

pub held-append : (a : ℕ) (q r : List ConnEntry) → held a (q ++ r) ≡ held a q + held a r
held-append a [] r = omega arith
held-append a ((c, t) ∷ q) r = omega (arith, held-append a q r)

-- How an object changes hands.
module _ (lent : List ℕ) (c : ℕ) (t : ℕ) (q : List ConnEntry) (h : Heap) where
  pub delete-Owns : Owns lent ((some c, t) ∷ q) h → Owns lent q (delete c h)
  unfolding delete
  delete-Owns v = record {
    owned = λ a. ground (arith, v.owned a, v.owned c, count-remove c a h.live);
    distinct = λ a. ground (arith, v.distinct a, v.owned c, count-remove c a h.live);
    fresh = λ a l. ground (arith, v.fresh a, v.owned c, count-remove c a h.live);
    sound = ground (arith, v.sound, v.owned c);
  }

  pub hand_in-Owns : 0 < count c lent → Owns lent q h → Owns (remove c lent) ((some c, t) ∷ q) h
  hand_in-Owns l v = record {
    owned = λ a. ground (arith, v.owned a, count-remove c a lent);
    distinct = v.distinct;
    fresh = v.fresh;
    sound = v.sound;
  }

pub to_back-Owns :
    (lent : List ℕ) (e : ConnEntry) (q : List ConnEntry) (h : Heap)
    → Owns lent (e ∷ q) h
    → Owns lent (q ++ (e ∷ [])) h
to_back-Owns lent (c, t) q h v = record {
  owned = λ a. omega (arith, v.owned a, held-append a q ((c, t) ∷ []));
  distinct = v.distinct;
  fresh = v.fresh;
  sound = v.sound;
}

pub lend-Owns :
    (lent : List ℕ) (c : Ptr) (t : ℕ) (q : List ConnEntry) (h : Heap)
    → Owns lent ((c, t) ∷ q) h
    → Owns (keep c lent) q h
lend-Owns lent none t q h v = record {
  owned = λ a. omega (arith, v.owned a);
  distinct = v.distinct;
  fresh = v.fresh;
  sound = v.sound;
}
lend-Owns lent (some c) t q h v = record {
  owned = λ a. omega (arith, v.owned a);
  distinct = v.distinct;
  fresh = v.fresh;
  sound = v.sound;
}

module _ (lent : List ℕ) where
  pub drain-Owns : (q : List ConnEntry) (h : Heap) → Owns lent q h → Owns lent [] (drain q h)
  unfolding drain
  drain-Owns [] h v = v
  drain-Owns ((none, t) ∷ q) h v = drain-Owns q h (lend-Owns lent none t q h v)
  drain-Owns ((some c, t) ∷ q) h v = drain-Owns q (delete c h) (delete-Owns lent c t q h v)

-- The queue elements that are not null.
abbrev pub objects : List ConnEntry → ℕ
objects [] = 0
objects ((none, _) ∷ q) = objects q
objects ((some c, _) ∷ q) = suc (objects q)

pub objects-append : (q r : List ConnEntry) → objects (q ++ r) ≡ objects q + objects r
objects-append [] r = omega arith
objects-append ((none, t) ∷ q) r = objects-append q r
objects-append ((some c, t) ∷ q) r = omega (arith, objects-append q r)

pub objects-le-length : (q : List ConnEntry) → objects q ≤ length q
objects-le-length [] = omega arith
objects-le-length ((none, t) ∷ q) = omega (arith, objects-le-length q)
objects-le-length ((some c, t) ∷ q) = omega (arith, objects-le-length q)
