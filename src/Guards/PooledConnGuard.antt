-- ===== src/Guards/PooledConnGuard.antt =====
-- pooledConnGuard.cpp over a store of guards. `none` is a call on a null pool pointer, which has no
-- defined result in C++.
use backend_common_component.Prelude.{
  ℕ, ◌+◌, ◌≡◌, true, false, Option, none, some, List, [], ◌∷◌, ◌++◌, arith, ◌==◌, if◌then◌else◌,
  count, ◌∙◌,
}
use backend_common_component.Guards.Store.{
  Guard, Store, get_elem?, set, moved_from, owes, owed, owed-set, get_elem?-set_ne,
  get_elem?-set_self, get_elem?-append,
}

-- `return_connection` acts on a connection that is not null only.
unfoldable pub handed : Option ℕ → List ℕ → List ℕ
handed none calls = calls
handed (some c) calls = c ∷ calls

unfoldable pub release_held : ℕ → Guard → Store → Option Store
unfolding handed
release_held i g s =
    if g.released
    then some s
    else if g.pool
    then some (record {
      guards = set s.guards i (record g { released = true });
      calls = handed g.conn s.calls;
    })
    else none

-- `release`, and the destructor.
unfoldable pub release : ℕ → Store → Option Store
unfolding release_held
release i s = elim (get_elem? s.guards i) [ none ↦ some s | some g ↦ release_held i g s ]

unfoldable pub move_construct : ℕ → Store → Store
unfolding moved_from
move_construct j s = elim (get_elem? s.guards j) [
  | none ↦ s
  | some g ↦ record s { guards = set s.guards j moved_from ++ (g ∷ []) }
]

-- The assignment overwrites the guard at i, without a call of `release`.
unfoldable pub move_assign : ℕ → ℕ → Store → Store
unfolding moved_from
move_assign i j s = if i == j then s else elim (get_elem? s.guards j) [
  | none ↦ s
  | some g ↦ record s { guards = set (set s.guards i g) j moved_from }
]

abbrev pub settled : ℕ → Store → ℕ
settled a s = count a s.calls + owed a s.guards

-- A release that does not fault loses nothing: what the guard owed has been given back.
release-settled :
    (a i : ℕ) (s t : Store) (g : Guard)
    → get_elem? s.guards i ≡ some g
    → release i s ≡ some t
    → settled a t ≡ settled a s
unfolding release
release-settled a i s t g e r =
    ground (arith, owed-set a i s.guards g (record g { released = true }) e)

-- A guard that was moved from calls `return_connection` through a null pool when it is destroyed.
moved_from-faults :
    (j : ℕ) (s : Store) (g : Guard)
    → get_elem? s.guards j ≡ some g
    → release j (move_construct j s) ≡ none
unfolding release move_construct
moved_from-faults j s g e = ground (
  arith,
  get_elem?-set_self j s.guards g moved_from e,
  get_elem?-append j (set s.guards j moved_from) (g ∷ []) moved_from,
)

-- A move assignment from another guard loses what the assigned guard owed: it is neither given back
-- nor owed by any guard afterwards.
pub move_assign-loses :
    (a i j : ℕ) (s : Store) (g h : Guard)
    → (i == j) ≡ false
    → get_elem? s.guards i ≡ some g
    → get_elem? s.guards j ≡ some h
    → settled a (move_assign i j s) + owes a g ≡ settled a s
unfolding move_assign
move_assign-loses a i j s g h n e f = ground (
  arith,
  owed-set a i s.guards g h e,
  owed-set a j (set s.guards i h) h moved_from (get_elem?-set_ne i j s.guards h n ∙ f),
)
