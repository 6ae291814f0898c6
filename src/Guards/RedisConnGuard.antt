-- ===== src/Guards/RedisConnGuard.antt =====
-- RedisConnGuard.cpp over a store of guards, and what becomes of the connections.
use backend_common_component.Prelude.{
  ℕ, ◌+◌, ◌≡◌, Bool, true, false, Option, none, some, List, [], ◌∷◌, ◌++◌, arith, ◌==◌,
  if◌then◌else◌, count, Bool-cases, Option-cases, inl, inr, ◌∙◌,
}
use backend_common_component.Guards.Store.{
  Guard, Store, get_elem?, set, borrowed, moved_from, owes, owed, owed-set, owed-append,
  get_elem?-set_ne, get_elem?-set_self, owes_conn,
}

-- What `release` hands to `return_connection`: the connection, if pool and connection are not null.
unfoldable pub handed : Bool → Option ℕ → List ℕ → List ℕ
handed true (some c) calls = c ∷ calls
handed _ _ calls = calls

unfoldable pub release_guard : Guard → Guard
release_guard g = if g.released then g else record { pool = false; conn = none; released = true }

unfoldable pub release_calls : Guard → List ℕ → List ℕ
unfolding handed
release_calls g calls = if g.released then calls else handed g.pool g.conn calls

-- `release` on the guard at an address; the destructor calls it too.
unfoldable pub release : ℕ → Store → Store
unfolding release_guard release_calls
release i s = elim (get_elem? s.guards i) [
  | none ↦ s
  | some g ↦ record { guards = set s.guards i (release_guard g); calls = release_calls g s.calls }
]

-- An address at which no guard stands is left alone.
-- A guard at a new address, and one that is moved there.
unfoldable pub construct : Option ℕ → Store → Store
unfolding borrowed
construct c s = record s { guards = s.guards ++ (borrowed c ∷ []) }

unfoldable pub move_construct : ℕ → Store → Store
unfolding moved_from
move_construct j s = elim (get_elem? s.guards j) [
  | none ↦ s
  | some g ↦ record s { guards = set s.guards j moved_from ++ (g ∷ []) }
]

-- The part of the move assignment behind its call of `release`.
unfoldable pub take_over : ℕ → ℕ → Store → Store
unfolding moved_from
take_over i j s = elim (get_elem? s.guards j) [
  | none ↦ s
  | some g ↦ record s { guards = set (set s.guards i g) j moved_from }
]

unfoldable pub move_assign : ℕ → ℕ → Store → Store
unfolding release take_over
move_assign i j s = elim (get_elem? s.guards i) [
  | none ↦ s
  | some _ ↦ if i == j then s else take_over i j (release i s)
]

-- What a program does with guards. A destructor is `releases`.
pub data Action : Type 0 where
  constructs : Option ℕ → Action
  moves : ℕ → Action
  assigns : ℕ → ℕ → Action
  releases : ℕ → Action

unfoldable pub act : Action → Store → Store
act (constructs c) s = construct c s
act (moves j) s = move_construct j s
act (assigns i j) s = move_assign i j s
act (releases i) s = release i s

unfoldable pub run : List Action → Store → Store
run [] s = s
run (x ∷ xs) s = run xs (act x s)

-- How often the object a was lent to a guard.
abbrev pub lent : ℕ → List Action → ℕ
lent a [] = 0
lent a (constructs c ∷ xs) = owes_conn a c + lent a xs
lent a (moves j ∷ xs) = lent a xs
lent a (assigns i j ∷ xs) = lent a xs
lent a (releases i ∷ xs) = lent a xs

-- Given back, or still owed.
abbrev pub settled : ℕ → Store → ℕ
settled a s = count a s.calls + owed a s.guards

release-settled : (a i : ℕ) (s : Store) → settled a (release i s) ≡ settled a s
unfolding release
release-settled a i s = elim (Option-cases (get_elem? s.guards i)) [
  | inl e ↦ ground arith
  | inr (g, e) ↦ ground (arith, owed-set a i s.guards g (release_guard g) e)
]

move_construct-settled : (a j : ℕ) (s : Store) → settled a (move_construct j s) ≡ settled a s
unfolding move_construct
move_construct-settled a j s = elim (Option-cases (get_elem? s.guards j)) [
  | inl e ↦ ground arith
  | inr (g, e) ↦ ground (
    arith,
    owed-set a j s.guards g moved_from e,
    owed-append a (set s.guards j moved_from) (g ∷ []),
  )
]

-- After `release` a guard owes nothing.
release-owes :
    (a i : ℕ) (s : Store) (g : Guard)
    → get_elem? s.guards i ≡ some g
    → (h : Guard) × (get_elem? (release i s).guards i ≡ some h) × (owes a h ≡ 0)
unfolding release
release-owes a i s g e = (
  release_guard g,
  ground (arith, get_elem?-set_self i s.guards g (release_guard g) e),
  ground arith,
)

take_over-settled :
    (a i j : ℕ) (s : Store) (g : Guard)
    → get_elem? s.guards i ≡ some g
    → owes a g ≡ 0
    → (i == j) ≡ false
    → settled a (take_over i j s) ≡ settled a s
unfolding take_over
take_over-settled a i j s g e o n = elim (Option-cases (get_elem? s.guards j)) [
  | inl f ↦ ground arith
  | inr (h, f) ↦ ground (
    arith,
    owed-set a i s.guards g h e,
    owed-set a j (set s.guards i h) h moved_from (get_elem?-set_ne i j s.guards h n ∙ f),
  )
]

move_assign-settled : (a i j : ℕ) (s : Store) → settled a (move_assign i j s) ≡ settled a s
unfolding move_assign
move_assign-settled a i j s = elim (Option-cases (get_elem? s.guards i)) [
  | inl e ↦ ground arith
  | inr (g, e) ↦ elim (Bool-cases (i == j)) [
    | inl same ↦ ground arith
    | inr differ ↦
        let (h, f, o) = release-owes a i s g e in
        ground (arith, take_over-settled a i j (release i s) h f o differ, release-settled a i s)
  ]
]

-- In any program over guards, with moves and self-assignments, each connection that was lent to a
-- guard has been given back to the pool or is still owed by exactly one guard, as often as lent.
pub run-settled :
    (a : ℕ) (xs : List Action) (s : Store) → settled a (run xs s) ≡ settled a s + lent a xs
unfolding run act construct
run-settled a [] s = omega arith
run-settled a (constructs c ∷ xs) s =
    ground (arith, run-settled a xs (construct c s), owed-append a s.guards (borrowed c ∷ []))
run-settled a (moves j ∷ xs) s =
    omega (arith, run-settled a xs (move_construct j s), move_construct-settled a j s)
run-settled a (assigns i j ∷ xs) s =
    omega (arith, run-settled a xs (move_assign i j s), move_assign-settled a i j s)
run-settled a (releases i ∷ xs) s =
    omega (arith, run-settled a xs (release i s), release-settled a i s)
