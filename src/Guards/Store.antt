-- ===== src/Guards/Store.antt =====
-- Guard objects of RedisConnGuard.h and pooledConnGuard.h (the fields are the same), a store of them,
-- and the connections that the guards in it still owe to the pool.
use backend_common_component.Prelude.{
  ℕ, zero, suc, ◌+◌, ◌≡◌, refl, Bool, true, false, not, ◌&&◌, Option, none, some, List, [], ◌∷◌,
  ◌++◌, arith, ◌==◌, if◌then◌else◌,
}

-- `m_pool` is null or the one pool; `m_conn` is null or a connection object.
pub record Guard : Type 0 where
  pub pool : Bool
  pub conn : Option ℕ
  pub released : Bool

-- The guards by their addresses, and the calls of `return_connection` that were made, latest first.
pub record Store : Type 0 where
  pub guards : List Guard
  pub calls : List ℕ

abbrev pub get_elem? : List Guard → ℕ → Option Guard
get_elem? [] i = none
get_elem? (g ∷ gs) zero = some g
get_elem? (g ∷ gs) (suc i) = get_elem? gs i

abbrev pub set : List Guard → ℕ → Guard → List Guard
set [] i g = []
set (h ∷ gs) zero g = g ∷ gs
set (h ∷ gs) (suc i) g = h ∷ set gs i g

abbrev is_some : Option ℕ → Bool
is_some none = false
is_some (some c) = true

-- `explicit operator bool`.
unfoldable pub holds : Guard → Bool
holds g = g.pool && (is_some g.conn && not g.released)

-- The constructor from a pool and a pointer; the state that a guard is left in when it is moved from.
unfoldable pub borrowed : Option ℕ → Guard
borrowed c = record { pool = true; conn = c; released = false }

unfoldable pub moved_from : Guard
moved_from = record { pool = false; conn = none; released = false }

-- Whether a guard will give back the object a.
abbrev pub owes_conn : ℕ → Option ℕ → ℕ
owes_conn a none = 0
owes_conn a (some c) = if c == a then 1 else 0

abbrev pub owes : ℕ → Guard → ℕ
owes a g = if g.pool && not g.released then owes_conn a g.conn else 0

abbrev pub owed : ℕ → List Guard → ℕ
owed a [] = 0
owed a (g ∷ gs) = owes a g + owed a gs

pub owed-set :
    (a i : ℕ) (gs : List Guard) (g h : Guard)
    → get_elem? gs i ≡ some g
    → owed a (set gs i h) + owes a g ≡ owed a gs + owes a h
owed-set a i [] g h e = cc
owed-set a zero (x ∷ gs) g h e = ground arith
owed-set a (suc i) (x ∷ gs) g h e = omega (arith, owed-set a i gs g h e)

pub get_elem?-set_self :
    (i : ℕ) (gs : List Guard) (g h : Guard)
    → get_elem? gs i ≡ some g
    → get_elem? (set gs i h) i ≡ some h
get_elem?-set_self i [] g h e = cc
get_elem?-set_self zero (x ∷ gs) g h e = refl
get_elem?-set_self (suc i) (x ∷ gs) g h e = get_elem?-set_self i gs g h e

pub get_elem?-set_ne :
    (i j : ℕ) (gs : List Guard) (h : Guard)
    → (i == j) ≡ false
    → get_elem? (set gs i h) j ≡ get_elem? gs j
get_elem?-set_ne i j [] h e = refl
get_elem?-set_ne zero zero (x ∷ gs) h e = cc
get_elem?-set_ne zero (suc j) (x ∷ gs) h e = refl
get_elem?-set_ne (suc i) zero (x ∷ gs) h e = refl
get_elem?-set_ne (suc i) (suc j) (x ∷ gs) h e = get_elem?-set_ne i j gs h (ground arith)

pub owed-append : (a : ℕ) (gs hs : List Guard) → owed a (gs ++ hs) ≡ owed a gs + owed a hs
owed-append a [] hs = omega arith
owed-append a (g ∷ gs) hs = omega (arith, owed-append a gs hs)

pub get_elem?-append :
    (i : ℕ) (gs hs : List Guard) (g : Guard)
    → get_elem? gs i ≡ some g
    → get_elem? (gs ++ hs) i ≡ some g
get_elem?-append i [] hs g e = cc
get_elem?-append zero (x ∷ gs) hs g e = e
get_elem?-append (suc i) (x ∷ gs) hs g e = get_elem?-append i gs hs g e
