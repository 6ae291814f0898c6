-- ===== src/Prelude/Lists.antt =====
-- Lists measured by native numbers, and lists of object identities read as multisets.
use Prim.Native.Nat.{ℕ, zero, suc, ◌+◌, ◌<◌}
use mathlib.Core.Path.{◌≡◌, refl}
use mathlib.Core.List.{List, [], ◌∷◌, ◌++◌}
use mathlib.Core.Option.{Option, none, some}
use mathlib.Core.Bool.{false}
use native.Mathlib.Omega.{arith}
use backend_common_component.Prelude.Tests.{◌==◌, if◌then◌else◌}

module _ {ℓ} {A : Type ℓ} where
  abbrev pub length : List A → ℕ
  length [] = 0
  length (x ∷ xs) = suc (length xs)

  pub length-append : (xs ys : List A) → length (xs ++ ys) ≡ length xs + length ys
  length-append [] ys = omega arith
  length-append (x ∷ xs) ys = omega (arith, length-append xs ys)

-- How often an identity stands in a list.
abbrev pub count : ℕ → List ℕ → ℕ
count a [] = 0
count a (x ∷ xs) = (if x == a then 1 else 0) + count a xs

-- The list without the first occurrence of an identity.
abbrev pub remove : ℕ → List ℕ → List ℕ
remove a [] = []
remove a (x ∷ xs) = if x == a then xs else x ∷ remove a xs

pub count-append : (c : ℕ) (q r : List ℕ) → count c (q ++ r) ≡ count c q + count c r
count-append c [] r = omega arith
count-append c (e ∷ q) r = omega (arith, count-append c q r)

pub count-remove :
    (a b : ℕ) (xs : List ℕ)
    → 0 < count a xs
    → count b (remove a xs) + (if a == b then 1 else 0) ≡ count b xs
count-remove a b [] h = absurd (omega arith)
count-remove a b (x ∷ xs) h = ground (arith, count-remove a b xs)

pub length-remove : (a : ℕ) (xs : List ℕ) → 0 < count a xs → suc (length (remove a xs)) ≡ length xs
length-remove a [] h = absurd (omega arith)
length-remove a (x ∷ xs) h = ground (arith, length-remove a xs)

-- Lists as arrays. A write out of bounds changes nothing.
module _ {ℓ} {A : Type ℓ} where
  abbrev pub get_elem? : List A → ℕ → Option A
  get_elem? [] i = none
  get_elem? (x ∷ xs) zero = some x
  get_elem? (x ∷ xs) (suc i) = get_elem? xs i

  abbrev pub set : List A → ℕ → A → List A
  set [] i v = []
  set (x ∷ xs) zero v = v ∷ xs
  set (x ∷ xs) (suc i) v = x ∷ set xs i v

  abbrev pub sum_by : (A → ℕ) → List A → ℕ
  sum_by w [] = 0
  sum_by w (x ∷ xs) = w x + sum_by w xs

  pub sum_by-append : (w : A → ℕ) (q r : List A) → sum_by w (q ++ r) ≡ sum_by w q + sum_by w r
  sum_by-append w [] r = omega arith
  sum_by-append w (e ∷ q) r = omega (arith, sum_by-append w q r)

  pub sum_by-set :
      (w : A → ℕ) (i : ℕ) (xs : List A) (x v : A)
      → get_elem? xs i ≡ some x
      → sum_by w (set xs i v) + w x ≡ sum_by w xs + w v
  sum_by-set w i [] x v e = cc
  sum_by-set w zero (y ∷ ys) x v e = ground arith
  sum_by-set w (suc i) (y ∷ ys) x v e = omega (arith, sum_by-set w i ys x v e)

  pub set-get_self :
      (i : ℕ) (xs : List A) (x v : A) → get_elem? xs i ≡ some x → get_elem? (set xs i v) i ≡ some v
  set-get_self i [] x v e = cc
  set-get_self zero (y ∷ ys) x v e = refl
  set-get_self (suc i) (y ∷ ys) x v e = set-get_self i ys x v e

  pub set-get_ne :
      (i j : ℕ) (xs : List A) (v : A) → (i == j) ≡ false → get_elem? (set xs i v) j ≡ get_elem? xs j
  set-get_ne i j [] v e = refl
  set-get_ne zero zero (y ∷ ys) v e = cc
  set-get_ne zero (suc j) (y ∷ ys) v e = refl
  set-get_ne (suc i) zero (y ∷ ys) v e = refl
  set-get_ne (suc i) (suc j) (y ∷ ys) v e = set-get_ne i j ys v (ground arith)

  pub length-set : (xs : List A) (i : ℕ) (v : A) → length (set xs i v) ≡ length xs
  length-set [] i v = refl
  length-set (x ∷ xs) zero v = refl
  length-set (x ∷ xs) (suc i) v = omega (arith, length-set xs i v)
