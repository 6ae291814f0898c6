-- ===== src/Strings.antt =====
-- Texts as C keeps them: bytes up to the first zero.
use backend_common_component.Prelude.{
  ℕ, zero, suc, ◌≤◌, ◌≡◌, refl, Bool, true, false, not, ◌&&◌, List, [], ◌∷◌, ◌++◌, ◌==◌, arith,
  length, if◌then◌else◌,
}

-- The string that starts at an address: up to the first zero.
abbrev pub c_string : List ℕ → List ℕ
c_string [] = []
c_string (c ∷ s) = if c == 0 then [] else c ∷ c_string s

abbrev pub zero_free : List ℕ → Bool
zero_free [] = true
zero_free (c ∷ s) = not (c == 0) && zero_free s

-- The first bytes of a text. The library's `take` counts in another ℕ.
abbrev pub first : ℕ → List ℕ → List ℕ
first zero s = []
first (suc n) [] = []
first (suc n) (c ∷ s) = c ∷ first n s

pub c_string-free : (s : List ℕ) → zero_free s ≡ true → c_string (s ++ (0 ∷ [])) ≡ s
c_string-free [] h = refl
c_string-free (c ∷ s) h =
    let test : (c == 0) ≡ false = ground arith in rw test rw (c_string-free s (ground arith)) refl

pub length-first : (n : ℕ) (s : List ℕ) → length (first n s) ≤ n
length-first zero s = omega arith
length-first (suc n) [] = omega arith
length-first (suc n) (c ∷ s) = omega (arith, length-first n s)

pub first-all : (n : ℕ) (s : List ℕ) → length s ≤ n → first n s ≡ s
first-all zero [] h = refl
first-all zero (c ∷ s) h = absurd (omega (arith, h))
first-all (suc n) [] h = refl
first-all (suc n) (c ∷ s) h = rw (first-all n s (omega (arith, h))) refl
