-- ===== src/Ini/Texts.antt =====
-- Laws of the text functions of ini.cpp.
use backend_common_component.Prelude.{
  ℕ, ◌≡◌, refl, Bool, true, not, ◌&&◌, none, some, List, [], ◌∷◌, ◌++◌, arith, ◌==◌, if◌then◌else◌,
}
use backend_common_component.Ini.Reader.{
  Text, text_eq, is_blank, trim_start, trim_end, trim, find, put, split_eq, last_is, drop_last,
}

-- No blank at the start; at the end.
abbrev pub starts_clean : Text → Bool
starts_clean [] = true
starts_clean (c ∷ s) = not (is_blank c)

abbrev pub ends_clean : Text → Bool
ends_clean [] = true
ends_clean (c ∷ []) = not (is_blank c)
ends_clean (c ∷ d ∷ s) = ends_clean (d ∷ s)

-- No newline.
abbrev pub one_line : Text → Bool
one_line [] = true
one_line (c ∷ s) = not (c == 10) && one_line s

-- A text that can stand in a line: no newline, and no blank at its ends.
abbrev pub FitsLine : Text → Type 0
FitsLine s = (starts_clean s ≡ true) × (ends_clean s ≡ true) × (one_line s ≡ true)

pub one_line-append :
    (s t : Text) → one_line s ≡ true → one_line t ≡ true → one_line (s ++ t) ≡ true
one_line-append [] t h g = g
one_line-append (c ∷ s) t h g = ground (arith, one_line-append s t)

pub text_eq_refl : (s : Text) → text_eq s s ≡ true
text_eq_refl [] = refl
text_eq_refl (c ∷ s) = ground (arith, text_eq_refl s)

trim_start-clean : (s : Text) → starts_clean s ≡ true → trim_start s ≡ s
unfolding trim_start
trim_start-clean [] h = refl
trim_start-clean (c ∷ s) h = ground arith

trim_end-clean : (s : Text) → ends_clean s ≡ true → trim_end s ≡ s
unfolding trim_end
trim_end-clean [] h = refl
trim_end-clean (c ∷ []) h = ground arith
trim_end-clean (c ∷ d ∷ s) h = rw (trim_end-clean (d ∷ s) h) refl

pub trim-clean : (s : Text) → FitsLine s → trim s ≡ s
unfolding trim
trim-clean s h = rw (trim_start-clean s h.0) (trim_end-clean s h.1)

trim_start-starts : (s : Text) → starts_clean (trim_start s) ≡ true
unfolding trim_start
trim_start-starts [] = refl
trim_start-starts (c ∷ s) = ground (arith, trim_start-starts s)

-- Cutting the end leaves the first character, unless nothing is left.
trim_end-starts : (s : Text) → starts_clean s ≡ true → starts_clean (trim_end s) ≡ true
unfolding trim_end
trim_end-starts [] h = refl
trim_end-starts (c ∷ s) h = ground arith

cons-ends : (c d : ℕ) (s : Text) → ends_clean (d ∷ s) ≡ true → ends_clean (c ∷ d ∷ s) ≡ true
cons-ends c d s h = h

trim_end-ends : (s : Text) → ends_clean (trim_end s) ≡ true
unfolding trim_end
trim_end-ends [] = refl
trim_end-ends (c ∷ s) = go (trim_end s) (trim_end-ends s)
  where
    go :
        (t : Text)
        → ends_clean t ≡ true
        → ends_clean (elim t [ [] ↦ (if is_blank c then [] else c ∷ []) | d ∷ u ↦ c ∷ d ∷ u ])
          ≡ true
    go [] h = ground arith
    go (d ∷ u) h = h

-- A trimmed text has no blank at its ends.
pub trim-clean_ends : (s : Text) → (starts_clean (trim s) ≡ true) × (ends_clean (trim s) ≡ true)
unfolding trim
trim-clean_ends s =
    (trim_end-starts (trim_start s) (trim_start-starts s), trim_end-ends (trim_start s))

pub last_is-append : (b : ℕ) (s : Text) → last_is b (s ++ (b ∷ [])) ≡ true
unfolding last_is
last_is-append b [] = ground arith
last_is-append b (c ∷ []) = ground arith
last_is-append b (c ∷ d ∷ s) = last_is-append b (d ∷ s)

pub drop_last-append : (b : ℕ) (s : Text) → drop_last (s ++ (b ∷ [])) ≡ s
unfolding drop_last
drop_last-append b [] = refl
drop_last-append b (c ∷ []) = refl
drop_last-append b (c ∷ d ∷ s) = rw (drop_last-append b (d ∷ s)) refl

-- No `=` in a text.
abbrev pub plain : Text → Bool
plain [] = true
plain (c ∷ s) = not (c == 61) && plain s

pub split_eq-append : (k v : Text) → plain k ≡ true → split_eq (k ++ (61 ∷ v)) ≡ some (k, v)
unfolding split_eq
split_eq-append [] v h = refl
split_eq-append (c ∷ k) v h = ground (arith, split_eq-append k v)

pub ends_clean-append :
    (k : Text) (c : ℕ) (v : Text) → ends_clean (c ∷ v) ≡ true → ends_clean (k ++ (c ∷ v)) ≡ true
ends_clean-append [] c v h = h
ends_clean-append (x ∷ []) c v h = h
ends_clean-append (x ∷ y ∷ k) c v h = ends_clean-append (y ∷ k) c v h

module _ {ℓ} {V : Type ℓ} where
  pub find-append :
      (k : Text) (v : V) (m : List (Text × V))
      → find k m ≡ none
      → find k (m ++ ((k, v) ∷ [])) ≡ some v
  unfolding find
  find-append k v [] h = ground (arith, text_eq_refl k)
  find-append k v ((j, w) ∷ m) h = ground (arith, find-append k v m)

  pub put-fresh :
      (k : Text) (v : V) (m : List (Text × V)) → find k m ≡ none → put k v m ≡ m ++ ((k, v) ∷ [])
  unfolding find put
  put-fresh k v [] h = refl
  put-fresh k v ((j, w) ∷ m) h = ground (arith, put-fresh k v m)

  pub put-last :
      (k : Text) (v w : V) (m : List (Text × V))
      → find k m ≡ none
      → put k v (m ++ ((k, w) ∷ [])) ≡ m ++ ((k, v) ∷ [])
  unfolding find put
  put-last k v w [] h = ground (arith, text_eq_refl k)
  put-last k v w ((j, x) ∷ m) h = ground (arith, put-last k v w m)

  pub find-put : (k : Text) (v : V) (m : List (Text × V)) → find k (put k v m) ≡ some v
  unfolding find put
  find-put k v [] = ground (arith, text_eq_refl k)
  find-put k v ((j, w) ∷ m) = ground (arith, find-put k v m)
