-- ===== src/Ini/Values.antt =====
-- value.cpp: a value of a configuration as a text, and its conversions. `std::to_string` and `atoi` on
-- `int` are written out as they are documented; those on `double` are left out.
use mathlib.Core.List.{append-nil, append_assoc}
use backend_common_component.Prelude.{
  ℕ, zero, suc, ◌+◌, ◌-◌, ◌*◌, ◌/◌, ◌%◌, ◌<◌, ◌≡◌, refl, sym, ap, ◌∙◌, false≢true, Bool, true,
  false, ◌&&◌, ◌||◌, [], ◌∷◌, ◌++◌, arith, ltb, leb, ◌==◌, if◌then◌else◌, ℤ, pos, negsuc, Option,
  none, some, Bool-cases, inl, inr,
}
use backend_common_component.Ini.Reader.{Text, text_eq}

pub record Value : Type 0 where
  pub val : Text

abbrev pub true_text : Text
true_text = b't' ∷ b'r' ∷ b'u' ∷ b'e' ∷ []

abbrev pub false_text : Text
false_text = b'f' ∷ b'a' ∷ b'l' ∷ b's' ∷ b'e' ∷ []

unfoldable pub from_bool : Bool → Value
from_bool b = record { val = if b then true_text else false_text }

-- The digits of a number; the first argument is more than the number of digits.
unfoldable pub digits : ℕ → ℕ → Text
digits zero n = []
digits (suc k) n =
    let rest = digits k (n / 10) in if ltb n 10 then (48 + n) ∷ [] else rest ++ ((48 + n % 10) ∷ [])

-- `std::to_string` of an `int`.
unfoldable pub to_string : ℤ → Text
unfolding digits
to_string (pos n) = digits (suc n) n
to_string (negsuc n) = b'-' ∷ digits (suc (suc n)) (suc n)

unfoldable pub from_int : ℤ → Value
unfolding to_string
from_int z = record { val = to_string z }

unfoldable pub from_text : Text → Value
from_text s = record { val = s }

-- `Value(const char*)`, where none is a null pointer.
unfoldable pub from_pointer : Option Text → Value
from_pointer none = record { val = [] }
from_pointer (some s) = record { val = s }

unfoldable pub to_bool : Value → Bool
to_bool v = text_eq v.val true_text

-- `atoi`: blanks, a sign, and digits up to another character.
unfoldable pub scan : ℕ → Text → ℕ
scan n [] = n
scan n (c ∷ s) = if leb 48 c && leb c 57 then scan (n * 10 + (c - 48)) s else n

abbrev pub negated : ℕ → ℤ
negated zero = pos 0
negated (suc n) = negsuc n

-- The blanks of `isspace`.
abbrev pub is_space : ℕ → Bool
is_space c = c == 32 || (leb 9 c && leb c 13)

unfoldable pub signed : Text → ℤ
unfolding scan
signed [] = pos 0
signed (c ∷ s) =
    if c == b'-'
    then negated (scan 0 s)
    else if c == b'+'
    then pos (scan 0 s)
    else pos (scan 0 (c ∷ s))

unfoldable pub atoi : Text → ℤ
unfolding signed
atoi [] = pos 0
atoi (c ∷ s) = if is_space c then atoi s else signed (c ∷ s)

unfoldable pub to_int : Value → ℤ
unfolding atoi
to_int v = atoi v.val

unfoldable pub to_text : Value → Text
to_text v = v.val

scan-digit : (n d : ℕ) (s : Text) → d < 10 → scan n ((48 + d) ∷ s) ≡ scan (n * 10 + d) s
unfolding scan
scan-digit n d s h =
    let low : leb 48 (48 + d) ≡ true = ground arith in
    let high : leb (48 + d) 57 ≡ true = ground arith in
    let back : 48 + d - 48 ≡ d = omega arith in rw low rw high rw back refl

-- The digits of a number, and what follows them.
scan-digits : (k n : ℕ) (s : Text) → n < k → scan 0 (digits k n ++ s) ≡ scan n s
unfolding digits
scan-digits zero n s h = absurd (omega (arith, h))
scan-digits (suc k) n s h = elim (Bool-cases (ltb n 10)) [
  | inl small ↦ rw small (scan-digit 0 n s (ground arith) ∙ ap (λ m. scan m s) (omega arith))
  | inr large ↦ rw large (
      ap (scan 0) (append_assoc (digits k (n / 10)) ((48 + n % 10) ∷ []) s)
      ∙ scan-digits k (n / 10) ((48 + n % 10) ∷ s) (ground arith)
      ∙ scan-digit (n / 10) (n % 10) s (omega arith)
      ∙ ap (λ m. scan m s) (omega arith))
]

abbrev starts_digit : Text → Bool
starts_digit [] = false
starts_digit (c ∷ s) = leb 48 c && leb c 57

append-starts : (s t : Text) → starts_digit s ≡ true → starts_digit (s ++ t) ≡ true
append-starts (c ∷ s) t h = h
append-starts [] t h = absurd (false≢true h)

digits-starts : (k n : ℕ) → n < k → starts_digit (digits k n) ≡ true
unfolding digits
digits-starts zero n h = absurd (omega (arith, h))
digits-starts (suc k) n h = elim (Bool-cases (ltb n 10)) [
  | inl small ↦ rw small (ground arith)
  | inr large ↦ rw large (
      append-starts (digits k (n / 10)) ((48 + n % 10) ∷ [])
        (digits-starts k (n / 10) (ground arith)))
]

-- Digits are read as they stand.
atoi-starts : (s : Text) → starts_digit s ≡ true → atoi s ≡ pos (scan 0 s)
unfolding atoi signed
atoi-starts [] h = absurd (false≢true h)
atoi-starts (c ∷ s) h =
    let space : is_space c ≡ false = ground arith in
    let minus : (c == b'-') ≡ false = ground arith in
    let plus : (c == b'+') ≡ false = ground arith in rw space rw minus rw plus refl

atoi-minus : (s : Text) → atoi (b'-' ∷ s) ≡ negated (scan 0 s)
unfolding atoi signed
atoi-minus s = refl

scan-all : (k n : ℕ) → n < k → scan 0 (digits k n) ≡ n
unfolding scan
scan-all k n h = ap (scan 0) (sym (append-nil (digits k n))) ∙ scan-digits k n [] h

bool-back : (b : Bool) → text_eq (if b then true_text else false_text) true_text ≡ b
bool-back true = refl
bool-back false = refl

int-back : (z : ℤ) → atoi (to_string z) ≡ z
unfolding to_string
int-back (pos n) =
    atoi-starts (digits (suc n) n) (digits-starts (suc n) n (omega arith))
    ∙ ap pos (scan-all (suc n) n (omega arith))
int-back (negsuc n) =
    atoi-minus (digits (suc (suc n)) (suc n))
    ∙ ap negated (scan-all (suc (suc n)) (suc n) (omega arith))

-- A truth value, an integer and a text come back from the value that is made of them.
pub value-back :
    (b : Bool) (z : ℤ) (s : Text)
    → (to_bool (from_bool b) ≡ b) × (to_int (from_int z) ≡ z) × (to_text (from_text s) ≡ s)
unfolding to_bool from_bool to_int from_int to_text from_text
value-back b z s = (bool-back b, int-back z, refl)
