-- ===== src/App/Writing.antt =====
-- Values that can be written in a configuration file, and sections whose keys can.
use backend_common_component.Prelude.{
  ℕ, zero, suc, ◌+◌, ◌%◌, ◌/◌, ◌≡◌, refl, Bool, true, false, not, ◌&&◌, none, some, [], ◌∷◌, ◌++◌,
  arith, ℤ, pos, negsuc, if◌then◌else◌, Bool-cases, inl, inr, ltb, Option, and_left, and_right,
  false≢true,
}
use backend_common_component.Ini.Reader.{is_blank, Text, Section, Ini, find}
use backend_common_component.Ini.Values.{to_string, digits, true_text, false_text}
use backend_common_component.Ini.Texts.{starts_clean, ends_clean, one_line, FitsLine, plain}
use backend_common_component.Ini.RoundTrip.{AreEntries, AreSections, starts_plain, is_empty}

abbrev pub bool_text : Bool → Text
bool_text b = if b then true_text else false_text

-- A text without any blank.
abbrev solid : Text → Bool
solid [] = true
solid (c ∷ s) = not (is_blank c) && solid s

solid-append : (s t : Text) → solid s ≡ true → solid t ≡ true → solid (s ++ t) ≡ true
solid-append [] t h g = g
solid-append (c ∷ s) t h g = ground (arith, solid-append s t)

solid-ends : (s : Text) → solid s ≡ true → ends_clean s ≡ true
solid-ends [] h = refl
solid-ends (c ∷ []) h = ground arith
solid-ends (c ∷ d ∷ s) h = solid-ends (d ∷ s) (and_right (not (is_blank c)) (solid (d ∷ s)) h)

solid-one_line : (s : Text) → solid s ≡ true → one_line s ≡ true
solid-one_line [] h = refl
solid-one_line (c ∷ s) h = ground (arith, solid-one_line s)

solid-FitsLine : (s : Text) → solid s ≡ true → FitsLine s
solid-FitsLine [] h = (refl, refl, refl)
solid-FitsLine (c ∷ s) h =
    (and_left (not (is_blank c)) (solid s) h, solid-ends (c ∷ s) h, solid-one_line (c ∷ s) h)

solid-digits : (k n : ℕ) → solid (digits k n) ≡ true
unfolding digits
solid-digits zero n = refl
solid-digits (suc k) n = elim (Bool-cases (ltb n 10)) [
  | inl small ↦ rw small (ground arith)
  | inr large ↦ rw large (
      solid-append (digits k (n / 10)) ((48 + n % 10) ∷ []) (solid-digits k (n / 10))
        (ground arith))
]

pub int-FitsLine : (z : ℤ) → FitsLine (to_string z)
unfolding to_string
int-FitsLine (pos n) = solid-FitsLine (digits (suc n) n) (solid-digits (suc n) n)
int-FitsLine (negsuc n) =
    solid-FitsLine (b'-' ∷ digits (suc (suc n)) (suc n)) (solid-digits (suc (suc n)) (suc n))

pub bool-FitsLine : (b : Bool) → FitsLine (bool_text b)
bool-FitsLine true = (refl, refl, refl)
bool-FitsLine false = (refl, refl, refl)

-- Keys and names that can be written, whatever the values are.
abbrev pub is_none {ℓ} : {A : Type ℓ} → Option A → Bool
is_none none = true
is_none (some _) = false

none-is {ℓ} : {A : Type ℓ} (o : Option A) → is_none o ≡ true → o ≡ none
none-is none h = refl
none-is (some x) h = absurd (false≢true h)

abbrev pub writable : Text → Bool
writable k = (starts_clean k && (ends_clean k && one_line k)) && (plain k && starts_plain k)

abbrev pub keys_fit : Section → Section → Bool
keys_fit before [] = true
keys_fit before ((k, v) ∷ s) =
    writable k && (is_none (find k before) && keys_fit (before ++ ((k, v) ∷ [])) s)

abbrev pub names_fit : Ini → Ini → Bool
names_fit before [] = true
names_fit before ((name, s) ∷ ini) =
    (starts_clean name && (ends_clean name && one_line name))
    && (not (is_empty name)
        && (is_none (find name before)
            && (keys_fit [] s && names_fit (before ++ ((name, s) ∷ [])) ini)))

abbrev pub AreTrimmed : Section → Type 0
AreTrimmed [] = Unit {0}
AreTrimmed ((_, v) ∷ s) = FitsLine v × AreTrimmed s

abbrev pub AllTrimmed : Ini → Type 0
AllTrimmed [] = Unit {0}
AllTrimmed ((_, s) ∷ ini) = AreTrimmed s × AllTrimmed ini

fit-AreEntries :
    (before s : Section) → keys_fit before s ≡ true → AreTrimmed s → AreEntries before s
fit-AreEntries before [] h t = tt
fit-AreEntries before ((k, v) ∷ s) h (t, ts) =
    let next = before ++ ((k, v) ∷ []) in
    let w : writable k ≡ true = and_left _ (is_none (find k before) && keys_fit next s) h in
    let r : is_none (find k before) && keys_fit next s ≡ true = and_right (writable k) _ h in
    (
      ground (arith, w),
      t,
      ground (arith, w),
      ground (arith, w),
      none-is (find k before) (and_left _ (keys_fit next s) r),
      fit-AreEntries next s (and_right (is_none (find k before)) _ r) ts,
    )

pub fit-AreSections :
    (before ini : Ini) → names_fit before ini ≡ true → AllTrimmed ini → AreSections before ini
fit-AreSections before [] h t = tt
fit-AreSections before ((name, s) ∷ ini) h (t, ts) =
    let next = before ++ ((name, s) ∷ []) in
    let r1 = and_right (starts_clean name && (ends_clean name && one_line name)) _ h in
    let r2 = and_right (not (is_empty name)) _ r1 in
    let r3 = and_right (is_none (find name before)) _ r2 in
    (
      ground (arith, h),
      ground (arith, r1),
      none-is (find name before) (and_left _ (keys_fit [] s && names_fit next ini) r2),
      fit-AreEntries [] s (and_left _ (names_fit next ini) r3) t,
      fit-AreSections next ini (and_right (keys_fit [] s) _ r3) ts,
    )
